-- ===== src/Audit/Rotation.antt =====
-- The rotation of the archives in audit.rs.
use egress_apikey.Prelude.{
  ℕ, suc, zero, ◌≤◌, ◌<◌, ◌≡◌, refl, sym, ap, ◌∙◌, Bool, true, false, Option, none, some, is_some,
  ◌==◌, if◌then◌else◌, arith, Option-cases, Bool-cases, ◌⊎◌, inl, inr,
}
use mathlib.Core.Path.{subst}
use egress_apikey.Prelude.Results.{Result, ok, err}
use egress_apikey.Prelude.Texts.{Bytes}
use egress_apikey.Audit.{Disk, Io, move_slot, shift, shift_one, drop_oldest, archive_live, rotate}

abbrev Slots : Type 0
Slots = ℕ → Option Bytes

-- The slots from 1 to `i` are one on, slot 1 is free, and what is above stays.
record IsShifted (i : ℕ) (slots after : Slots) : Type 0 where
  moved : (j : ℕ) → 1 ≤ j → j ≤ i → after (suc j) ≡ slots j
  free : after 1 ≡ none
  above : (j : ℕ) → suc (suc i) ≤ j → after j ≡ slots j

shift_one-ok :
    (i : ℕ) (there : Bool) (answer : Result Unit) (moved kept : Result Unit × Slots) (slots : Slots)
    {after : Slots}
    → shift_one i there answer moved kept slots ≡ (ok tt, after)
    → if there then (moved ≡ (ok tt, after)) else (kept ≡ (ok tt, after))
shift_one-ok i true (ok u) moved kept slots h = h
shift_one-ok i true (err e) moved kept slots h = cc
shift_one-ok i false answer moved kept slots h = h

last_or_before : (i j : ℕ) → j ≤ suc i → (j ≡ suc i) ⊎ (j ≤ i)
last_or_before i j h = elim (Bool-cases (j == suc i)) [
  | inl last ↦ inl (ground arith)
  | inr before ↦ inr (ground arith)
]

-- A slot that is empty needs no rename.
kept-IsShifted :
    (i : ℕ) (slots after : Slots)
    → slots (suc i) ≡ none
    → slots (suc (suc i)) ≡ none
    → IsShifted i slots after
    → IsShifted (suc i) slots after
kept-IsShifted i slots after gone free s = record {
  moved = λ j a b. elim (last_or_before i j b) [
    | inl last ↦
        ap (λ k. after (suc k)) last
        ∙ s.above (suc (suc i)) (omega arith)
        ∙ free
        ∙ sym gone
        ∙ ap slots (sym last)
    | inr before ↦ s.moved j a before
  ];
  free = s.free;
  above = λ j a. s.above j (omega arith);
}

moved-IsShifted :
    (i : ℕ) (slots after : Slots)
    → IsShifted i (move_slot (suc i) slots) after
    → IsShifted (suc i) slots after
moved-IsShifted i slots after s = record {
  moved = λ j a b. elim (last_or_before i j b) [
    | inl last ↦
        ap (λ k. after (suc k)) last
        ∙ s.above (suc (suc i)) (omega arith)
        ∙ ground arith
        ∙ ap slots (sym last)
    | inr before ↦ s.moved j a before ∙ ground arith
  ];
  free = s.free;
  above = λ j a. s.above j (omega arith) ∙ ground arith;
}

shift-IsShifted :
    (shifted : ℕ → Result Unit) (i : ℕ) (slots : Slots) {after : Slots}
    → slots (suc i) ≡ none
    → shift shifted i slots ≡ (ok tt, after)
    → IsShifted i slots after
unfolding shift
shift-IsShifted shifted zero slots {after} free h =
    let same : slots ≡ after = cc in
    record {
      moved = λ j a b. absurd (omega arith);
      free = ap (λ (s : Slots). s 1) (sym same) ∙ free;
      above = λ j a. ap (λ (s : Slots). s j) (sym same);
    }
shift-IsShifted shifted (suc i) slots {after} free h =
    let step =
      shift_one-ok (suc i) (is_some (slots (suc i))) (shifted (suc i))
        (shift shifted i (move_slot (suc i) slots)) (shift shifted i slots) slots h in
    let Taken : ℕ → Slots → Bool → Type 0 = λ i slots b.
      if b
      then (shift shifted i (move_slot (suc i) slots) ≡ (ok tt, after))
      else (shift shifted i slots ≡ (ok tt, after)) in
    elim (Option-cases (slots (suc i))) [
      | inl gone ↦
          kept-IsShifted i slots after gone free
            (shift-IsShifted shifted i slots gone (subst (Taken i slots) (ap is_some gone) step))
      | inr (file, there) ↦ moved-IsShifted i slots after (
          shift-IsShifted shifted i (move_slot (suc i) slots) (ground arith)
            (subst (Taken i slots) (ap is_some there) step))
    ]

abbrev or_slot : Option Bytes → Option Bytes → Option Bytes
or_slot none slot = slot
or_slot (some file) slot = some file

archived-ok :
    (archived : Result Unit) (live : Option Bytes) (r : Result Unit × Slots) {disk : Disk}
    → archive_live archived live r ≡ (ok tt, disk)
    → (r.0 ≡ ok tt)
      × ((disk.live ≡ none)
          × ((j : ℕ) → disk.archive j ≡ (if j == 1 then or_slot live (r.1 j) else r.1 j)))
archived-ok archived live (err e, slots) h = cc
archived-ok archived none (ok u, slots) h =
    (refl, (cc, λ j. ap (λ (r : Result Unit × Disk). r.1.archive j) (sym h) ∙ ground arith))
archived-ok (ok u) (some file) (ok v, slots) h =
    (refl, (cc, λ j. ap (λ (r : Result Unit × Disk). r.1.archive j) (sym h)))
archived-ok (err e) (some file) (ok v, slots) h = cc

first_slot : (live slot : Option Bytes) → slot ≡ none → or_slot live slot ≡ live
first_slot none slot h = h
first_slot (some file) slot h = refl

other_slot : (i j : ℕ) → (i < j) ⊎ (j < i) → (a b : Option Bytes) → (if j == i then a else b) ≡ b
other_slot i j h a b = ground arith

-- A rotation that succeeds, where the oldest archive could be removed: the live file is archive 1,
-- each archive from 1 to 9 is one on, and no file is live. So of what the disk held, only the oldest
-- archive is gone.
pub rotate-shifts :
    (io : Io) (disk : Disk) {after : Disk}
    → io.removed ≡ true
    → rotate io disk ≡ (ok tt, after)
    → (after.live ≡ none)
      × (after.archive 1 ≡ disk.live)
      × ((j : ℕ) → 1 ≤ j → j ≤ 9 → after.archive (suc j) ≡ disk.archive j)
      × ((j : ℕ) → 11 ≤ j → after.archive j ≡ disk.archive j)
unfolding rotate
rotate-shifts io disk {after} removed h =
    let dropped = drop_oldest io.removed disk.archive in
    let r = shift io.shifted 9 dropped in
    let (done, (no_live, archives)) = archived-ok io.archived disk.live r h in
    let is_dropped : (j : ℕ) → dropped j ≡ (if j == 10 then none else disk.archive j) =
      λ j. rw removed refl in
    let s =
      shift-IsShifted io.shifted 9 dropped {after = r.1} (is_dropped 10)
        (ap (λ (a : Result Unit). (a, r.1)) done) in
    (
      no_live,
      archives 1 ∙ first_slot disk.live (r.1 1) s.free,
      λ j a b.
          archives (suc j)
          ∙ other_slot 1 (suc j) (inl (omega arith)) _ _
          ∙ s.moved j a b
          ∙ is_dropped j
          ∙ other_slot 10 j (inr (omega arith)) _ _,
      λ j a.
          archives j
          ∙ other_slot 1 j (inl (omega arith)) _ _
          ∙ s.above j a
          ∙ is_dropped j
          ∙ other_slot 10 j (inl (omega arith)) _ _,
    )

-- ===== src/Orchestration/Diff.antt =====
-- `bounded_diff` of orchestration.rs against the cap that the validator of strategy_service.rs puts
-- on the text that it makes.
use egress_apikey.Prelude.{
  ap, ◌⊎◌, ◌≢◌, if_elim, leb→le, length-take, All, ℕ, zero, suc, ◌+◌, ◌-◌, ◌≤◌, ◌<◌, ◌≡◌, refl,
  Bool, true, false, not, ◌&&◌, [], ◌∷◌, ◌++◌, ltb, leb, if◌then◌else◌, length, take, length-append,
  arith, inl, inr,
}
use egress_apikey.Prelude.Texts.{Bytes, bytes, decimal}

abbrev pub max_proposal_diff : ℕ
max_proposal_diff = 1024

abbrev pub is_continuation : ℕ → Bool
is_continuation b = leb 0x80 b && ltb b 0xC0

-- `s.is_char_boundary(i)` of a text's bytes, at an index within it.
unfoldable pub is_char_boundary : Bytes → ℕ → Bool
is_char_boundary s zero = true
is_char_boundary [] (suc i) = false
is_char_boundary (b ∷ []) (suc zero) = true
is_char_boundary (b ∷ c ∷ s) (suc zero) = not (is_continuation c)
is_char_boundary (b ∷ s) (suc (suc i)) = is_char_boundary s (suc i)

-- `while !s.is_char_boundary(end) { end -= 1; }`
unfoldable pub floor_boundary : Bytes → ℕ → ℕ
floor_boundary s zero = zero
floor_boundary s (suc end) =
    let lower = floor_boundary s end in if is_char_boundary s (suc end) then suc end else lower

unfoldable pub bounded_diff : Bytes → Bytes
unfolding is_char_boundary floor_boundary
bounded_diff s =
    let end = floor_boundary s max_proposal_diff in
    if leb (length s) max_proposal_diff
    then s
    else take end s ++ (bytes "…(+" ++ (decimal (length s - end) ++ bytes "B)"))

-- What the standard library documents of a text: a code point takes at most four bytes, so among
-- four indices in a row within the text one is a boundary.
abbrev pub IsUtf8 : Bytes → Type 0
IsUtf8 s =
    (i : ℕ)
    → i + 3 ≤ length s
    → (is_char_boundary s i ≡ true)
      ⊎ (is_char_boundary s (i + 1) ≡ true)
      ⊎ (is_char_boundary s (i + 2) ≡ true)
      ⊎ (is_char_boundary s (i + 3) ≡ true)

floor_boundary-le : (s : Bytes) (end : ℕ) → floor_boundary s end ≤ end
unfolding floor_boundary
floor_boundary-le s zero = omega arith
floor_boundary-le s (suc end) = ground (arith, floor_boundary-le s end)

le-floor_boundary :
    (s : Bytes) (k end : ℕ) → k ≤ end → is_char_boundary s k ≡ true → k ≤ floor_boundary s end
unfolding floor_boundary
le-floor_boundary s k zero h b = h
le-floor_boundary s k (suc end) h b =
    if_elim (λ (r : ℕ). k ≤ r) (is_char_boundary s (suc end)) (λ _. h)
      (λ closed. le-floor_boundary s k end (below (dec k (suc end)) closed) b)
  where
    dec : (m n : ℕ) → (m ≡ n) ⊎ (m ≢ n)
    dec m n = ground arith

    below : (k ≡ suc end) ⊎ (k ≢ suc end) → is_char_boundary s (suc end) ≡ false → k ≤ end
    below (inl e) closed = absurd (cc (b, closed, ap (is_char_boundary s) e))
    below (inr ne) closed = omega arith

floor_boundary_near :
    (s : Bytes) (i : ℕ) → IsUtf8 s → i + 3 ≤ length s → i ≤ floor_boundary s (i + 3)
floor_boundary_near s i u h = elim (u i h) [
  | inl b ↦ le-floor_boundary s i (i + 3) (omega arith) b
  | inr (inl b) ↦ omega (arith, le-floor_boundary s (i + 1) (i + 3) (omega arith) b)
  | inr (inr (inl b)) ↦ omega (arith, le-floor_boundary s (i + 2) (i + 3) (omega arith) b)
  | inr (inr (inr b)) ↦ omega (arith, le-floor_boundary s (i + 3) (i + 3) (omega arith) b)
]

floor_boundary-closed : (s : Bytes) (end : ℕ) → is_char_boundary s (floor_boundary s end) ≡ true
unfolding floor_boundary
floor_boundary-closed s zero = unfold is_char_boundary in refl
floor_boundary-closed s (suc end) =
    if_elim (λ (r : ℕ). is_char_boundary s r ≡ true) (is_char_boundary s (suc end)) (λ b. b)
      (λ _. floor_boundary-closed s end)

-- The part of a text before `end` with the note on how much is cut.
abbrev pub cut_at : Bytes → ℕ → Bytes
cut_at s end = take end s ++ (bytes "…(+" ++ (decimal (length s - end) ++ bytes "B)"))

length-cut_at :
    (s : Bytes) (end : ℕ)
    → max_proposal_diff < length s
    → end ≤ max_proposal_diff
    → max_proposal_diff ≤ end + 3
    → max_proposal_diff < length (cut_at s end)
length-cut_at s end long low near =
    let note = decimal (length s - end) ++ bytes "B)" in
    omega (
      arith,
      length-append (take end s) (bytes "…(+" ++ note),
      length-append (bytes "…(+") note,
      length-append (decimal (length s - end)) (bytes "B)"),
      length-take end s,
      mark_length,
      tail_length,
    )
  where
    mark_length : length (bytes "…(+") ≡ 5
    mark_length = unfold bytes in refl

    tail_length : length (bytes "B)") ≡ 2
    tail_length = unfold bytes in refl

leb-over : (n : ℕ) → leb n max_proposal_diff ≡ false → max_proposal_diff < n
leb-over n h = ground arith

-- A diff of at most 1024 bytes is kept. A longer one is cut at a character boundary at most three
-- bytes below the cap, the note on the bytes cut follows, and what comes out is above the cap that
-- the validator puts on it: cutting never makes a diff acceptable.
pub bounded_diff_over_cap :
    (s : Bytes)
    → IsUtf8 s
    → ((length s ≤ max_proposal_diff) × (bounded_diff s ≡ s))
      ⊎ ((max_proposal_diff < length s)
          × ((end : ℕ) × (end ≤ max_proposal_diff)
              × (max_proposal_diff ≤ end + 3)
              × (is_char_boundary s end ≡ true)
              × (bounded_diff s ≡ cut_at s end))
          × (max_proposal_diff < length (bounded_diff s)))
unfolding bounded_diff
bounded_diff_over_cap s u =
    let end = floor_boundary s max_proposal_diff in
    let Goal : Bytes → Type 0 = λ r.
      ((length s ≤ max_proposal_diff) × (r ≡ s))
      ⊎ ((max_proposal_diff < length s)
          × ((end : ℕ) × (end ≤ max_proposal_diff)
              × (max_proposal_diff ≤ end + 3)
              × (is_char_boundary s end ≡ true)
              × (r ≡ cut_at s end))
          × (max_proposal_diff < length r)) in
    let low = floor_boundary-le s max_proposal_diff in
    if_elim Goal (leb (length s) max_proposal_diff)
      (λ fits. inl (leb→le (length s) max_proposal_diff fits, refl))
      (λ over.
        let long = leb-over (length s) over in
        let near : max_proposal_diff ≤ end + 3 =
          omega (arith, floor_boundary_near s 1021 u (omega arith)) in
        inr (
          long,
          (end, low, near, floor_boundary-closed s max_proposal_diff, refl),
          length-cut_at s end long low near,
        ))

ascii_boundary :
    (s : Bytes) (i : ℕ) → All (λ b. b < 0x80) s → i ≤ length s → is_char_boundary s i ≡ true
unfolding is_char_boundary
ascii_boundary s zero h fits = refl
ascii_boundary [] (suc i) h fits = absurd (omega arith)
ascii_boundary (b ∷ []) (suc zero) h fits = refl
ascii_boundary (b ∷ []) (suc (suc i)) h fits = absurd (omega arith)
ascii_boundary (b ∷ c ∷ s) (suc zero) h fits = ground (arith, h.1.0)
ascii_boundary (b ∷ c ∷ s) (suc (suc i)) h fits = ascii_boundary (c ∷ s) (suc i) h.1 (omega arith)

-- A text of ASCII bytes meets the assumption.
pub ascii-IsUtf8 : (s : Bytes) → All (λ b. b < 0x80) s → IsUtf8 s
ascii-IsUtf8 s h i fits = inl (ascii_boundary s i h (omega arith))

-- ===== src/WhiteboxBackup/Names.antt =====
-- The names of the copies in whitebox_backup.rs: what is printed is read back.
use egress_apikey.Prelude.{
  ℕ, zero, suc, ◌+◌, ◌/◌, ◌%◌, ◌≤◌, ◌<◌, ◌≡◌, refl, sym, ap, ◌∙◌, Bool, true, false, ◌&&◌, Option,
  none, some, [], ◌∷◌, ◌++◌, all, ◌==◌, if◌then◌else◌, arith, append_assoc, append-nil, Bool-cases,
  inl, inr, u64_max, le→leb,
}
use mathlib.Core.List.{reverse, reverse-cons, reverse-append, reverse-reverse}
use mathlib.Core.Path.{ap₂}
use egress_apikey.Prelude.Texts.{Text, codes, decimal, decimal_from}
use egress_apikey.WhiteboxBackup.{
  dot, dash, is_digit, is_numeral, strip, segment, beyond, value, without_suffix, timestamp,
  of_stem, parse_backup_name, plain_name, suffixed_name, backup_name,
}

-- The digits of a number, the last one first.
low : ℕ → ℕ → Text
low zero n = []
low (suc fuel) n =
    let rest = low fuel (n / 10) in (b'0' + n % 10) ∷ (if n / 10 == 0 then [] else rest)

decimal_from-low : (fuel n : ℕ) (acc : Text) → decimal_from fuel n acc ≡ reverse (low fuel n) ++ acc
unfolding decimal_from low
decimal_from-low zero n acc = refl
decimal_from-low (suc fuel) n acc = elim (Bool-cases (n / 10 == 0)) [
  | inl last ↦ rw last refl
  | inr more ↦ rw more (
      decimal_from-low fuel (n / 10) ((b'0' + n % 10) ∷ acc)
      ∙ sym (
          ap (λ l. l ++ acc) (reverse-cons (b'0' + n % 10) (low fuel (n / 10)))
          ∙ append_assoc (reverse (low fuel (n / 10))) ((b'0' + n % 10) ∷ []) acc))
]

value-low : (fuel n : ℕ) → n < fuel → value (low fuel n) ≡ n
unfolding value low
value-low zero n h = absurd (omega arith)
value-low (suc fuel) n h = elim (Bool-cases (n / 10 == 0)) [
  | inl last ↦ rw last (ground arith)
  | inr more ↦ rw more (ground (arith, value-low fuel (n / 10)))
]

digits-low : (fuel n : ℕ) → all is_digit (low fuel n) ≡ true
unfolding low
digits-low zero n = refl
digits-low (suc fuel) n = ground (arith, digits-low fuel (n / 10))

-- The decimal numeral of a number, read from its end.
reverse-decimal : (n : ℕ) → reverse (decimal n) ≡ low (suc n) n
unfolding decimal
reverse-decimal n =
    ap reverse (decimal_from-low (suc n) n [] ∙ append-nil (reverse (low (suc n) n)))
    ∙ reverse-reverse (low (suc n) n)

digits : ℕ → Text
digits n = low (suc n) n

numeral-digits : (n : ℕ) → is_numeral (digits n) ≡ true
unfolding digits low
numeral-digits n = digits-low (suc n) n

both_true : (a b : Bool) → (a && b) ≡ true → (a ≡ true) × (b ≡ true)
both_true a b h = ground arith

differ : (c sep : ℕ) → is_digit c ≡ true → is_digit sep ≡ false → (c == sep) ≡ false
differ c sep h k = ground arith

-- A separator that is no digit ends a run of digits.
segment-digits :
    (sep : ℕ) (s r : Text)
    → is_digit sep ≡ false
    → all is_digit s ≡ true
    → segment sep (s ++ sep ∷ r) ≡ s
unfolding segment
segment-digits sep [] r sep_no h = ground arith
segment-digits sep (c ∷ s) r sep_no h =
    let rest = segment-digits sep s r sep_no in
    let (digit, digits) = both_true (is_digit c) (all is_digit s) h in
    rw (differ c sep digit sep_no) (ap (λ l. c ∷ l) (rest digits))

beyond-digits :
    (sep : ℕ) (s r : Text)
    → is_digit sep ≡ false
    → all is_digit s ≡ true
    → beyond sep (s ++ sep ∷ r) ≡ some r
unfolding beyond
beyond-digits sep [] r sep_no h = ground arith
beyond-digits sep (c ∷ s) r sep_no h =
    let (digit, digits) = both_true (is_digit c) (all is_digit s) h in
    rw (differ c sep digit sep_no) (beyond-digits sep s r sep_no digits)

-- A run of digits before a dot is in the way of a suffix.
segment_past :
    (s r : Text) → all is_digit s ≡ true → all is_digit (segment dash (s ++ dot ∷ r)) ≡ false
unfolding segment
segment_past [] r h = refl
segment_past (c ∷ s) r h =
    let (digit, digits) = both_true (is_digit c) (all is_digit s) h in
    rw (differ c dash digit refl) (rw digit (segment_past s r digits))

timestamp-digits : (n : ℕ) → n ≤ u64_max → timestamp (digits n) ≡ some n
unfolding digits
timestamp-digits n h =
    rw (numeral-digits n) (rw (value-low (suc n) n (omega arith)) (rw (le→leb n u64_max h) refl))

-- The stem of a plain name is not taken for one with a suffix.
plain_stem :
    (s r : Text) (left : Option Text)
    → all is_digit s ≡ true
    → is_numeral (segment dash (s ++ dot ∷ r)) ≡ false
    → without_suffix (s ++ dot ∷ r) left ≡ s ++ dot ∷ r
plain_stem s r none h k = refl
plain_stem s r (some left) h k = rw k refl

not_numeral : (s : Text) → all is_digit s ≡ false → is_numeral s ≡ false
not_numeral [] h = refl
not_numeral (c ∷ s) h = h

turned :
    (o : Text) (x : ℕ) (d rest : Text)
    → reverse (o ++ (x ∷ (d ++ rest))) ≡ reverse rest ++ (reverse d ++ (x ∷ reverse o))
turned o x d rest = simp (reverse-append, reverse-cons, append_assoc)

stem_of-plain :
    (original : Text) (now : ℕ)
    → strip (reverse (codes ".bak")) (reverse (plain_name original now))
      ≡ some (digits now ++ dot ∷ reverse original)
unfolding digits
stem_of-plain original now =
    ap (strip (reverse (codes ".bak"))) (turned original dot (decimal now) (codes ".bak"))
    ∙ ap (λ d. some (d ++ dot ∷ reverse original)) (reverse-decimal now)

stem_of-suffixed :
    (original : Text) (now suffix : ℕ)
    → strip (reverse (codes ".bak")) (reverse (suffixed_name original now suffix))
      ≡ some (digits suffix ++ dash ∷ (digits now ++ dot ∷ reverse original))
unfolding digits
stem_of-suffixed original now suffix =
    let tail = dash ∷ (decimal suffix ++ codes ".bak") in
    ap (strip (reverse (codes ".bak"))) (
      turned original dot (decimal now) tail
      ∙ ap (λ l. l ++ (reverse (decimal now) ++ dot ∷ reverse original))
          (turned [] dash (decimal suffix) (codes ".bak"))
      ∙ append_assoc (reverse (codes ".bak")) (reverse (decimal suffix) ++ dash ∷ []) _
      ∙ ap (λ l. reverse (codes ".bak") ++ l)
          (append_assoc (reverse (decimal suffix)) (dash ∷ []) _))
    ∙ ap₂ (λ d e. some (d ++ dash ∷ (e ++ dot ∷ reverse original))) (reverse-decimal suffix)
        (reverse-decimal now)

-- The name of a copy, with a collision suffix or without, reads back as its second.
pub parse_backup_name-backup_name :
    (original : Text) (now suffix : ℕ)
    → now ≤ u64_max
    → parse_backup_name (backup_name original now suffix) ≡ some now
unfolding parse_backup_name backup_name digits low
parse_backup_name-backup_name original now zero h =
    let stem = digits now ++ dot ∷ reverse original in
    let all_digits = digits-low (suc now) now in
    ap of_stem (stem_of-plain original now)
    ∙ ap (λ s. timestamp (segment dot s))
        (plain_stem (digits now) (reverse original) (beyond dash stem) all_digits (
          not_numeral (segment dash stem)
            (segment_past (digits now) (reverse original) all_digits)))
    ∙ ap timestamp (segment-digits dot (digits now) (reverse original) refl all_digits)
    ∙ timestamp-digits now h
parse_backup_name-backup_name original now (suc k) h =
    let left = digits now ++ dot ∷ reverse original in
    let suffix = digits (suc k) in
    let of_now =
      segment-digits dot (digits now) (reverse original) refl (digits-low (suc now) now) in
    let of_suffix = segment-digits dash suffix left refl (digits-low (suc (suc k)) (suc k)) in
    ap of_stem (stem_of-suffixed original now (suc k))
    ∙ ap (λ o. timestamp (segment dot (without_suffix (suffix ++ dash ∷ left) o)))
        (beyond-digits dash suffix left refl (digits-low (suc (suc k)) (suc k)))
    ∙ ap (λ b. timestamp (segment dot (if b then left else suffix ++ dash ∷ left)))
        (ap₂ (λ s t. is_numeral s && is_numeral t) of_suffix of_now
          ∙ ap₂ (λ a b. a && b) (numeral-digits (suc k)) (numeral-digits now))
    ∙ ap timestamp of_now
    ∙ timestamp-digits now h

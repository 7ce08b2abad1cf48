-- ===== src/HeadlessSecurity/Compare.antt =====
-- The comparison of the token in headless_security.rs, against equality.
use egress_apikey.Prelude.{
  ℕ, suc, zero, ◌+◌, ◌/◌, ◌≤◌, ◌≡◌, ◌↔◌, refl, Bool, true, false, [], ◌∷◌, length, ◌==◌,
  if◌then◌else◌, arith,
}
use mathlib.Core.Path.{subst, ap₂}
use egress_apikey.Prelude.Texts.{Bytes}
use egress_apikey.HeadlessSecurity.{xor_bits, or_bits, xor, or, difference, constant_time_eq}

xor_bits_zero : (n x y : ℕ) → x + y ≤ n → xor_bits n x y ≡ 0 → x ≡ y
unfolding xor_bits
xor_bits_zero zero x y h k = omega arith
xor_bits_zero (suc n) x y h k =
    omega (arith, xor_bits_zero n (x / 2) (y / 2) (omega arith) (omega arith))

xor_bits_same : (n x : ℕ) → xor_bits n x x ≡ 0
unfolding xor_bits
xor_bits_same zero x = refl
xor_bits_same (suc n) x = omega (arith, xor_bits_same n (x / 2))

or_bits_zero : (n x y : ℕ) → x + y ≤ n → or_bits n x y ≡ 0 → (x ≡ 0) × (y ≡ 0)
unfolding or_bits
or_bits_zero zero x y h k = (omega arith, omega arith)
or_bits_zero (suc n) x y h k =
    let (a, b) = or_bits_zero n (x / 2) (y / 2) (omega arith) (omega arith) in
    (omega arith, omega arith)

difference-zero :
    (diff : ℕ) (a b : Bytes) → length a ≡ length b → difference diff a b ≡ 0 → (diff ≡ 0) × (a ≡ b)
unfolding difference
difference-zero diff [] [] h k = (k, refl)
difference-zero diff [] (y ∷ b) h k = absurd (omega arith)
difference-zero diff (x ∷ a) [] h k = absurd (omega arith)
difference-zero diff (x ∷ a) (y ∷ b) h k =
    let (folded, rest) = difference-zero (or diff (xor x y)) a b (omega arith) k in
    let (none_before, none_here) =
      or_bits_zero (diff + xor x y) diff (xor x y) (omega arith) folded in
    (none_before, ap₂ (λ z s. z ∷ s) (xor_bits_zero (x + y) x y (omega arith) none_here) rest)

difference-same : (a : Bytes) → difference 0 a a ≡ 0
unfolding difference
difference-same [] = refl
difference-same (x ∷ a) = rw (xor_bits_same (x + x) x) (difference-same a)

both :
    (same none_differ : Bool)
    → (if same then none_differ else false) ≡ true
    → (same ≡ true) × (none_differ ≡ true)
both same none_differ h = ground arith

-- The comparison without an early exit is equality of the two texts.
pub constant_time_eq_iff : (a b : Bytes) → (constant_time_eq a b ≡ true) ↔ (a ≡ b)
unfolding constant_time_eq
constant_time_eq_iff a b = (
  λ h.
      let (same, none_differ) = both (length a == length b) (difference 0 a b == 0) h in
      (difference-zero 0 a b (ground arith) (ground arith)).1,
  λ p. subst (λ c. constant_time_eq a c ≡ true) p (ground (arith, difference-same a)),
)

-- ===== src/WhiteboxBackup/Cuts.antt =====
-- What is left of a list that whitebox_backup.rs cuts to its first entries.
use egress_apikey.Prelude.{
  ℕ, zero, suc, ◌≤◌, ◌≡◌, refl, Bool, false, not, ◌&&◌, List, [], ◌∷◌, any, count, take, drop,
  length, arith,
}

none_left :
    {A : Type 0} (p : A → Bool) (k : ℕ) (xs : List A) → count p xs ≡ 0 → any p (drop k xs) ≡ false
none_left p zero [] h = refl
none_left p zero (x ∷ xs) h = ground (arith, none_left p zero xs)
none_left p (suc k) [] h = refl
none_left p (suc k) (x ∷ xs) h = ground (arith, none_left p k xs)

pub none_beyond :
    {A : Type 0} (p : A → Bool) (k : ℕ) (xs : List A) → length xs ≤ k → any p (drop k xs) ≡ false
none_beyond p zero [] h = refl
none_beyond p zero (x ∷ xs) h = absurd (omega arith)
none_beyond p (suc k) [] h = refl
none_beyond p (suc k) (x ∷ xs) h = none_beyond p k xs (omega arith)

pub any-drop :
    {A : Type 0} (p : A → Bool) (k : ℕ) (xs : List A) → any p xs ≡ false → any p (drop k xs) ≡ false
any-drop p zero xs h = h
any-drop p (suc k) [] h = refl
any-drop p (suc k) (x ∷ xs) h = ground (arith, any-drop p k xs)

pub any-take-drop :
    {A : Type 0} (p : A → Bool) (k : ℕ) (xs : List A)
    → count p xs ≤ 1
    → any p (take k xs) ≡ (any p xs && not (any p (drop k xs)))
any-take-drop p zero xs h = ground arith
any-take-drop p (suc k) [] h = refl
any-take-drop p (suc k) (x ∷ xs) h = ground (arith, any-take-drop p k xs, none_left p k xs)

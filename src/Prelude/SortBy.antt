-- ===== src/Prelude/SortBy.antt =====
-- The stable `sort_by` and `sort_by_key`.
use Prim.Native.Nat.{◌+◌}
use mathlib.Core.Path.{◌≡◌, refl, ap, ◌∙◌}
use mathlib.Core.Bool.{Bool, ◌||◌}
use mathlib.Core.List.{List, [], ◌∷◌}
use native.Mathlib.Omega.{arith}
use egress_apikey.Prelude.Tests.{if◌then◌else◌}
use egress_apikey.Prelude.Lists.{any, count}

module _ {ℓ} {A : Type ℓ} where
  -- Before the first element that is not less.
  unfoldable pub insert_by : (A → A → Bool) → A → List A → List A
  insert_by less a [] = a ∷ []
  insert_by less a (x ∷ xs) =
      let rest = insert_by less a xs in if less x a then x ∷ rest else a ∷ x ∷ xs

  unfoldable pub sort_by : (A → A → Bool) → List A → List A
  unfolding insert_by
  sort_by less [] = []
  sort_by less (x ∷ xs) = insert_by less x (sort_by less xs)

  any-insert_by :
      (p : A → Bool) (less : A → A → Bool) (a : A) (xs : List A)
      → any p (insert_by less a xs) ≡ (p a || any p xs)
  unfolding insert_by
  any-insert_by p less a [] = refl
  any-insert_by p less a (x ∷ xs) = ground (arith, any-insert_by p less a xs)

  -- Sorting keeps the members.
  pub any-sort_by :
      (p : A → Bool) (less : A → A → Bool) (xs : List A) → any p (sort_by less xs) ≡ any p xs
  unfolding sort_by
  any-sort_by p less [] = refl
  any-sort_by p less (x ∷ xs) =
      any-insert_by p less x (sort_by less xs) ∙ ap (λ b. p x || b) (any-sort_by p less xs)

  count-insert_by :
      (p : A → Bool) (less : A → A → Bool) (a : A) (xs : List A)
      → count p (insert_by less a xs) ≡ (if p a then 1 else 0) + count p xs
  unfolding insert_by
  count-insert_by p less a [] = refl
  count-insert_by p less a (x ∷ xs) = ground (arith, count-insert_by p less a xs)

  pub count-sort_by :
      (p : A → Bool) (less : A → A → Bool) (xs : List A) → count p (sort_by less xs) ≡ count p xs
  unfolding sort_by
  count-sort_by p less [] = refl
  count-sort_by p less (x ∷ xs) =
      count-insert_by p less x (sort_by less xs)
      ∙ ap (λ k. (if p x then 1 else 0) + k) (count-sort_by p less xs)

-- ===== src/Prelude/Ordered.antt =====
-- What the stable sort by an order gives: no entry is before one that is less.
use egress_apikey.Prelude.Tests.{Bool-cases}
use egress_apikey.Prelude.Lists.{All}
use egress_apikey.Prelude.SortBy.{insert_by, sort_by}
use mathlib.Core.Path.{◌≡◌}
use mathlib.Core.Logic.{inl, inr}
use mathlib.Core.Bool.{Bool, true, false}
use mathlib.Core.List.{List, [], ◌∷◌}

module _ {A : Type 0} (less : A → A → Bool) (asym : (a b : A) → less a b ≡ true → less b a ≡ false)
    (through : (a b c : A) → less c b ≡ false → less b a ≡ false → less c a ≡ false) where
  -- What stands behind `x` is not less than it.
  abbrev pub Behind : A → List A → Type 0
  Behind x xs = All (λ z. less z x ≡ false) xs

  abbrev pub IsSortedBy : List A → Type 0
  IsSortedBy [] = Unit
  IsSortedBy (x ∷ xs) = Behind x xs × IsSortedBy xs

  Behind-through : (a x : A) (xs : List A) → less x a ≡ false → Behind x xs → Behind a xs
  Behind-through a x [] h b = tt
  Behind-through a x (z ∷ zs) h b = (through a x z b.0 h, Behind-through a x zs h b.1)

  Behind-insert_by :
      (x a : A) (xs : List A) → less a x ≡ false → Behind x xs → Behind x (insert_by less a xs)
  unfolding insert_by
  Behind-insert_by x a [] h b = (h, tt)
  Behind-insert_by x a (y ∷ ys) h b = elim (Bool-cases (less y a)) [
    | inl e ↦ rw e (b.0, Behind-insert_by x a ys h b.1)
    | inr e ↦ rw e (h, b)
  ]

  insert_by-IsSortedBy : (a : A) (xs : List A) → IsSortedBy xs → IsSortedBy (insert_by less a xs)
  unfolding insert_by
  insert_by-IsSortedBy a [] s = (tt, tt)
  insert_by-IsSortedBy a (x ∷ xs) s = elim (Bool-cases (less x a)) [
    | inl e ↦ rw e (Behind-insert_by x a xs (asym x a e) s.0, insert_by-IsSortedBy a xs s.1)
    | inr e ↦ rw e ((e, Behind-through a x xs e s.0), s)
  ]

  pub sort_by-IsSortedBy : (xs : List A) → IsSortedBy (sort_by less xs)
  unfolding sort_by
  sort_by-IsSortedBy [] = tt
  sort_by-IsSortedBy (x ∷ xs) = insert_by-IsSortedBy x (sort_by less xs) (sort_by-IsSortedBy xs)

All-insert_by :
    {A : Type 0} (less : A → A → Bool) (P : A → Type 0) (a : A) (xs : List A)
    → P a
    → All P xs
    → All P (insert_by less a xs)
unfolding insert_by
All-insert_by less P a [] p ps = (p, tt)
All-insert_by less P a (x ∷ xs) p ps = elim (Bool-cases (less x a)) [
  | inl e ↦ rw e (ps.0, All-insert_by less P a xs p ps.1)
  | inr e ↦ rw e (p, ps)
]

pub All-sort_by :
    {A : Type 0} (less : A → A → Bool) (P : A → Type 0) (xs : List A)
    → All P xs
    → All P (sort_by less xs)
unfolding sort_by
All-sort_by less P [] ps = tt
All-sort_by less P (x ∷ xs) ps =
    All-insert_by less P x (sort_by less xs) ps.0 (All-sort_by less P xs ps.1)

-- ===== src/Prelude/Sorting.antt =====
-- `Vec<String>::sort` and `dedup`: byte order of UTF-8 is the order of code points.
use egress_apikey.Prelude.Texts.{Text, codes}
use egress_apikey.Prelude.Tests.{ltb, ◌==◌, str_eq, if◌then◌else◌, if_elim, Bool-cases}
use egress_apikey.Prelude.Lists.{any}
use Prim.Native.String.{String}
use mathlib.Core.Path.{◌≡◌, refl, ◌∙◌, sym, ap, ap₂, subst}
use mathlib.Core.Logic.{inl, inr}
use mathlib.Core.Bool.{Bool, true, false, ◌||◌, ◌&&◌, false≢true}
use mathlib.Core.List.{List, [], ◌∷◌}
use native.Mathlib.Omega.{arith}
use text.Mathlib.TextEquality.{eq_iff, Char-path}

-- `a < b` of texts.
unfoldable pub lex_ltb : Text → Text → Bool
lex_ltb [] [] = false
lex_ltb [] (y ∷ ys) = true
lex_ltb (x ∷ xs) [] = false
lex_ltb (x ∷ xs) (y ∷ ys) = ltb x y || ((x == y) && lex_ltb xs ys)

abbrev pub str_ltb : String → String → Bool
str_ltb a b = lex_ltb (codes a) (codes b)

unfoldable pub insert : String → List String → List String
insert a [] = a ∷ []
insert a (x ∷ xs) = let rest = insert a xs in if str_ltb x a then x ∷ rest else a ∷ x ∷ xs

unfoldable pub sort : List String → List String
unfolding insert
sort [] = []
sort (x ∷ xs) = insert x (sort xs)

-- Consecutive equal entries collapse to the first.
unfoldable pub dedup : List String → List String
dedup [] = []
dedup (x ∷ []) = x ∷ []
dedup (x ∷ y ∷ xs) = let rest = dedup (y ∷ xs) in if str_eq x y then rest else x ∷ rest

unfoldable pub normalized : List String → List String
unfolding sort dedup
normalized xs = dedup (sort xs)

any-insert :
    (p : String → Bool) (a : String) (xs : List String) → any p (insert a xs) ≡ (p a || any p xs)
unfolding insert
any-insert p a [] = refl
any-insert p a (x ∷ xs) = ground (arith, any-insert p a xs)

any-sort : (p : String → Bool) (xs : List String) → any p (sort xs) ≡ any p xs
unfolding sort
any-sort p [] = refl
any-sort p (x ∷ xs) = rw (any-insert p x (sort xs)) (rw (any-sort p xs))

any-dedup : (p : String → Bool) (xs : List String) → any p (dedup xs) ≡ any p xs
unfolding dedup
any-dedup p [] = refl
any-dedup p (x ∷ []) = refl
any-dedup p (x ∷ y ∷ xs) = ground (arith, any-dedup p (y ∷ xs), eq_iff x y)

-- Normalising keeps the members.
pub any-normalized : (p : String → Bool) (xs : List String) → any p (normalized xs) ≡ any p xs
unfolding normalized
any-normalized p xs = any-dedup p (sort xs) ∙ any-sort p xs

lex_total : (a b : Text) → lex_ltb a b ≡ false → lex_ltb b a ≡ false → a ≡ b
unfolding lex_ltb
lex_total [] [] h k = refl
lex_total [] (y ∷ ys) h k = cc
lex_total (x ∷ xs) [] h k = cc
lex_total (x ∷ xs) (y ∷ ys) h k = ground (arith, lex_total xs ys)

lex_asym : (a b : Text) → lex_ltb a b ≡ true → lex_ltb b a ≡ false
unfolding lex_ltb
lex_asym [] [] h = cc
lex_asym [] (y ∷ ys) h = refl
lex_asym (x ∷ xs) [] h = cc
lex_asym (x ∷ xs) (y ∷ ys) h = ground (arith, lex_asym xs ys)

codes-injective : (s t : String) → codes s ≡ codes t → s ≡ t
codes-injective String.[] String.[] h = refl
codes-injective String.[] (String.◌∷◌ d t) h = cc
codes-injective (String.◌∷◌ c s) String.[] h = cc
codes-injective (String.◌∷◌ c s) (String.◌∷◌ d t) h =
    ap₂ String.◌∷◌ (Char-path c d (cc)) (codes-injective s t (cc))

-- The head of a list is not below `x`.
abbrev Above : String → List String → Type 0
Above x [] = Unit
Above x (y ∷ ys) = str_ltb y x ≡ false

abbrev IsSorted : List String → Type 0
IsSorted [] = Unit
IsSorted (x ∷ xs) = Above x xs × IsSorted xs

-- The head of a list is above `x`.
abbrev pub Below : String → List String → Type 0
Below x [] = Unit
Below x (y ∷ ys) = str_ltb x y ≡ true

-- Strictly ascending, so without duplicates.
abbrev pub IsAscending : List String → Type 0
IsAscending [] = Unit
IsAscending (x ∷ xs) = Below x xs × IsAscending xs

insert-Above :
    (x a : String) (xs : List String) → Above x xs → str_ltb a x ≡ false → Above x (insert a xs)
unfolding insert
insert-Above x a [] h k = k
insert-Above x a (y ∷ ys) h k = if_elim (Above x) (str_ltb y a) (λ _. h) (λ _. k)

insert-IsSorted : (a : String) (xs : List String) → IsSorted xs → IsSorted (insert a xs)
unfolding insert
insert-IsSorted a [] h = (tt, tt)
insert-IsSorted a (x ∷ xs) h =
    if_elim IsSorted (str_ltb x a)
      (λ lt. (insert-Above x a xs h.0 (lex_asym (codes x) (codes a) lt), insert-IsSorted a xs h.1))
      (λ ge. (ge, h))

sort-IsSorted : (xs : List String) → IsSorted (sort xs)
unfolding sort
sort-IsSorted [] = tt
sort-IsSorted (x ∷ xs) = insert-IsSorted x (sort xs) (sort-IsSorted xs)

str_total : (x y : String) → str_ltb y x ≡ false → str_eq x y ≡ false → str_ltb x y ≡ true
str_total x y h k = elim (Bool-cases (str_ltb x y)) [
  | inl lt ↦ lt
  | inr ge ↦
      let same = codes-injective x y (lex_total (codes x) (codes y) ge h) in
      absurd (false≢true (sym k ∙ (eq_iff x y).1 same))
]

-- What collapsing leaves of a sorted list: its first entry, and an ascending list.
dedup-IsAscending :
    (x : String) (xs : List String)
    → IsSorted (x ∷ xs)
    → (rest : List String) × (dedup (x ∷ xs) ≡ x ∷ rest) × IsAscending (x ∷ rest)
unfolding dedup
dedup-IsAscending x [] h = ([], refl, (tt, tt))
dedup-IsAscending x (y ∷ ys) h =
    let (rest, e, asc) = dedup-IsAscending y ys h.1 in
    elim (Bool-cases (str_eq x y)) [
      | inl same ↦
          let x≡y = (eq_iff x y).0 same in
          (
            rest,
            rw same (e ∙ ap (λ z. z ∷ rest) (sym x≡y)),
            subst (λ z. IsAscending (z ∷ rest)) (sym x≡y) asc,
          )
      | inr differ ↦ (y ∷ rest, rw differ (ap (λ l. x ∷ l) e), (str_total x y h.0 differ, asc))
    ]

-- Normalising sorts strictly: no duplicates are left.
pub normalized-IsAscending : (xs : List String) → IsAscending (normalized xs)
unfolding normalized
normalized-IsAscending xs = go (sort xs) (sort-IsSorted xs)
  where
    go : (ys : List String) → IsSorted ys → IsAscending (dedup ys)
    go [] h = tt
    go (y ∷ ys) h = let (rest, e, asc) = dedup-IsAscending y ys h in rw e asc

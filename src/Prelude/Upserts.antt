-- ===== src/Prelude/Upserts.antt =====
-- `iter_mut().find(|x| x.name == name)` as an update in place, or else a push: what it keeps.
use egress_apikey.Prelude.Tests.{str_eq, str_eq_ne, if◌then◌else◌, Bool-cases}
use egress_apikey.Prelude.Lists.{All, count, find}
use Prim.Native.Nat.{◌+◌, ◌≤◌}
use Prim.Native.String.{String}
use mathlib.Core.Path.{◌≡◌, refl, sym, ap, ◌∙◌, subst}
use mathlib.Core.Logic.{◌⊎◌, inl, inr}
use mathlib.Core.Bool.{Bool, true, false, false≢true}
use mathlib.Core.List.{List, [], ◌∷◌}
use mathlib.Core.Option.{Option, none, some}
use native.Mathlib.Omega.{arith}
use text.Mathlib.TextEquality.{eq_iff}

-- No two entries have one name.
abbrev pub Distinct : {A : Type 0} → (A → String) → List A → Type 0
Distinct name xs = (n : String) → count (λ x. str_eq (name x) n) xs ≤ 1

abbrev pub updated : {A : Type 0} → (A → A) → A → Option A → A
updated update new none = new
updated update new (some x) = update x

nested :
    {A : Type 0} (a b : Bool) (x y z : Option A)
    → a ≡ b
    → (if b then x else y) ≡ (if b then x else if a then z else y)
nested a true x y z e = refl
nested a false x y z e = rw e refl

swapped :
    {A : Type 0} (a b : Bool) (x u v w : Option A)
    → (a ≡ true → b ≡ false)
    → w ≡ (if b then u else v)
    → (if a then x else w) ≡ (if b then u else if a then x else v)
swapped true true x u v w h k = absurd (false≢true (sym (h refl)))
swapped true false x u v w h k = refl
swapped false true x u v w h k = k
swapped false false x u v w h k = k

not_both : (r name n : String) → str_eq r name ≡ false → str_eq r n ≡ true → str_eq name n ≡ false
not_both r name n h k =
    subst (λ m. str_eq name m ≡ false) ((eq_iff r n).0 k)
      (str_eq_ne name r (λ e. false≢true (sym h ∙ (eq_iff r name).1 (sym e))))

module _ {A : Type 0} (name_of : A → String) where
  unfoldable pub upsert : String → (A → A) → A → List A → List A
  upsert name update new [] = new ∷ []
  upsert name update new (x ∷ xs) =
      let rest = upsert name update new xs in
      if str_eq (name_of x) name then update x ∷ xs else x ∷ rest

  abbrev pub entry_of : String → List A → Option A
  entry_of n xs = find (λ x. str_eq (name_of x) n) xs

  pub All-entry_of :
      (P : A → Type 0) (n : String) (xs : List A) {x : A} → All P xs → entry_of n xs ≡ some x → P x
  All-entry_of P n [] ps h = cc
  All-entry_of P n (y ∷ ys) {x} ps h = elim (Bool-cases (str_eq (name_of y) n)) [
    | inl e ↦
        let same : some y ≡ some x = sym (ap (λ b. if b then some y else entry_of n ys) e) ∙ h in
        subst P (cc) ps.0
    | inr e ↦ All-entry_of P n ys ps.1 (sym (ap (λ b. if b then some y else entry_of n ys) e) ∙ h)
  ]

  -- Every entry but the named one stays.
  pub entry_of-upsert :
      (name n : String) (update : A → A) (new : A) (xs : List A)
      → ((x : A) → name_of (update x) ≡ name_of x)
      → name_of new ≡ name
      → entry_of n (upsert name update new xs)
        ≡ (if str_eq name n then some (updated update new (entry_of name xs)) else entry_of n xs)
  unfolding upsert
  entry_of-upsert name n update new [] h k = ap (λ m. if str_eq m n then some new else none) k
  entry_of-upsert name n update new (x ∷ xs) h k = elim (Bool-cases (str_eq (name_of x) name)) [
    | inl e ↦
        let same = (eq_iff (name_of x) name).0 e in
        rw e (
          ap (λ m. if str_eq m n then some (update x) else entry_of n xs) (h x ∙ same)
          ∙ nested (str_eq (name_of x) n) (str_eq name n) (some (update x)) (entry_of n xs) (some x)
              (ap (λ m. str_eq m n) same))
    | inr e ↦ rw e (
        swapped (str_eq (name_of x) n) (str_eq name n) (some x)
          (some (updated update new (entry_of name xs))) (entry_of n xs)
          (entry_of n (upsert name update new xs)) (not_both (name_of x) name n e)
          (entry_of-upsert name n update new xs h k))
  ]

  -- An update in place, or a push, keeps what holds of every row.
  pub All-upsert :
      (P : A → Type 0) (name : String) (update : A → A) (new : A) (xs : List A)
      → ((x : A) → P x → P (update x))
      → P new
      → All P xs
      → All P (upsert name update new xs)
  unfolding upsert
  All-upsert P name update new [] keep p ps = (p, tt)
  All-upsert P name update new (x ∷ xs) keep p ps = elim (Bool-cases (str_eq (name_of x) name)) [
    | inl e ↦ rw e (keep x ps.0, ps.1)
    | inr e ↦ rw e (ps.0, All-upsert P name update new xs keep p ps.1)
  ]

  -- And the names: a push comes only where the name was not there.
  count-upsert :
      (n name : String) (update : A → A) (new : A) (xs : List A)
      → ((x : A) → name_of (update x) ≡ name_of x)
      → name_of new ≡ name
      → (count (λ x. str_eq (name_of x) n) (upsert name update new xs)
          ≡ count (λ x. str_eq (name_of x) n) xs)
        ⊎ ((count (λ x. str_eq (name_of x) name) xs ≡ 0)
            × (count (λ x. str_eq (name_of x) n) (upsert name update new xs)
                ≡ count (λ x. str_eq (name_of x) n) xs + (if str_eq name n then 1 else 0)))
  unfolding upsert
  count-upsert n name update new [] same is_new =
      inr (refl, ap (λ m. (if str_eq m n then 1 else 0) + 0) is_new ∙ omega arith)
  count-upsert n name update new (x ∷ xs) same is_new =
      elim (Bool-cases (str_eq (name_of x) name)) [
        | inl e ↦ inl (
            rw e (
              ap (λ m. (if str_eq m n then 1 else 0) + count (λ x. str_eq (name_of x) n) xs)
                (same x)))
        | inr e ↦ elim (count-upsert n name update new xs same is_new) [
          | inl kept ↦ inl (rw e (ap (λ k. (if str_eq (name_of x) n then 1 else 0) + k) kept))
          | inr (absent, more) ↦ inr (rw e (omega (arith, absent)), rw e (omega (arith, more)))
        ]
      ]

  pub Distinct-upsert :
      (name : String) (update : A → A) (new : A) (xs : List A)
      → ((x : A) → name_of (update x) ≡ name_of x)
      → name_of new ≡ name
      → Distinct name_of xs
      → Distinct name_of (upsert name update new xs)
  Distinct-upsert name update new xs same is_new h n =
      elim (count-upsert n name update new xs same is_new) [
        | inl kept ↦ rw kept (h n)
        | inr (absent, more) ↦
            let at_name = λ (p : name ≡ n). ap (λ m. count (λ x. str_eq (name_of x) m) xs) p in
            ground (arith, more, absent, h n, eq_iff name n, at_name)
      ]

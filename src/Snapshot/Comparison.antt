-- ===== src/Snapshot/Comparison.antt =====
-- When two region lists, or two policies, count as the same.
use egress_apikey.Prelude.{
  ◌≡◌, ◌≢◌, ◌↔◌, refl, sym, ap, ◌∙◌, true, false, ◌||◌, String, Option, none, some, List, [], ◌∷◌,
  map, any, str_eq, arith, Bool-cases, inl, inr, eq_iff, eq_refl, if_elim, str_eq_ne, length, suc,
}
use mathlib.Core.Bool.{false≢true}
use mathlib.Core.Path.{ap₂, subst}
use egress_apikey.Prelude.Texts.{Text, codes, text_eq_iff}
use egress_apikey.Prelude.Sorting.{
  dedup, normalized, any-normalized, normalized-IsAscending, IsAscending, str_ltb, lex_ltb,
}
use egress_apikey.Strategy
use egress_apikey.Strategy.{
  StrategyId, balanced, prefer_low_latency, prefer_idle_ip, parse, converge,
}
use egress_apikey.Strategy.Parsing.{parse-as_str}
use egress_apikey.Snapshot.Merges.{
  same_region_set, same_list, same_allocation_policy, canonical_policy, policy_text,
}

lex_irrefl : (a : Text) → lex_ltb a a ≡ false
unfolding lex_ltb
lex_irrefl [] = refl
lex_irrefl (x ∷ xs) = ground (arith, lex_irrefl xs)

lex_trans : (a b c : Text) → lex_ltb a b ≡ true → lex_ltb b c ≡ true → lex_ltb a c ≡ true
unfolding lex_ltb
lex_trans [] [] c h k = cc
lex_trans [] (y ∷ ys) [] h k = cc
lex_trans [] (y ∷ ys) (z ∷ zs) h k = refl
lex_trans (x ∷ xs) [] c h k = cc
lex_trans (x ∷ xs) (y ∷ ys) [] h k = cc
lex_trans (x ∷ xs) (y ∷ ys) (z ∷ zs) h k = ground (arith, lex_trans xs ys zs)

-- What is in an ascending list is above its head, or the head.
above_head :
    (x : String) (xs : List String) (r : String)
    → IsAscending (x ∷ xs)
    → any (str_eq r) xs ≡ true
    → str_ltb x r ≡ true
above_head x [] r h k = cc
above_head x (y ∷ ys) r (below, rest) k = elim (Bool-cases (str_eq r y)) [
  | inl e ↦ ap (str_ltb x) ((eq_iff r y).0 e) ∙ below
  | inr e ↦
      lex_trans (codes x) (codes y) (codes r) below
        (above_head y ys r rest (sym (ap (λ b. b || any (str_eq r) ys) e) ∙ k))
]

not_below : (x : String) (xs : List String) → IsAscending (x ∷ xs) → any (str_eq x) xs ≡ false
not_below x xs h = elim (Bool-cases (any (str_eq x) xs)) [
  | inl e ↦ absurd (false≢true (sym (lex_irrefl (codes x)) ∙ above_head x xs x h e))
  | inr e ↦ e
]

abbrev SameMembers : List String → List String → Type 0
SameMembers a b = (r : String) → any (str_eq r) a ≡ any (str_eq r) b

tails :
    (x : String) (xs ys : List String)
    → IsAscending (x ∷ xs)
    → IsAscending (x ∷ ys)
    → SameMembers (x ∷ xs) (x ∷ ys)
    → SameMembers xs ys
tails x xs ys h k same r = elim (Bool-cases (str_eq r x)) [
  | inl e ↦
      let r≡x = (eq_iff r x).0 e in
      subst (λ z. any (str_eq z) xs ≡ any (str_eq z) ys) (sym r≡x)
        (not_below x xs h ∙ sym (not_below x ys k))
  | inr e ↦
      let skip = λ (l : List String). ap (λ b. b || any (str_eq r) l) e in
      sym (skip xs) ∙ same r ∙ skip ys
]

-- A head that the other list has, but not as its head, is above that head.
other_head :
    (x y : String) (ys : List String)
    → IsAscending (y ∷ ys)
    → str_eq x y ≡ false
    → any (str_eq x) (y ∷ ys) ≡ true
    → str_ltb y x ≡ true
other_head x y ys h differ k =
    above_head y ys x h (sym (ap (λ b. b || any (str_eq x) ys) differ) ∙ k)

heads :
    (x y : String) (xs ys : List String)
    → IsAscending (x ∷ xs)
    → IsAscending (y ∷ ys)
    → SameMembers (x ∷ xs) (y ∷ ys)
    → x ≡ y
heads x y xs ys h k same = elim (Bool-cases (str_eq x y)) [
  | inl e ↦ (eq_iff x y).0 e
  | inr e ↦
      let first = λ (z : String) (l : List String). ap (λ b. b || any (str_eq z) l) (eq_refl z) in
      let y<x = other_head x y ys k e (sym (same x) ∙ first x xs) in
      let e' = str_eq_ne y x (λ p. false≢true (sym e ∙ (eq_iff x y).1 (sym p))) in
      let x<y = other_head y x xs h e' (same y ∙ first y ys) in
      absurd
        (false≢true (sym (lex_irrefl (codes x)) ∙ lex_trans (codes x) (codes y) (codes x) x<y y<x))
]

-- An ascending list is determined by its members.
ascending_unique :
    (xs ys : List String) → IsAscending xs → IsAscending ys → SameMembers xs ys → xs ≡ ys
ascending_unique [] [] h k same = refl
ascending_unique [] (y ∷ ys) h k same =
    absurd (false≢true (same y ∙ ap (λ b. b || any (str_eq y) ys) (eq_refl y)))
ascending_unique (x ∷ xs) [] h k same =
    absurd (false≢true (sym (same x) ∙ ap (λ b. b || any (str_eq x) xs) (eq_refl x)))
ascending_unique (x ∷ xs) (y ∷ ys) h k same =
    let x≡y = heads x y xs ys h k same in
    let k' = subst (λ z. IsAscending (z ∷ ys)) (sym x≡y) k in
    let same' = subst (λ z. SameMembers (x ∷ xs) (z ∷ ys)) (sym x≡y) same in
    ap₂ (λ z l. z ∷ l) x≡y (ascending_unique xs ys h.1 k'.1 (tails x xs ys h k' same'))

same_list_refl : (xs : List String) → same_list xs xs ≡ true
unfolding same_list
same_list_refl [] = refl
same_list_refl (x ∷ xs) = rw (eq_refl x) (same_list_refl xs)

-- Region lists with the same members count as the same, whatever their order and their duplicates.
pub same_region_set-members :
    (to_lowercase : String → String) (a b : List String)
    → ((r : String) → any (str_eq r) a ≡ any (str_eq r) b)
    → same_region_set to_lowercase a b ≡ true
unfolding same_region_set
same_region_set-members to_lowercase a b same =
    let equal =
      ascending_unique (normalized a) (normalized b) (normalized-IsAscending a)
        (normalized-IsAscending b)
        (λ r. any-normalized (str_eq r) a ∙ same r ∙ sym (any-normalized (str_eq r) b)) in
    ap (λ l. same_list (map to_lowercase (normalized a)) (map to_lowercase l)) (sym equal)
    ∙ same_list_refl (map to_lowercase (normalized a))

same_list-length : (xs ys : List String) → length xs ≢ length ys → same_list xs ys ≡ false
unfolding same_list
same_list-length [] [] h = absurd (h refl)
same_list-length [] (y ∷ ys) h = refl
same_list-length (x ∷ xs) [] h = refl
same_list-length (x ∷ xs) (y ∷ ys) h = ground (arith, same_list-length xs ys)

length-map : (f : String → String) (xs : List String) → length (map f xs) ≡ length xs
length-map f [] = refl
length-map f (x ∷ xs) = ap suc (length-map f xs)

length-pair : (a b : String) → a ≢ b → length (normalized (a ∷ b ∷ [])) ≡ 2
unfolding normalized dedup
length-pair a b h =
    if_elim (λ (l : List String). length (dedup l) ≡ 2) (str_ltb b a)
      (λ _. rw (str_eq_ne b a (λ e. h (sym e))) refl) (λ _. rw (str_eq_ne a b h) refl)

-- Two spellings of one region code on one side and one of them on the other count as different,
-- although every code on either side is the same up to case.
pub same_region_set-spellings :
    (to_lowercase : String → String) (a b : String)
    → a ≢ b
    → to_lowercase a ≡ to_lowercase b
    → same_region_set to_lowercase (a ∷ b ∷ []) (a ∷ []) ≡ false
unfolding same_region_set
same_region_set-spellings to_lowercase a b h same =
    let two = length-map to_lowercase (normalized (a ∷ b ∷ [])) ∙ length-pair a b h in
    let one = length-map to_lowercase (normalized (a ∷ [])) in
    same_list-length (map to_lowercase (normalized (a ∷ b ∷ [])))
      (map to_lowercase (normalized (a ∷ []))) (λ e. omega (arith, e, two))

as_str-injective :
    (a b : StrategyId) → codes (Strategy.as_str a) ≡ codes (Strategy.as_str b) → a ≡ b
as_str-injective balanced balanced e = refl
as_str-injective balanced prefer_low_latency e = cc
as_str-injective balanced prefer_idle_ip e = cc
as_str-injective prefer_low_latency balanced e = cc
as_str-injective prefer_low_latency prefer_low_latency e = refl
as_str-injective prefer_low_latency prefer_idle_ip e = cc
as_str-injective prefer_idle_ip balanced e = cc
as_str-injective prefer_idle_ip prefer_low_latency e = cc
as_str-injective prefer_idle_ip prefer_idle_ip e = refl

canonical-as_str :
    (id : StrategyId) → canonical_policy (Strategy.as_str id) ≡ codes (Strategy.as_str id)
unfolding canonical_policy
canonical-as_str id = ap (λ o. policy_text o (Strategy.as_str id)) (parse-as_str id).0

converge-as_str : (id : StrategyId) → converge (codes (Strategy.as_str id)) ≡ some id
unfolding converge
converge-as_str balanced = refl
converge-as_str prefer_low_latency = refl
converge-as_str prefer_idle_ip = refl

reads :
    (id : StrategyId) (v : String) (o : Option StrategyId)
    → parse v ≡ o
    → codes (Strategy.as_str id) ≡ policy_text o v
    → parse v ≡ some id
unfolding parse
reads id v (some other) h e = h ∙ ap some (sym (as_str-injective id other e))
reads id v none h e = ap converge (sym e) ∙ converge-as_str id

-- A platform that asks for a strategy agrees with Resin's policy exactly when that policy reads as
-- the strategy.
pub same_allocation_policy-reads :
    (id : StrategyId) (resin : String)
    → (same_allocation_policy (Strategy.as_str id) resin ≡ true) ↔ (parse resin ≡ some id)
unfolding same_allocation_policy canonical_policy
same_allocation_policy-reads id resin =
    let wish = canonical-as_str id in
    (
      λ h. reads id resin (parse resin) refl (sym wish ∙ (text_eq_iff _ _).0 h),
      λ h. (text_eq_iff _ _).1 (wish ∙ sym (ap (λ o. policy_text o resin) h)),
    )

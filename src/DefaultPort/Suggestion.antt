-- ===== src/DefaultPort/Suggestion.antt =====
-- Which port is suggested.
use egress_apikey.Prelude.{
  ℕ, zero, suc, ◌+◌, ◌≤◌, ◌<◌, ◌≡◌, refl, sym, ap, ◌∙◌, Bool, true, false, not, ◌||◌, Option, none,
  some, List, any, ◌==◌, arith, inl, inr, ◌⊎◌,
}
use mathlib.Core.Option.{some-injective}
use egress_apikey.Prelude.Results.{Result, ok}
use egress_apikey.DefaultPort.{first_free, or_ephemeral, suggest_free_entry_port}

or-false : (a b : Bool) → (a || not b) ≡ false → (a ≡ false) × (b ≡ true)
or-false a b h = ground arith

first_free_sound :
    (used : List ℕ) (binds : ℕ → Bool) (left candidate : ℕ) {p : ℕ}
    → first_free used binds left candidate ≡ some p
    → (candidate ≤ p) × (p < candidate + left) × (any (λ q. q == p) used ≡ false) × (binds p ≡ true)
unfolding first_free
first_free_sound used binds zero candidate h = cc
first_free_sound used binds (suc left) candidate {p} h =
    by_test (any (λ q. q == candidate) used || not (binds candidate)) refl
      (λ k. first_free_sound used binds left (candidate + 1) {p = p} k) h
  where
    by_test :
        (b : Bool)
        → (any (λ q. q == candidate) used || not (binds candidate)) ≡ b
        → (first_free used binds left (candidate + 1) ≡ some p
            → (candidate + 1 ≤ p)
              × (p < candidate + 1 + left)
              × (any (λ q. q == p) used ≡ false)
              × (binds p ≡ true))
        → (elim b [ true ↦ first_free used binds left (candidate + 1) | false ↦ some candidate ])
          ≡ some p
        → (candidate ≤ p)
          × (p < candidate + suc left)
          × (any (λ q. q == p) used ≡ false)
          × (binds p ≡ true)
    by_test true e next k =
        let (low, high, unused, bound) = next k in (omega arith, omega arith, unused, bound)
    by_test false e next k =
        let same = some-injective _ _ k in
        let (unused, bound) = or-false _ _ e in
        (
          omega (arith, same),
          omega (arith, same),
          sym (ap (λ m. any (λ q. q == m) used) same) ∙ unused,
          sym (ap binds same) ∙ bound,
        )

ok-injective : (p q : ℕ) → ok p ≡ ok q → p ≡ q
ok-injective p q h = cc

-- A suggested port is a number from 17990 to 65535 that no row uses and that can be bound, or it is
-- the one that the system assigned.
pub suggest_free_entry_port_sound :
    (used : List ℕ) (binds : ℕ → Bool) (ephemeral : Result ℕ) {p : ℕ}
    → suggest_free_entry_port (ok used) binds ephemeral ≡ ok p
    → ((17990 ≤ p) × (p ≤ 65535) × (any (λ q. q == p) used ≡ false) × (binds p ≡ true))
      ⊎ (ephemeral ≡ ok p)
unfolding suggest_free_entry_port
suggest_free_entry_port_sound used binds ephemeral {p} h =
    go (first_free used binds 47546 17990) refl h
  where
    go :
        (o : Option ℕ)
        → first_free used binds 47546 17990 ≡ o
        → or_ephemeral o ephemeral ≡ ok p
        → ((17990 ≤ p) × (p ≤ 65535) × (any (λ q. q == p) used ≡ false) × (binds p ≡ true))
          ⊎ (ephemeral ≡ ok p)
    go none e k = inr k
    go (some q) e k =
        let found = first_free_sound used binds 47546 17990 (e ∙ ap some (ok-injective q p k)) in
        inl (omega (arith, found.0), omega (arith, found.1), found.2, found.3)

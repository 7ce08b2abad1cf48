-- ===== src/Snapshot/Memory.antt =====
-- The drift memory of one entity.
use egress_apikey.Prelude.{
  ℕ, ◌≡◌, refl, sym, ap, ◌∙◌, Bool, true, false, String, Option, none, some, unwrap_or, List, [],
  ◌∷◌, str_eq, if◌then◌else◌, Bool-cases, inl, inr, eq_iff,
}
use egress_apikey.Prelude.Maps.{get, get-insert, get-remove}
use egress_apikey.Snapshot.{
  DriftMemory, or_insert, observe, advance_drift_memory, divergent_since_for,
}

-- What one observation makes of an instant: a drifting entity keeps its first, or starts now.
abbrev pub since : ℕ → Bool → Option ℕ → Option ℕ
since now true before = some (unwrap_or before now)
since now false before = none

-- The history of one key alone.
abbrev pub since_all : String → ℕ → List (String × Bool) → Option ℕ → Option ℕ
since_all k now [] before = before
since_all k now ((key, drifting) ∷ entries) before =
    since_all k now entries (if str_eq key k then since now drifting before else before)

or_insert-get :
    (k key : String) (now : ℕ) (memory : DriftMemory) (o : Option ℕ)
    → get key memory ≡ o
    → get k (or_insert key now o memory)
      ≡ (if str_eq key k then since now true (get k memory) else get k memory)
or_insert-get k key now memory none h = elim (Bool-cases (str_eq key k)) [
  | inl e ↦
      let same = ap (λ j. get j memory) ((eq_iff key k).0 e) in
      get-insert key k now memory ∙ rw e (rw (sym same ∙ h) refl)
  | inr e ↦ get-insert key k now memory ∙ rw e refl
]
or_insert-get k key now memory (some before) h = elim (Bool-cases (str_eq key k)) [
  | inl e ↦ let same = sym (ap (λ j. get j memory) ((eq_iff key k).0 e)) ∙ h in rw e (rw same refl)
  | inr e ↦ rw e refl
]

get-observe :
    (k : String) (now : ℕ) (key : String) (drifting : Bool) (memory : DriftMemory)
    → get k (observe now (key, drifting) memory)
      ≡ (if str_eq key k then since now drifting (get k memory) else get k memory)
unfolding observe
get-observe k now key true memory = or_insert-get k key now memory (get key memory) refl
get-observe k now key false memory = get-remove key k memory

-- The instant of an entity follows its own observations only: drifting keeps the first instant of
-- the spell or starts it now, and agreeing clears it.
pub divergent_since_for-advance :
    (k : String) (memory : DriftMemory) (entries : List (String × Bool)) (now : ℕ)
    → divergent_since_for (advance_drift_memory memory entries now) k
      ≡ since_all k now entries (divergent_since_for memory k)
unfolding divergent_since_for advance_drift_memory
divergent_since_for-advance k memory [] now = refl
divergent_since_for-advance k memory ((key, drifting) ∷ entries) now =
    divergent_since_for-advance k (observe now (key, drifting) memory) entries now
    ∙ ap (since_all k now entries) (get-observe k now key drifting memory)

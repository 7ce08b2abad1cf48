-- ===== src/Snapshot/Phases.antt =====
-- The convergence phase, and the terminal criterion of subscription_pipeline.rs that reads it.
use egress_apikey.Prelude.{
  ℕ, ◌≡◌, ◌≤◌, refl, Bool, true, false, ◌&&◌, ◌||◌, not, String, Option, List, if◌then◌else◌, arith,
  ◌==◌, ltb, ltb→le, is_some,
}
use egress_apikey.Snapshot.{
  ConvergePhase, never_applied, pending_apply, apply_failed, converged, drifted, unknown,
  derive_converge_phase, is_empty,
}

abbrev pub is_converged : ConvergePhase → Bool
is_converged converged = true
is_converged _ = false

abbrev pub is_drifted : ConvergePhase → Bool
is_drifted drifted = true
is_drifted _ = false

unfoldable pub is_terminal_state : List String → Bool → ConvergePhase → Bool → Bool
is_terminal_state consumed_by platform_missing_on_resin phase drifted_entries_all_acknowledged =
    if is_empty consumed_by || platform_missing_on_resin
    then false
    else is_converged phase || (is_drifted phase && drifted_entries_all_acknowledged)

-- The phase by the outcome of its tests.
abbrev phase_of : Bool → Bool → Bool → Bool → Bool → ConvergePhase
phase_of unwritten reachable behind erred drift =
    if unwritten
    then never_applied
    else if not reachable
    then unknown
    else if behind
    then (if erred then apply_failed else pending_apply)
    else if drift
    then drifted
    else converged

-- The phases that the criterion accepts.
accepted :
    (unwritten reachable behind erred drift acked : Bool)
    → (is_converged (phase_of unwritten reachable behind erred drift)
        || (is_drifted (phase_of unwritten reachable behind erred drift) && acked))
      ≡ true
    → (unwritten ≡ false) × (reachable ≡ true) × (behind ≡ false) × ((drift && not acked) ≡ false)
accepted true reachable behind erred drift acked h = cc
accepted false false behind erred drift acked h = cc
accepted false true true true drift acked h = cc
accepted false true true false drift acked h = cc
accepted false true false erred true true h = (refl, refl, refl, refl)
accepted false true false erred true false h = cc
accepted false true false erred false acked h = (refl, refl, refl, refl)

guarded :
    (a b c : Bool) → (if a || b then false else c) ≡ true → (a ≡ false) × (b ≡ false) × (c ≡ true)
guarded a b c h = ground arith

-- A terminal subscription is consumed, its platform is on Resin, and the document was written and
-- its last generation applied, with Resin in reach and no drift but acknowledged one.
pub is_terminal_state-applied :
    (consumed_by : List String) (missing : Bool) (generation applied : ℕ) (error : Option String)
    (reachable drift acked : Bool)
    → is_terminal_state consumed_by missing
        (derive_converge_phase generation applied error reachable drift)
        acked
      ≡ true
    → (is_empty consumed_by ≡ false)
      × (missing ≡ false)
      × (1 ≤ generation)
      × (generation ≤ applied)
      × (reachable ≡ true)
      × ((drift && not acked) ≡ false)
unfolding is_terminal_state derive_converge_phase
is_terminal_state-applied consumed_by missing generation applied error reachable drift acked h =
    let (consumed, present, phase) = guarded (is_empty consumed_by) missing _ h in
    let (written, reached, behind, known) =
      accepted (generation == 0) reachable (ltb applied generation) (is_some error) drift acked
        phase in
    (consumed, present, ground arith, ltb→le applied generation behind, reached, known)

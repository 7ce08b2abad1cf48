-- ===== src/StrategyService.antt =====
-- crates/resin-core/src/strategy_service.rs: the bounds of texts, and the two status writes of the
-- establish cascade. The child modules have the validator, the edits, `apply` and the reconcile pass.
pub mod Rows
pub mod Validation
pub mod Bounds
pub mod Accepted
pub mod Writes
pub mod Edits
pub mod Entries
pub mod Reach
pub mod Drift
pub mod Apply
pub mod InSync
pub mod Idle
pub mod Green
pub mod Reconcile
pub mod Preview
mod Tests
mod DocumentTests
mod ApplyTests
use egress_apikey.Prelude.{
  ℕ, suc, ◌≡◌, Bool, true, false, ◌&&◌, ◌||◌, not, String, Option, none, some, is_some, List, [],
  ◌∷◌, any, length, ltb, ◌==◌, str_eq, if◌then◌else◌,
}
use egress_apikey.Prelude.Texts.{Bytes, bytes, concat, decimal_text}
use egress_apikey.Prelude.Results.{Result, ok, err}
use egress_apikey.Prelude.Upserts.{upsert}
use egress_apikey.StrategyEngine
use egress_apikey.StrategyEngine.{
  SubscriptionPhase, EstablishStep, CascadeError, SubscriptionStatus, StrategyConfig, import_step,
  resolve,
}

abbrev pub max_platform_name_len : ℕ
max_platform_name_len = 128

abbrev pub max_subscription_status_rows : ℕ
max_subscription_status_rows = 512

abbrev pub max_phase_error_len : ℕ
max_phase_error_len = 1024

abbrev pub max_rollback_actions : ℕ
max_rollback_actions = 8

abbrev pub max_rollback_action_len : ℕ
max_rollback_action_len = 256

-- `s.len()`: bytes.
unfoldable pub len : String → ℕ
unfolding bytes
len s = length (bytes s)

unfoldable pub has_control : String → Bool
unfolding bytes
has_control s = any (λ b. (b == 0) || ltb b 0x20 || (b == 0x7f)) (bytes s)

unfoldable pub has_nul : String → Bool
unfolding bytes
has_nul s = any (λ b. b == 0) (bytes s)

-- The first refusal of a row of tests.
abbrev pub or_refuse : Bool → String → Option String → Option String
or_refuse bad message next = if bad then some message else next

abbrev pub also : Option String → Option String → Option String
also (some message) next = some message
also none next = next

unfoldable pub name_refusal : String → Option String
unfolding len has_control
name_refusal name =
    or_refuse ((len name == 0) || ltb max_platform_name_len (len name))
      "subscription name must be 1..128 chars"
      (or_refuse (has_control name) "subscription name contains control characters" none)

unfoldable pub error_refusal : Option String → Option String
unfolding len has_nul
error_refusal none = none
error_refusal (some e) =
    or_refuse (ltb max_phase_error_len (len e)) "phase_error too long (max 1024 chars)"
      (or_refuse (has_nul e) "phase_error contains NUL" none)

-- `{phase:?}`
abbrev pub debug : SubscriptionPhase → String
debug StrategyEngine.never = "Never"
debug StrategyEngine.importing = "Importing"
debug StrategyEngine.establishing = "Establishing"
debug StrategyEngine.converged = "Converged"
debug StrategyEngine.failed = "Failed"
debug StrategyEngine.needs_approval = "NeedsApproval"

abbrev pub never_carry : SubscriptionPhase → String → Option String
never_carry phase what = some (concat (debug phase ∷ " rows never carry a " ∷ what ∷ []))

-- The shape lock on phase and stage.
unfoldable pub stage_refusal : SubscriptionPhase → Option EstablishStep → Option String
unfolding concat
stage_refusal StrategyEngine.establishing (some import_step) =
    never_carry StrategyEngine.establishing "stage"
stage_refusal StrategyEngine.establishing (some resolve) =
    never_carry StrategyEngine.establishing "stage"
stage_refusal StrategyEngine.establishing (some _) = none
stage_refusal StrategyEngine.failed (some _) = none
stage_refusal StrategyEngine.establishing none = some "Establishing/Failed require a stage"
stage_refusal StrategyEngine.failed none = some "Establishing/Failed require a stage"
stage_refusal phase (some _) = never_carry phase "stage"
stage_refusal phase none = none

unfoldable pub reason_refusal : SubscriptionPhase → Option String → Option String
unfolding concat
reason_refusal StrategyEngine.failed none = some "Failed requires a phase_error reason"
reason_refusal StrategyEngine.failed (some _) = none
reason_refusal phase (some _) = never_carry phase "phase_error"
reason_refusal phase none = none

unfoldable pub phase_refusal :
    String → SubscriptionPhase → Option EstablishStep → Option String → Option String
unfolding name_refusal error_refusal stage_refusal reason_refusal
phase_refusal name phase stage phase_error = also (name_refusal name) (
    also (error_refusal phase_error)
      (also (stage_refusal phase stage) (reason_refusal phase phase_error)))

abbrev pub at_action : ℕ → String → String
at_action j what = concat ("rollback_actions[" ∷ decimal_text j ∷ "] " ∷ what ∷ [])

-- The actions from index `j` on.
unfoldable pub actions_refusal : ℕ → List String → Option String
unfolding len has_nul concat decimal_text
actions_refusal j [] = none
actions_refusal j (a ∷ actions) =
    or_refuse ((len a == 0) || ltb max_rollback_action_len (len a))
      (at_action j "must be 1..256 chars")
      (or_refuse (has_nul a) (at_action j "contains NUL") (actions_refusal (suc j) actions))

unfoldable pub failure_refusal : String → String → List String → Option String
unfolding name_refusal len has_nul actions_refusal
failure_refusal name reason rollback_actions = also (name_refusal name) (
    or_refuse ((len reason == 0) || ltb max_phase_error_len (len reason))
      "reason must be 1..1024 chars"
      (or_refuse (has_nul reason) "reason contains NUL" (
        or_refuse (ltb max_rollback_actions (length rollback_actions))
          "rollback_actions too long (max 8)" (actions_refusal 0 rollback_actions))))

abbrev pub Row : Type 0
Row = SubscriptionStatus

abbrev pub row_name : Row → String
row_name row = row.name

abbrev pub is_converged : SubscriptionPhase → Bool
is_converged StrategyEngine.converged = true
is_converged _ = false

abbrev pub phase_update : SubscriptionPhase → Option EstablishStep → Option String → Row → Row
phase_update phase stage phase_error row = record row {
  phase = phase;
  stage = stage;
  phase_error = phase_error;
  last_cascade_error = if is_converged phase then none else row.last_cascade_error;
}

abbrev pub phase_row : String → SubscriptionPhase → Option EstablishStep → Option String → Row
phase_row name phase stage phase_error = record {
  name = name;
  phase = phase;
  stage = stage;
  phase_error = phase_error;
  last_cascade_error = none;
}

abbrev pub failure_update : CascadeError → Row → Row
failure_update e row = record row {
  phase = StrategyEngine.failed;
  stage = some e.stage;
  phase_error = some e.reason;
  last_cascade_error = some e;
}

abbrev pub failure_row : String → CascadeError → Row
failure_row name e = record {
  name = name;
  phase = StrategyEngine.failed;
  stage = some e.stage;
  phase_error = some e.reason;
  last_cascade_error = some e;
}

-- The document as it is read, and what the store answers to a document.
module _ {Section : Type 0} (load : Result (StrategyConfig Section))
    (save : StrategyConfig Section → Result Unit) where
  abbrev pub saved : StrategyConfig Section → Result Unit → Result (StrategyConfig Section)
  saved config (ok _) = ok config
  saved config (err e) = err e

  abbrev pub land : StrategyConfig Section → Result (StrategyConfig Section)
  land config =
      if ltb max_subscription_status_rows (length config.subscriptions)
      then err "subscriptions status array too long (max 512)"
      else saved config (save config)

  abbrev pub write_rows :
      Option String
      → (List Row → List Row)
      → Result (StrategyConfig Section)
      → Result (StrategyConfig Section)
  write_rows (some message) f config = err message
  write_rows none f (err e) = err e
  write_rows none f (ok config) = land (record config { subscriptions = f config.subscriptions })

  unfoldable pub record_subscription_phase :
      String
      → SubscriptionPhase
      → Option EstablishStep
      → Option String
      → Result (StrategyConfig Section)
  unfolding phase_refusal upsert
  record_subscription_phase name phase stage phase_error =
      write_rows (phase_refusal name phase stage phase_error)
        (upsert row_name name (phase_update phase stage phase_error)
          (phase_row name phase stage phase_error))
        load

  abbrev pub cascade_error : EstablishStep → String → List String → CascadeError
  cascade_error stage reason rollback_actions = record {
    stage = stage;
    reason = reason;
    rollback_actions = rollback_actions;
  }

  unfoldable pub record_cascade_failure :
      String → EstablishStep → String → List String → Result (StrategyConfig Section)
  unfolding failure_refusal upsert
  record_cascade_failure name stage reason rollback_actions =
      write_rows (failure_refusal name reason rollback_actions)
        (upsert row_name name (failure_update (cascade_error stage reason rollback_actions))
          (failure_row name (cascade_error stage reason rollback_actions)))
        load

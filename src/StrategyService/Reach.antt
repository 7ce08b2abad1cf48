-- ===== src/StrategyService/Reach.antt =====
-- The strategy document over the life of the service: its writes, in any order.
use egress_apikey.Prelude.{ℕ, ◌≡◌, sym, String, Option, none, some, List}
use mathlib.Core.Path.{subst}
use egress_apikey.Prelude.Results.{Result, ok}
use egress_apikey.StrategyEngine.{SubscriptionPhase, EstablishStep}
use egress_apikey.StrategyService.{record_subscription_phase, record_cascade_failure}
use egress_apikey.StrategyService.Validation.{validate}
use egress_apikey.StrategyService.Bounds.{IsValid}
use egress_apikey.StrategyService.Accepted.{validate-IsValid}
use egress_apikey.StrategyService.Writes.{
  IsGiven, record_subscription_phase-IsValid, record_cascade_failure-IsValid,
}
use egress_apikey.StrategyService.Edits.{
  PlatformEdit, Config, store, set_platform, rollback, with_section, orchestration_mutate,
}
use egress_apikey.Orchestration.Floats.{Float}
use egress_apikey.Orchestration.Evaluate.{OrchestrationSection}
use egress_apikey.StrategyService.Entries.{checked-ok, with_read-ok, store-ok, set_platform-entry}

module _ (F : Float) where
  abbrev pub Save : Type 0
  Save = Config F → Result Unit

  -- One write that succeeds, by any caller and at any time, on a file that holds `before`; a write of
  -- a phase is given no empty error. The document that `put` and `rollback` are given is any.
  pub data Write (before : Config F) : Config F → Type 0 where
    put :
        (save : Save) (now : ℕ) (config : Config F) {after : Config F}
        → store F (ok (some before)) save now config ≡ ok after
        → Write before after
    edit :
        (save : Save) (now : ℕ) (name : String) (change : PlatformEdit) {after : Config F}
        → set_platform F (ok (some before)) save now name change ≡ ok after
        → Write before after
    restore :
        (save : Save) (now : ℕ) (parsed : Result (Config F)) {after : Config F}
        → rollback F (ok (some before)) save now parsed ≡ ok after
        → Write before after
    mutate :
        (save : Save) (now : ℕ) (f : OrchestrationSection F.Num → OrchestrationSection F.Num)
        {after : Config F}
        → orchestration_mutate F (ok (some before)) save now f ≡ ok after
        → Write before after
    phase_row :
        (save : Save) (name : String) (phase : SubscriptionPhase) (stage : Option EstablishStep)
        (phase_error : Option String) {after : Config F}
        → IsGiven phase_error
        → record_subscription_phase (ok before) save name phase stage phase_error ≡ ok after
        → Write before after
    failure_row :
        (save : Save) (name : String) (stage : EstablishStep) (reason : String)
        (rollback_actions : List String) {after : Config F}
        → record_cascade_failure (ok before) save name stage reason rollback_actions ≡ ok after
        → Write before after

  Write-IsValid :
      {before after : Config F} → Write before after → IsValid F before → IsValid F after
  unfolding rollback orchestration_mutate
  Write-IsValid {before} (put save now config h) v =
      (store-ok F (ok (some before)) save now config h).2
  Write-IsValid {before} (edit save now name change h) v =
      let (
        old, read, done, entry, version, applied, time, problem, updated, rows, acks, section,
        generation, valid,
      ) =
        set_platform-entry F (ok (some before)) save now name change name h in
      valid
  Write-IsValid {before} (restore save now parsed h) v =
      let (config, same, stored) =
        with_read-ok F (ok (some before)) save now parsed (store F (ok (some before)) save now) h in
      (store-ok F (ok (some before)) save now config stored).2
  Write-IsValid {before} {after} (mutate save now f h) v =
      let (accepted, same, done) =
        checked-ok F (ok (some before)) save now before
          (validate F (with_section F (ok (some before)) save now f before))
          (with_section F (ok (some before)) save now f before) h in
      subst (IsValid F) (sym same) ((validate-IsValid F _).0 accepted)
  Write-IsValid {before} (phase_row save name phase stage phase_error given h) v =
      record_subscription_phase-IsValid F before save name phase stage phase_error h v given
  Write-IsValid {before} (failure_row save name stage reason rollback_actions h) v =
      record_cascade_failure-IsValid F before save name stage reason rollback_actions h v

  -- The documents that a sequence of writes reaches.
  pub data Reach (start : Config F) : Config F → Type 0 where
    here : Reach start start
    next : {c d : Config F} → Reach start c → Write c d → Reach start d

  -- From a document that the validator accepts, whatever writes follow in whatever order, the file
  -- holds a document that the validator accepts, as long as a phase write is given no empty error.
  pub Reach-IsValid :
      {start end : Config F} → validate F start ≡ none → Reach start end → validate F end ≡ none
  Reach-IsValid {start} {end} h here = h
  Reach-IsValid {start} {end} h (next {c} {d} r w) =
      (validate-IsValid F d).1 (Write-IsValid w ((validate-IsValid F c).0 (Reach-IsValid h r)))

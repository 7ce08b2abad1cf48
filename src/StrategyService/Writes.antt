-- ===== src/StrategyService/Writes.antt =====
-- The status writes of strategy_service.rs land their document without the validator: when what
-- they leave is a document that it accepts.
use egress_apikey.Prelude.{
  ℕ, ◌+◌, ◌≤◌, ◌≡◌, ◌≢◌, refl, sym, ap, ◌∙◌, false, String, Option, none, some, List, [], ◌∷◌,
  length, All, ltb, ltb→le, if◌then◌else◌, if_elim, arith, eq_refl,
}
use mathlib.Core.Path.{subst}
use egress_apikey.Prelude.Results.{Result, ok}
use egress_apikey.StrategyEngine.{
  SubscriptionPhase, never, importing, establishing, converged, failed, needs_approval,
  EstablishStep, CascadeError, StrategyConfig,
}
use egress_apikey.StrategyService.{
  Row, row_name, len, has_nul, phase_update, phase_row, failure_update, failure_row, cascade_error,
  is_converged, name_refusal, error_refusal, phase_refusal, actions_refusal, failure_refusal,
  record_subscription_phase, record_cascade_failure,
}
use egress_apikey.StrategyService.Validation.{needs_stage, is_failed, validate}
use egress_apikey.StrategyService.Bounds.{
  Sized, CascadeIsBounded, ErrorIsBounded, StatusIsLocked, Printable, IsValid, or_refuse_iff,
  also_iff, Sized-iff,
}
use egress_apikey.StrategyService.Accepted.{validate-IsValid}
use egress_apikey.StrategyService.Rows.{
  row_of, record_subscription_phase-row, wants_stage, wants_reason, phase_shape, write_rows-ok,
}
use egress_apikey.Orchestration.Floats.{Float}
use egress_apikey.Orchestration.Evaluate.{OrchestrationSection}
use egress_apikey.Prelude.Upserts.{upsert, updated, All-upsert, Distinct-upsert, All-entry_of}

wants_stage-needs_stage : (phase : SubscriptionPhase) → wants_stage phase ≡ needs_stage phase
wants_stage-needs_stage never = refl
wants_stage-needs_stage importing = refl
wants_stage-needs_stage establishing = refl
wants_stage-needs_stage converged = refl
wants_stage-needs_stage failed = refl
wants_stage-needs_stage needs_approval = refl

wants_reason-is_failed : (phase : SubscriptionPhase) → wants_reason phase ≡ is_failed phase
wants_reason-is_failed never = refl
wants_reason-is_failed importing = refl
wants_reason-is_failed establishing = refl
wants_reason-is_failed converged = refl
wants_reason-is_failed failed = refl
wants_reason-is_failed needs_approval = refl

name_bounded : (name : String) → name_refusal name ≡ none → Printable name
unfolding name_refusal
name_bounded name h = ground arith

-- The reason, where there is one, is not empty.
abbrev pub IsGiven : Option String → Type 0
IsGiven none = Unit
IsGiven (some e) = 1 ≤ len e

error_bounded : (e : Option String) → error_refusal e ≡ none → IsGiven e → ErrorIsBounded e
unfolding error_refusal
error_bounded none h given = tt
error_bounded (some e) h given = ground arith

actions_bounded :
    (j : ℕ) (actions : List String)
    → actions_refusal j actions ≡ none
    → All (λ a. Sized 256 a × (has_nul a ≡ false)) actions
unfolding actions_refusal
actions_bounded j [] h = tt
actions_bounded j (a ∷ actions) h = ground (arith, actions_bounded (j + 1) actions)

phase_bounded :
    (name : String) (phase : SubscriptionPhase) (stage : Option EstablishStep)
    (phase_error : Option String) (cascade : Option CascadeError)
    → phase_refusal name phase stage phase_error ≡ none
    → IsGiven phase_error
    → CascadeIsBounded cascade
    → StatusIsLocked (record {
      name = name;
      phase = phase;
      stage = stage;
      phase_error = phase_error;
      last_cascade_error = cascade;
    })
unfolding phase_refusal
phase_bounded name phase stage phase_error cascade h given bounded =
    let (stage_given, error_given) = phase_shape name phase stage phase_error h in
    let (name_ok, rest) = (also_iff (name_refusal name) _).0 h in
    let (error_ok, rest2) = (also_iff (error_refusal phase_error) _).0 rest in
    let (sized, printable) = name_bounded name name_ok in
    record {
      name = sized;
      printable = printable;
      stage = stage_given ∙ wants_stage-needs_stage phase;
      error = error_given ∙ wants_reason-is_failed phase;
      error_text = error_bounded phase_error error_ok given;
      cascade = bounded;
    }

failure_bounded :
    (name : String) (stage : EstablishStep) (reason : String) (rollback_actions : List String)
    → failure_refusal name reason rollback_actions ≡ none
    → Printable name
      × CascadeIsBounded
          (some (record { stage = stage; reason = reason; rollback_actions = rollback_actions }))
unfolding failure_refusal
failure_bounded name stage reason rollback_actions h =
    let (name_ok, h1) = (also_iff (name_refusal name) _).0 h in
    let (sized, h2) = (or_refuse_iff _ _ _).0 h1 in
    let (no_nul, h3) = (or_refuse_iff _ _ _).0 h2 in
    let (few, h4) = (or_refuse_iff (ltb 8 (length rollback_actions)) _ _).0 h3 in
    (
      name_bounded name name_ok,
      (
        (Sized-iff 1024 reason).0 sized,
        no_nul,
        ltb→le 8 (length rollback_actions) few,
        actions_bounded 0 rollback_actions h4,
      ),
    )

relisted :
    (F : Float) (name : String) (update : Row → Row) (new : Row)
    (before read after : StrategyConfig (OrchestrationSection F.Num))
    → ok before ≡ ok read
    → after ≡ record read { subscriptions = upsert row_name name update new read.subscriptions }
    → length after.subscriptions ≤ 512
    → ((row : Row) → (update row).name ≡ row.name)
    → new.name ≡ name
    → ((row : Row) → StatusIsLocked row → StatusIsLocked (update row))
    → StatusIsLocked new
    → IsValid F before
    → IsValid F after
relisted F name update new before read after is_read landed few keeps is_new locks locked valid =
    let change = λ (c : StrategyConfig (OrchestrationSection F.Num)). record c {
      subscriptions = upsert row_name name update new c.subscriptions;
    } in
    let is_before : read ≡ before = cc in
    let same = landed ∙ ap change is_before in
    subst (IsValid F) (sym same) (record {
      version = valid.version;
      platform_count = valid.platform_count;
      platforms = valid.platforms;
      platform_names = valid.platform_names;
      acknowledged_count = valid.acknowledged_count;
      acknowledged = valid.acknowledged;
      acknowledged_names = valid.acknowledged_names;
      status_count =
          subst (λ (c : StrategyConfig (OrchestrationSection F.Num)). length c.subscriptions ≤ 512)
            same few;
      statuses =
          All-upsert row_name StatusIsLocked name update new before.subscriptions locks locked
            valid.statuses;
      status_names =
          Distinct-upsert row_name name update new before.subscriptions keeps is_new
            valid.status_names;
      section = valid.section;
    })

not_empty : (row : Row) → row.phase_error ≡ some "" → StatusIsLocked row → ⊥
unfolding len
not_empty row e locked =
    let bounded : ErrorIsBounded (some "") = subst ErrorIsBounded e locked.error_text in
    omega (arith, bounded.0.0)

updated_error :
    (name : String) (phase : SubscriptionPhase) (stage : Option EstablishStep) (e : Option String)
    (old : Option Row)
    → (updated (phase_update phase stage e) (phase_row name phase stage e) old).phase_error ≡ e
updated_error name phase stage e none = refl
updated_error name phase stage e (some row) = refl

module _ (F : Float) (before : StrategyConfig (OrchestrationSection F.Num))
    (save : StrategyConfig (OrchestrationSection F.Num) → Result Unit) where
  -- Where a phase write succeeds on a document that the validator accepts, and an error that it is
  -- given is not empty, what lands is a document that the validator accepts.
  pub record_subscription_phase-IsValid :
      (name : String) (phase : SubscriptionPhase) (stage : Option EstablishStep)
      (phase_error : Option String) {after : StrategyConfig (OrchestrationSection F.Num)}
      → record_subscription_phase (ok before) save name phase stage phase_error ≡ ok after
      → IsValid F before
      → IsGiven phase_error
      → IsValid F after
  unfolding record_subscription_phase
  record_subscription_phase-IsValid name phase stage phase_error {after} h valid given =
      let (allowed, read, same_read, (same, done, few)) =
        write_rows-ok (ok before) save (phase_refusal name phase stage phase_error)
          (upsert row_name name (phase_update phase stage phase_error)
            (phase_row name phase stage phase_error))
          (ok before) h in
      let locked = λ (cascade : Option CascadeError).
        phase_bounded name phase stage phase_error cascade allowed given in
      relisted F name (phase_update phase stage phase_error)
        (phase_row name phase stage phase_error) before read after same_read same few (λ _. refl)
        refl
        (λ row lock.
          let bounded =
            locked (if is_converged phase then none else row.last_cascade_error)
              (if_elim CascadeIsBounded (is_converged phase) (λ _. tt) (λ _. lock.cascade)) in
          record {
            name = lock.name;
            printable = lock.printable;
            stage = bounded.stage;
            error = bounded.error;
            error_text = bounded.error_text;
            cascade = bounded.cascade;
          })
        (locked none tt) valid

  -- A failure write that succeeds on a document that the validator accepts lands a document that it
  -- accepts.
  pub record_cascade_failure-IsValid :
      (name : String) (stage : EstablishStep) (reason : String) (rollback_actions : List String)
      {after : StrategyConfig (OrchestrationSection F.Num)}
      → record_cascade_failure (ok before) save name stage reason rollback_actions ≡ ok after
      → IsValid F before
      → IsValid F after
  unfolding record_cascade_failure
  record_cascade_failure-IsValid name stage reason rollback_actions {after} h valid =
      let e = cascade_error (ok before) save stage reason rollback_actions in
      let (allowed, read, same_read, (same, done, few)) =
        write_rows-ok (ok before) save (failure_refusal name reason rollback_actions)
          (upsert row_name name (failure_update e) (failure_row name e)) (ok before) h in
      let (printable, bounded) = failure_bounded name stage reason rollback_actions allowed in
      relisted F name (failure_update e) (failure_row name e) before read after same_read same few
        (λ _. refl) refl
        (λ row lock. record {
          name = lock.name;
          printable = lock.printable;
          stage = refl;
          error = refl;
          error_text = (bounded.0, bounded.1);
          cascade = bounded;
        })
        (record {
          name = printable.0;
          printable = printable.1;
          stage = refl;
          error = refl;
          error_text = (bounded.0, bounded.1);
          cascade = bounded;
        })
        valid

  -- A phase write with an empty error in Failed, if it succeeds, lands a document that the validator
  -- refuses, whatever the document was before.
  pub record_subscription_phase-poisons :
      (name : String) (stage : EstablishStep) {after : StrategyConfig (OrchestrationSection F.Num)}
      → record_subscription_phase (ok before) save name failed (some stage) (some "") ≡ ok after
      → validate F after ≢ none
  record_subscription_phase-poisons name stage {after} h accepted =
      let valid = (validate-IsValid F after).0 accepted in
      let (read, same, done, row, kept, generation, few) =
        record_subscription_phase-row (ok before) save name failed (some stage) (some "") name h in
      let old = row_of name read.subscriptions in
      let new =
        updated (phase_update failed (some stage) (some ""))
          (phase_row name failed (some stage) (some "")) old in
      let found : row_of name after.subscriptions ≡ some new =
        row ∙ ap (λ b. if b then some new else old) (eq_refl name) in
      not_empty new (updated_error name failed (some stage) (some "") old)
        (All-entry_of row_name StatusIsLocked name after.subscriptions valid.statuses found)

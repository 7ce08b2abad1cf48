-- ===== src/StrategyService/Accepted.antt =====
-- The validator of strategy_service.rs against the bounds: it accepts exactly the documents within
-- them.
use egress_apikey.Prelude.{
  ℕ, suc, ◌≤◌, ◌≡◌, ◌↔◌, refl, Bool, true, false, not, String, Option, none, some, is_some, List,
  [], ◌∷◌, count, length, All, ltb, ◌==◌, if◌then◌else◌, arith,
}
use egress_apikey.Prelude.Upserts.{Distinct}
use egress_apikey.StrategyEngine.{
  PlatformStrategy, CascadeError, SubscriptionStatus, StrategyConfig,
}
use egress_apikey.StrategyService.{has_nul, or_refuse, also}
use egress_apikey.StrategyService.Validation.{
  bad_len, region_refusal, platform_refusal, acknowledged_refusal, itself, validate_acknowledged,
  action_refusal, cascade_refusal, needs_stage, is_failed, stage_lock, required_error, error_lock,
  status_refusal, validate_subscription_statuses, validate_orchestration, validate,
}
use egress_apikey.Orchestration.Floats.{Float}
use egress_apikey.Orchestration.Evaluate.{OrchestrationSection}
use egress_apikey.StrategyService.Bounds.{
  Sized, PlatformIsBounded, CascadeIsBounded, ErrorIsBounded, StatusIsLocked, Printable, IsValid,
  or_refuse_iff, also_iff, check_list_iff, check_all_iff, Sized-iff,
}

region_iff : (r : String) → (region_refusal r ≡ none) ↔ Sized 32 r
unfolding region_refusal
region_iff r = ground arith

platform_iff :
    (duplicate : Bool) (i : ℕ) (ps : PlatformStrategy)
    → (platform_refusal duplicate i ps ≡ none) ↔ ((duplicate ≡ false) × PlatformIsBounded ps)
unfolding platform_refusal
platform_iff duplicate i ps =
    let codes = check_all_iff region_refusal (Sized 32) region_iff ps.regions in
    (λ h. ground arith, λ h. ground arith)

acknowledged_iff :
    (field : String) (duplicate : Bool) (i : ℕ) (m : String)
    → (acknowledged_refusal field duplicate i m ≡ none) ↔ ((duplicate ≡ false) × Printable m)
unfolding acknowledged_refusal
acknowledged_iff field duplicate i m = ground arith

action_iff :
    (i : ℕ) (row : SubscriptionStatus) (j : ℕ) (actions : List String)
    → (action_refusal i row j actions ≡ none) ↔ All (λ a. Sized 256 a × (has_nul a ≡ false)) actions
unfolding action_refusal
action_iff i row j [] = (λ h. tt, λ h. refl)
action_iff i row j (a ∷ actions) = ground (arith, action_iff i row (suc j) actions)

cascade_iff :
    (i : ℕ) (row : SubscriptionStatus) (ce : Option CascadeError)
    → (cascade_refusal i row ce ≡ none) ↔ CascadeIsBounded ce
unfolding cascade_refusal
cascade_iff i row none = (λ h. tt, λ h. refl)
cascade_iff i row (some ce) = ground (arith, action_iff i row 0 ce.rollback_actions)

stage_iff :
    (i : ℕ) (row : SubscriptionStatus)
    → (stage_lock i row ≡ none) ↔ (is_some row.stage ≡ needs_stage row.phase)
stage_iff i row = ground arith

lock_iff :
    (failed : Bool) (i : ℕ) (row : SubscriptionStatus) (message : String) (e : Option String)
    → ((if failed then required_error i row e else or_refuse (is_some e) message none) ≡ none)
      ↔ ((is_some e ≡ failed) × ErrorIsBounded e)
lock_iff true i row message none = ground arith
lock_iff true i row message (some e) = ground arith
lock_iff false i row message none = (λ h. (refl, tt), λ h. refl)
lock_iff false i row message (some e) = ground arith

error_iff :
    (i : ℕ) (row : SubscriptionStatus)
    → (error_lock i row ≡ none)
      ↔ ((is_some row.phase_error ≡ is_failed row.phase) × ErrorIsBounded row.phase_error)
error_iff i row = lock_iff (is_failed row.phase) i row _ row.phase_error

status_iff :
    (duplicate : Bool) (i : ℕ) (row : SubscriptionStatus)
    → (status_refusal duplicate i row ≡ none) ↔ ((duplicate ≡ false) × StatusIsLocked row)
unfolding status_refusal
status_iff duplicate i row = (
  λ h.
      let (sized, h1) = (or_refuse_iff (bad_len 128 row.name) _ _).0 h in
      let (printable, h2) = (or_refuse_iff _ _ _).0 h1 in
      let (fresh, h3) = (or_refuse_iff _ _ _).0 h2 in
      let (stage, h4) = (also_iff (stage_lock i row) _).0 h3 in
      let (error, cascade) = (also_iff (error_lock i row) _).0 h4 in
      let locked = (error_iff i row).0 error in
      (
        fresh,
        record {
          name = (Sized-iff 128 row.name).0 sized;
          printable = printable;
          stage = (stage_iff i row).0 stage;
          error = locked.0;
          error_text = locked.1;
          cascade = (cascade_iff i row row.last_cascade_error).0 cascade;
        },
      ),
  λ (fresh, locked). (or_refuse_iff _ _ _).1 (
    (Sized-iff 128 row.name).1 locked.name,
    (or_refuse_iff _ _ _).1 (
      locked.printable,
      (or_refuse_iff _ _ _).1 (
        fresh,
        (also_iff (stage_lock i row) _).1 (
          (stage_iff i row).1 locked.stage,
          (also_iff (error_lock i row) _).1 (
            (error_iff i row).1 (locked.error, locked.error_text),
            (cascade_iff i row row.last_cascade_error).1 locked.cascade,
          ),
        ),
      ),
    ),
  ),
)

acknowledged_list_iff :
    (list : List String)
    → (validate_acknowledged list "acknowledged" ≡ none)
      ↔ ((length list ≤ 64) × All Printable list × Distinct itself list)
unfolding validate_acknowledged
acknowledged_list_iff list =
    let each =
      check_list_iff itself (acknowledged_refusal "acknowledged") Printable
        (acknowledged_iff "acknowledged") list in
    ground arith

statuses_iff :
    (rows : List SubscriptionStatus)
    → (validate_subscription_statuses rows ≡ none) ↔ (
        (length rows ≤ 512)
        × All StatusIsLocked rows
        × Distinct (λ (row : SubscriptionStatus). row.name) rows)
unfolding validate_subscription_statuses
statuses_iff rows =
    let each =
      check_list_iff (λ (row : SubscriptionStatus). row.name) status_refusal StatusIsLocked
        status_iff rows in
    ground arith

module _ (F : Float) (config : StrategyConfig (OrchestrationSection F.Num)) where
  -- The validator accepts a document exactly when it is within its bounds: the version is 1, names
  -- are of 1 to 128 bytes and come once, lists have their lengths, the members of `acknowledged` and
  -- the names of status rows have no control character, every status row has a stage in
  -- Establishing and Failed and only there and an error in Failed and only there, texts of errors
  -- and actions are bounded and have no NUL, and the orchestration section passes its own check.
  pub validate-IsValid : (validate F config ≡ none) ↔ IsValid F config
  unfolding validate
  validate-IsValid =
      let platforms =
        check_list_iff (λ (ps : PlatformStrategy). ps.platform_name) platform_refusal
          PlatformIsBounded platform_iff config.platforms in
      let acknowledged = acknowledged_list_iff config.acknowledged in
      let statuses = statuses_iff config.subscriptions in
      let rest = also_iff (validate_acknowledged config.acknowledged "acknowledged") (
        also (validate_subscription_statuses config.subscriptions)
          (validate_orchestration F config.orchestration)) in
      let last =
        also_iff (validate_subscription_statuses config.subscriptions)
          (validate_orchestration F config.orchestration) in
      (
        λ h.
            let (version, h1) = (or_refuse_iff (not (config.version == 1)) _ _).0 h in
            let (count, h2) = (or_refuse_iff (ltb 256 (length config.platforms)) _ _).0 h1 in
            let (a, h3) = (also_iff _ _).0 h2 in
            let (b, h4) = rest.0 h3 in
            let (c, d) = last.0 h4 in
            let (ack_count, ack, ack_names) = acknowledged.0 b in
            let (row_count, rows, row_names) = statuses.0 c in
            record {
              version = ground arith;
              platform_count = ground arith;
              platforms = (platforms.0 a).0;
              platform_names = (platforms.0 a).1;
              acknowledged_count = ack_count;
              acknowledged = ack;
              acknowledged_names = ack_names;
              status_count = row_count;
              statuses = rows;
              status_names = row_names;
              section = d;
            },
        λ v. (or_refuse_iff (not (config.version == 1)) _ _).1 (
          ground arith,
          (or_refuse_iff (ltb 256 (length config.platforms)) _ _).1 (
            ground arith,
            (also_iff _ _).1 (
              platforms.1 (v.platforms, v.platform_names),
              rest.1 (
                acknowledged.1 (v.acknowledged_count, v.acknowledged, v.acknowledged_names),
                last.1 (statuses.1 (v.status_count, v.statuses, v.status_names), v.section),
              ),
            ),
          ),
        ),
      )

-- ===== src/StrategyService/Validation.antt =====
-- crates/resin-core/src/strategy_service.rs: the validator of the strategy document. A refusal is
-- the first violated bound, with the message of the source.
use egress_apikey.Prelude.{
  ℕ, suc, Bool, true, false, not, ◌&&◌, ◌||◌, String, Option, none, some, is_some, List, [], ◌∷◌,
  any, length, ltb, ◌==◌, str_eq, if◌then◌else◌,
}
use egress_apikey.Prelude.Texts.{concat, decimal_text}
use egress_apikey.Prelude.Maps.{Map}
use egress_apikey.StrategyEngine
use egress_apikey.StrategyEngine.{
  PlatformStrategy, CascadeError, SubscriptionStatus, SubscriptionPhase, StrategyConfig,
}
use egress_apikey.StrategyService.{
  len, has_control, has_nul, or_refuse, also, max_platform_name_len, max_subscription_status_rows,
  max_phase_error_len, max_rollback_actions, max_rollback_action_len,
}
use egress_apikey.Orchestration.{
  OrchestrationParams, OrchBaseline, OrchProposal, PlatformOrch, max_orch_platforms, max_switch_log,
}
use egress_apikey.Orchestration.Floats.{Float}
use egress_apikey.Orchestration.Verdicts.{ProbeVerdict}
use egress_apikey.Orchestration.Evaluate.{OrchestrationSection}
use egress_apikey.Orchestration.Diff.{max_proposal_diff}

abbrev pub max_platforms : ℕ
max_platforms = 256

abbrev pub max_regions_per_platform : ℕ
max_regions_per_platform = 64

abbrev pub max_subscriptions_per_platform : ℕ
max_subscriptions_per_platform = 64

abbrev pub max_top_n : ℕ
max_top_n = 1000

abbrev pub max_region_len : ℕ
max_region_len = 32

abbrev pub max_acknowledged_entries : ℕ
max_acknowledged_entries = 64

abbrev pub max_proposal_reason : ℕ
max_proposal_reason = 512

abbrev pub max_regions_per_switch : ℕ
max_regions_per_switch = 64

-- `s.is_empty() || s.len() > limit`
abbrev pub bad_len : ℕ → String → Bool
bad_len limit s = (len s == 0) || ltb limit (len s)

-- A loop over entries with a set of the names seen so far and, in the first two places of a
-- refusal, whether the name was seen and the index.
unfoldable pub check_each :
    {A : Type 0}
    → (A → String)
    → (Bool → ℕ → A → Option String)
    → List String
    → ℕ
    → List A
    → Option String
check_each name refusal seen i [] = none
check_each name refusal seen i (x ∷ xs) =
    also (refusal (any (str_eq (name x)) seen) i x)
      (check_each name refusal (name x ∷ seen) (suc i) xs)

-- A loop over the members of a list.
unfoldable pub check_all : (String → Option String) → List String → Option String
check_all refusal [] = none
check_all refusal (s ∷ ss) = also (refusal s) (check_all refusal ss)

unfoldable pub region_refusal : String → Option String
unfolding len concat
region_refusal r =
    or_refuse (bad_len max_region_len r) (concat ("region code invalid (1..32 chars): " ∷ r ∷ []))
      none

unfoldable pub platform_refusal : Bool → ℕ → PlatformStrategy → Option String
unfolding len concat check_all region_refusal
platform_refusal duplicate i ps =
    or_refuse (bad_len max_platform_name_len ps.platform_name) "platform_name must be 1..128 chars"
      (or_refuse duplicate (concat ("duplicate platform_name: " ∷ ps.platform_name ∷ [])) (
        or_refuse (ltb max_regions_per_platform (length ps.regions))
          "regions list too long (max 64)"
          (also (check_all region_refusal ps.regions) (
            or_refuse (ltb max_subscriptions_per_platform (length ps.subscriptions))
              "subscriptions list too long (max 64)"
              (or_refuse (ltb max_top_n ps.top_n) "top_n too large (max 1000)" (
                or_refuse (ltb max_platforms (length ps.manual_nodes))
                  "manual_nodes list too long (max 256)" none))))))

abbrev pub at_index : String → ℕ → String → String
at_index field i what = concat (field ∷ "[" ∷ decimal_text i ∷ "]" ∷ what ∷ [])

unfoldable pub acknowledged_refusal : String → Bool → ℕ → String → Option String
unfolding len has_control concat decimal_text
acknowledged_refusal field duplicate i m =
    or_refuse (bad_len max_platform_name_len m) (at_index field i " must be 1..128 chars") (
      or_refuse (has_control m) (at_index field i " contains control characters")
        (or_refuse duplicate (at_index field i (concat (" is duplicated: " ∷ m ∷ []))) none))

abbrev pub itself : String → String
itself s = s

unfoldable pub validate_acknowledged : List String → String → Option String
unfolding check_each acknowledged_refusal concat
validate_acknowledged list field =
    or_refuse (ltb max_acknowledged_entries (length list))
      (concat (field ∷ " list too long (max 64)" ∷ []))
      (check_each itself (acknowledged_refusal field) [] 0 list)

-- `subscriptions[{i}] ({name}) …`
abbrev pub at_row : ℕ → SubscriptionStatus → String → String
at_row i row what = at_index "subscriptions" i (concat (" (" ∷ row.name ∷ ") " ∷ what ∷ []))

unfoldable pub action_refusal : ℕ → SubscriptionStatus → ℕ → List String → Option String
unfolding len has_nul concat decimal_text
action_refusal i row j [] = none
action_refusal i row j (a ∷ actions) =
    or_refuse (bad_len max_rollback_action_len a)
      (at_row i row (at_index "rollback_actions" j " must be 1..256 chars"))
      (or_refuse (has_nul a) (at_row i row (at_index "rollback_actions" j " contains NUL"))
        (action_refusal i row (suc j) actions))

unfoldable pub cascade_refusal : ℕ → SubscriptionStatus → Option CascadeError → Option String
unfolding len has_nul concat decimal_text action_refusal
cascade_refusal i row none = none
cascade_refusal i row (some ce) =
    or_refuse (bad_len max_phase_error_len ce.reason)
      (at_row i row "last_cascade_error.reason must be 1..1024 chars")
      (or_refuse (has_nul ce.reason) (at_row i row "last_cascade_error.reason contains NUL") (
        or_refuse (ltb max_rollback_actions (length ce.rollback_actions))
          (at_row i row "rollback_actions too long (max 8)")
          (action_refusal i row 0 ce.rollback_actions)))

abbrev pub needs_stage : SubscriptionPhase → Bool
needs_stage StrategyEngine.establishing = true
needs_stage StrategyEngine.failed = true
needs_stage _ = false

abbrev pub stage_lock : ℕ → SubscriptionStatus → Option String
stage_lock i row =
    if needs_stage row.phase
    then or_refuse (not (is_some row.stage)) (at_row i row "phase requires a stage") none
    else or_refuse (is_some row.stage) (at_row i row "phase must not carry a stage") none

abbrev pub is_failed : SubscriptionPhase → Bool
is_failed StrategyEngine.failed = true
is_failed _ = false

abbrev pub required_error : ℕ → SubscriptionStatus → Option String → Option String
required_error i row none = some (at_row i row "Failed requires a phase_error")
required_error i row (some e) =
    or_refuse (bad_len max_phase_error_len e)
      (at_index "subscriptions" i ".phase_error must be 1..1024 chars")
      (or_refuse (has_nul e) (at_index "subscriptions" i ".phase_error contains NUL") none)

abbrev pub error_lock : ℕ → SubscriptionStatus → Option String
error_lock i row =
    if is_failed row.phase
    then required_error i row row.phase_error
    else or_refuse (is_some row.phase_error) (at_row i row "phase must not carry a phase_error")
        none

unfoldable pub status_refusal : Bool → ℕ → SubscriptionStatus → Option String
unfolding len has_control has_nul concat decimal_text cascade_refusal
status_refusal duplicate i row =
    or_refuse (bad_len max_platform_name_len row.name)
      (at_index "subscriptions" i ".name must be 1..128 chars")
      (or_refuse (has_control row.name)
        (at_index "subscriptions" i ".name contains control characters")
        (or_refuse duplicate (concat ("duplicate subscriptions entry: " ∷ row.name ∷ [])) (
          also (stage_lock i row)
            (also (error_lock i row) (cascade_refusal i row row.last_cascade_error)))))

unfoldable pub validate_subscription_statuses : List SubscriptionStatus → Option String
unfolding check_each status_refusal
validate_subscription_statuses rows =
    or_refuse (ltb max_subscription_status_rows (length rows))
      "subscriptions status array too long (max 512)"
      (check_each (λ (row : SubscriptionStatus). row.name) status_refusal [] 0 rows)

unfoldable pub baseline_refusal : Option OrchBaseline → Option String
baseline_refusal none = none
baseline_refusal (some b) =
    or_refuse (ltb max_regions_per_switch (length b.regions))
      "orchestration baseline regions too long" none

unfoldable pub pending_refusal : Option OrchProposal → Option String
unfolding len
pending_refusal none = none
pending_refusal (some p) =
    or_refuse
      (ltb max_regions_per_switch (length p.regions)
        || ltb max_proposal_reason (len p.reason)
        || ltb max_proposal_diff (length p.diff))
      "orchestration pending proposal field too long" none

unfoldable pub orch_row_refusal : Bool → ℕ → PlatformOrch → Option String
unfolding len concat baseline_refusal pending_refusal
orch_row_refusal duplicate i row =
    or_refuse (bad_len max_platform_name_len row.platform_name)
      "orchestration platform_name must be 1..128 chars"
      (or_refuse duplicate (concat ("duplicate orchestration row: " ∷ row.platform_name ∷ [])) (
        or_refuse (ltb max_switch_log (length row.switch_log))
          "orchestration switch_log too long (max 64)"
          (also (baseline_refusal row.baseline) (pending_refusal row.pending))))

-- The keys of the map, in its own order.
unfoldable pub verdict_keys : Map ProbeVerdict → Option String
unfolding len
verdict_keys [] = none
verdict_keys ((k, v) ∷ m) =
    or_refuse (bad_len max_platform_name_len k)
      "orchestration signal_verdicts key must be 1..128 chars" (verdict_keys m)

module _ (F : Float) where
  open F use {Num, of_ℕ, ge, gt}

  -- `0.0 < x && x <= 1.0`
  abbrev pub is_ratio : Num → Bool
  is_ratio x = gt x (of_ℕ 0) && ge (of_ℕ 1) x

  unfoldable pub params_refusal : OrchestrationParams Num → Option String
  params_refusal p =
      or_refuse
        ((p.consecutive_failure_threshold == 0)
          || (p.window_min_samples == 0)
          || (p.observe_good_cycles == 0)
          || (p.slow_call_ms == 0)
          || (p.cooldown_base_secs == 0))
        "orchestration trigger params must be >= 1"
        (or_refuse (not (is_ratio p.failure_rate_threshold))
          "orchestration failure_rate_threshold must be in (0, 1]"
          (or_refuse (gt (of_ℕ 1) p.improvement_ratio || gt (of_ℕ 1) p.error_ratio)
            "orchestration tolerance ratios must be >= 1"
            (or_refuse (ltb p.cooldown_max_secs p.cooldown_base_secs)
              "orchestration cooldown_max_secs must be >= cooldown_base_secs"
              (or_refuse (not (is_ratio p.max_switch_ratio))
                "orchestration max_switch_ratio must be in (0, 1]" none))))

  unfoldable pub validate_orchestration : Option (OrchestrationSection Num) → Option String
  unfolding check_each orch_row_refusal verdict_keys params_refusal
  validate_orchestration none = none
  validate_orchestration (some sec) =
      or_refuse (ltb max_orch_platforms (length sec.platforms))
        "orchestration.platforms too long (max 64)"
        (also
          (check_each (λ (row : PlatformOrch). row.platform_name) orch_row_refusal [] 0
            sec.platforms)
          (or_refuse (ltb max_orch_platforms (length sec.signal_verdicts))
            "orchestration signal_verdicts too long (max 64)"
            (also (verdict_keys sec.signal_verdicts) (params_refusal sec.params))))

  unfoldable pub validate : StrategyConfig (OrchestrationSection Num) → Option String
  unfolding check_each platform_refusal validate_acknowledged validate_subscription_statuses
      validate_orchestration
  validate config = or_refuse (not (config.version == 1)) "strategy config version must be 1" (
      or_refuse (ltb max_platforms (length config.platforms)) "platforms list too long (max 256)" (
        also
          (check_each (λ (ps : PlatformStrategy). ps.platform_name) platform_refusal [] 0
            config.platforms)
          (also (validate_acknowledged config.acknowledged "acknowledged") (
            also (validate_subscription_statuses config.subscriptions)
              (validate_orchestration config.orchestration)))))

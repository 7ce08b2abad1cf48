-- ===== src/StrategyService/Tests.antt =====
-- A document with one row, and a store that takes everything.
use egress_apikey.Prelude.{ℕ, ◌≡◌, refl, none, some, List, [], ◌∷◌}
use egress_apikey.Prelude.Results.{Result, ok, err}
use egress_apikey.StrategyEngine.{
  SubscriptionStatus, StrategyConfig, converged, apply, CascadeError,
}
use egress_apikey.StrategyService.{record_subscription_phase, phase_row, failure_row}

abbrev failure : CascadeError
failure = record {
  stage = apply;
  reason = "PATCH 500";
  rollback_actions = "sub: kept (user data)" ∷ [];
}

abbrev row : SubscriptionStatus
row = failure_row "s" failure

abbrev document : List SubscriptionStatus → StrategyConfig ℕ
document rows = record {
  version = 1;
  platforms = [];
  acknowledged = [];
  subscriptions = rows;
  generation = 4;
  applied_generation = 4;
  last_apply_at = none;
  last_apply_error = none;
  updated_at = none;
  orchestration = none;
}

abbrev takes : StrategyConfig ℕ → Result Unit
takes c = ok tt

converged_test :
    record_subscription_phase (ok (document (row ∷ []))) takes "s" converged none none
    ≡ ok (document (phase_row "s" converged none none ∷ []))
unfolding record_subscription_phase
converged_test = refl

refused_test :
    record_subscription_phase (ok (document [])) takes "s" converged (some apply) none
    ≡ err "Converged rows never carry a stage"
unfolding record_subscription_phase
refused_test = refl

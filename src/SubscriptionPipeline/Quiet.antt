-- ===== src/SubscriptionPipeline/Quiet.antt =====
-- The steps of crates/resin-core/src/subscription_pipeline.rs that delete nothing on Resin.
use egress_apikey.Prelude.{◌≡◌, refl, ◌∙◌, String, List, [], ◌∷◌, if_elim, any}
use egress_apikey.Prelude.Results.{Result, ok, err}
use egress_apikey.Prelude.Json.{Json}
use egress_apikey.StrategyEngine.{StrategyConfig}
use egress_apikey.SubscriptionPipeline.{StepStatus, written, already_present, failed}
use egress_apikey.SubscriptionPipeline.Calls.{
  Trace, Api, Run, delete_platform, list_subscriptions, list_platforms, get_config,
}
use egress_apikey.SubscriptionPipeline.Steps.{
  ensure_subscription, after_subscriptions, resolve_subscription, ensure_platform, after_config,
  whitebox_half, resin_half, after_platforms, items_arr, has_name, is_bound, entry_of,
}
use egress_apikey.SubscriptionPipeline.Cascade.{resolve_after}

module _ {Num Section : Type 0} where
  -- The ids that were deleted, the last one first, each with the calls before its deletion.
  abbrev pub deleted : Trace Num Section → List (String × Trace Num Section)
  deleted [] = []
  deleted (delete_platform id ∷ t) = (id, t) ∷ deleted t
  deleted (_ ∷ t) = deleted t

  -- Nothing is deleted along a run.
  abbrev pub Quiet : {A : Type 0} → Run Num Section A → Type 0
  Quiet m = (t : Trace Num Section) → deleted (m t).1 ≡ deleted t

  module _ (api : Api Num Section) where
    after_subscriptions-Quiet :
        (name url : String) (r : Result (Json Num)) → Quiet (after_subscriptions api name url r)
    after_subscriptions-Quiet name url (err e) t = refl
    after_subscriptions-Quiet name url (ok live) t =
        if_elim (λ (m : Run Num Section StepStatus). deleted (m t).1 ≡ deleted t)
          (any (has_name name) (items_arr live)) (λ _. refl) (λ _. refl)

    pub ensure_subscription-Quiet : (name url : String) → Quiet (ensure_subscription api name url)
    unfolding ensure_subscription
    ensure_subscription-Quiet name url t =
        after_subscriptions-Quiet name url (api.subscriptions (list_subscriptions ∷ t))
          (list_subscriptions ∷ t)

    pub resolve_after-Quiet : (name : String) (s1 : StepStatus) → Quiet (resolve_after api name s1)
    unfolding resolve_subscription
    resolve_after-Quiet name written t = refl
    resolve_after-Quiet name already_present t = refl
    resolve_after-Quiet name (failed reason) t = refl

    after_platforms-Quiet :
        (name : String) (r : Result (Json Num)) → Quiet (after_platforms api name r)
    after_platforms-Quiet name (err e) t = refl
    after_platforms-Quiet name (ok live) t =
        if_elim (λ (m : Run Num Section StepStatus). deleted (m t).1 ≡ deleted t)
          (any (has_name name) (items_arr live)) (λ _. refl) (λ _. refl)

    resin_half-Quiet : (name : String) (s : StepStatus) → Quiet (resin_half api name s)
    resin_half-Quiet name written t =
        after_platforms-Quiet name (api.platforms (list_platforms ∷ t)) (list_platforms ∷ t)
    resin_half-Quiet name already_present t =
        after_platforms-Quiet name (api.platforms (list_platforms ∷ t)) (list_platforms ∷ t)
    resin_half-Quiet name (failed reason) t = refl

    whitebox_half-Quiet :
        (name : String) (config : StrategyConfig Section) → Quiet (whitebox_half api name config)
    whitebox_half-Quiet name config t =
        if_elim (λ (m : Run Num Section StepStatus). deleted (m t).1 ≡ deleted t)
          (is_bound name (entry_of name config)) (λ _. refl) (λ _. refl)

    after_config-Quiet :
        (name : String) (r : Result (StrategyConfig Section)) → Quiet (after_config api name r)
    after_config-Quiet name (err e) t = refl
    after_config-Quiet name (ok config) t =
        resin_half-Quiet name (whitebox_half api name config t).0
          (whitebox_half api name config t).1
        ∙ whitebox_half-Quiet name config t

    pub ensure_platform-Quiet : (name : String) → Quiet (ensure_platform api name)
    unfolding ensure_platform
    ensure_platform-Quiet name t =
        after_config-Quiet name (api.config (get_config ∷ t)) (get_config ∷ t)

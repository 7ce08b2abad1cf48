-- ===== src/SubscriptionPipeline/Rerun.antt =====
-- A pass over a subscription that is already established.
use egress_apikey.Prelude.{
  ◌≡◌, refl, ap, ◌∙◌, Bool, true, String, Option, none, some, List, [], ◌∷◌, any, all, find, arith,
}
use egress_apikey.Prelude.Results.{ok}
use egress_apikey.Prelude.Json.{Json}
use egress_apikey.StrategyEngine.{
  StrategyConfig, importing, establishing, converged, apply, platform,
}
use egress_apikey.SubscriptionPipeline.{StepStatus, written, already_present}
use egress_apikey.SubscriptionPipeline.Calls.{
  Trace, Api, AppliedPlatform, record_subscription_phase, list_subscriptions, list_platforms,
  get_config, strategy_apply,
}
use egress_apikey.SubscriptionPipeline.Steps.{
  items_arr, has_name, node_count, is_bound, entry_of, ensure_subscription, resolve_subscription,
  ensure_platform, apply_strategy,
}
use egress_apikey.SubscriptionPipeline.Cascade.{
  run_pipeline, resolve_after, after_landing, after_platform, finish_apply, report,
}

find-any :
    {Num : Type 0} (p : Json Num → Bool) (rows : List (Json Num)) {row : Json Num}
    → find p rows ≡ some row
    → any p rows ≡ true
find-any p [] h = cc
find-any p (x ∷ rows) {row} h = ground (arith, find-any p rows {row = row})

module _ {Num Section : Type 0} (api : Api Num Section) where
  ensure_subscription-listed :
      (name url : String) (t : Trace Num Section) {subs : Json Num}
      → api.subscriptions (list_subscriptions ∷ t) ≡ ok subs
      → any (has_name name) (items_arr subs) ≡ true
      → ensure_subscription api name url t ≡ (already_present, list_subscriptions ∷ t)
  unfolding ensure_subscription
  ensure_subscription-listed name url t h k = rw h (rw k refl)

  resolve_subscription-landed :
      (name : String) (t : Trace Num Section) {subs row : Json Num}
      → api.subscriptions (list_subscriptions ∷ t) ≡ ok subs
      → find (has_name name) (items_arr subs) ≡ some row
      → node_count name (some row) ≡ already_present
      → resolve_subscription api name t ≡ (already_present, list_subscriptions ∷ t)
  unfolding resolve_subscription
  resolve_subscription-landed name t h k n = rw h (rw k (ap (λ s. (s, list_subscriptions ∷ t)) n))

  ensure_platform-bound :
      (name : String) (t : Trace Num Section) {plats : Json Num} {config : StrategyConfig Section}
      → api.config (get_config ∷ t) ≡ ok config
      → is_bound name (entry_of name config) ≡ true
      → api.platforms (list_platforms ∷ get_config ∷ t) ≡ ok plats
      → any (has_name name) (items_arr plats) ≡ true
      → ensure_platform api name t
        ≡ ((already_present, already_present), list_platforms ∷ get_config ∷ t)
  unfolding ensure_platform
  ensure_platform-bound name t h k n q = rw h (rw k (rw n (rw q refl)))

  apply_strategy-patched :
      (t : Trace Num Section) {applied : List AppliedPlatform}
      → api.applied (strategy_apply ∷ t) ≡ ok applied
      → all (λ (p : AppliedPlatform). p.patched) applied ≡ true
      → apply_strategy api t ≡ ((written, none), strategy_apply ∷ t)
  unfolding apply_strategy
  apply_strategy-patched t h k = rw h (rw k refl)

  -- Where Resin lists the subscription with nodes and a platform of its name, the whitebox has the
  -- entry that refers to it, and every platform applies, a pass finds all but the last step present
  -- and makes no call that writes but its own status rows and the apply.
  pub run_pipeline-settled :
      (name url : String) (t : Trace Num Section) {subs plats row : Json Num}
      {config : StrategyConfig Section} {applied : List AppliedPlatform}
      → ((u : Trace Num Section) → api.subscriptions u ≡ ok subs)
      → find (has_name name) (items_arr subs) ≡ some row
      → node_count name (some row) ≡ already_present
      → ((u : Trace Num Section) → api.config u ≡ ok config)
      → is_bound name (entry_of name config) ≡ true
      → ((u : Trace Num Section) → api.platforms u ≡ ok plats)
      → any (has_name name) (items_arr plats) ≡ true
      → ((u : Trace Num Section) → api.applied u ≡ ok applied)
      → all (λ (p : AppliedPlatform). p.patched) applied ≡ true
      → run_pipeline api name url t ≡ (
        report name already_present already_present already_present already_present written,
        record_subscription_phase name converged none none
            ∷ strategy_apply
            ∷ record_subscription_phase name establishing (some apply) none
            ∷ list_platforms
            ∷ get_config
            ∷ record_subscription_phase name establishing (some platform) none
            ∷ list_subscriptions
            ∷ list_subscriptions
            ∷ record_subscription_phase name importing none none
            ∷ t,
      )
  unfolding run_pipeline
  run_pipeline-settled name url t {subs} {plats} {row} {config} {applied} hs hf hn hc hb hp hq ha
        hall =
      let t1 = record_subscription_phase name importing none none ∷ t in
      let t2 = list_subscriptions ∷ t1 in
      let t3 =
        record_subscription_phase name establishing (some platform) none
        ∷ list_subscriptions
        ∷ t2 in
      let t4 =
        record_subscription_phase name establishing (some apply) none
        ∷ list_platforms
        ∷ get_config
        ∷ t3 in
      let listed = find-any (has_name name) (items_arr subs) {row = row} hf in
      ap
        (λ (r : StepStatus × Trace Num Section).
          let s2 = resolve_after api name r.0 r.1 in after_landing api name r.0 s2.0 s2.1)
        (ensure_subscription-listed name url t1 (hs (list_subscriptions ∷ t1)) listed)
      ∙ ap (λ (r : StepStatus × Trace Num Section). after_landing api name already_present r.0 r.1)
          (resolve_subscription-landed name t2 {row = row} (hs (list_subscriptions ∷ t2)) hf hn)
      ∙ ap
          (λ (r : (StepStatus × StepStatus) × Trace Num Section).
            after_platform api name already_present already_present r.0 r.1)
          (ensure_platform-bound name t3 (hc (get_config ∷ t3)) hb
            (hp (list_platforms ∷ get_config ∷ t3)) hq)
      ∙ ap
          (λ (r : (StepStatus × Option String) × Trace Num Section). (
            report name already_present already_present already_present already_present r.0.0,
            (finish_apply api name already_present r.0 r.1).1,
          ))
          (apply_strategy-patched t4 (ha (strategy_apply ∷ t4)) hall)

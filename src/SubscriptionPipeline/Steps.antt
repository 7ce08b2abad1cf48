-- ===== src/SubscriptionPipeline/Steps.antt =====
-- crates/resin-core/src/subscription_pipeline.rs: the five steps of the cascade.
use egress_apikey.Prelude.{
  Bool, true, false, not, ◌&&◌, String, Option, none, some, unwrap_or, List, [], ◌∷◌, ◌++◌, any,
  all, find, str_eq, ltb, if◌then◌else◌,
}
use egress_apikey.Prelude.Texts.{concat}
use egress_apikey.Prelude.Results.{Result, ok, err}
use egress_apikey.Prelude.Json
use egress_apikey.Prelude.Json.{
  Json, str, arr, obj, Fields, end, field, get, as_array, as_str, as_u64,
}
use egress_apikey.Strategy.{balanced}
use egress_apikey.StrategyEngine.{StrategyConfig, PlatformStrategy, AClassStrategy, subscription}
use egress_apikey.SubscriptionPipeline.{StepStatus, written, already_present, failed}
use egress_apikey.SubscriptionPipeline.Calls.{
  Api, Run, AppliedPlatform, pure, ask, ◌>>=◌, list_subscriptions, list_platforms, get_config,
  strategy_apply, create_subscription, create_platform_from_name, store_config,
}

abbrev pub is_text : String → Option String → Bool
is_text s (some t) = str_eq t s
is_text s none = false

module _ {Num : Type 0} where
  abbrev pub rows : Option (List (Json Num)) → Json Num → List (Json Num)
  rows (some items) v = items
  rows none v = unwrap_or (as_array v) []

  -- `resin_client::items_arr`: the `items` wrapper or a bare array.
  unfoldable pub items_arr : Json Num → List (Json Num)
  items_arr v = rows (Json.◌>>=◌ (get "items" v) as_array) v

  -- `s.get("name").and_then(|n| n.as_str()) == Some(name)`
  abbrev pub has_name : String → Json Num → Bool
  has_name name row = is_text name (Json.◌>>=◌ (get "name" row) as_str)

  abbrev pub subscription_body : String → String → Json Num
  subscription_body name url = obj (
      field "name" (str name) (
        field "source_type" (str "remote")
          (field "update_interval" (str "30s") (field "url" (str url) end))))

  abbrev pub node_count : String → Option (Json Num) → StepStatus
  node_count name none = failed (concat ("subscription not found on Resin: " ∷ name ∷ []))
  node_count name (some row) =
      if ltb 0 (unwrap_or (Json.◌>>=◌ (get "node_count" row) as_u64) 0)
      then already_present
      else failed (concat ("subscription has no nodes yet (node_count=0): " ∷ name ∷ []))

abbrev pub written_or : {A : Type 0} → String → Result A → StepStatus
written_or what (ok _) = written
written_or what (err e) = failed (concat (what ∷ ": " ∷ e ∷ []))

abbrev pub is_subscription : AClassStrategy → Bool
is_subscription subscription = true
is_subscription _ = false

abbrev pub references : String → PlatformStrategy → Bool
references name ps = any (λ s. str_eq s name) ps.subscriptions

-- The entry already asks for the subscription.
abbrev pub is_bound : String → Option PlatformStrategy → Bool
is_bound name none = false
is_bound name (some ps) = is_subscription ps.a_class && references name ps

abbrev pub bind_entry : String → PlatformStrategy → PlatformStrategy
bind_entry name ps = record ps {
  a_class = subscription;
  subscriptions = if references name ps then ps.subscriptions else ps.subscriptions ++ name ∷ [];
}

abbrev pub new_entry : String → PlatformStrategy
new_entry name = record {
  platform_name = name;
  a_class = subscription;
  b_class = balanced;
  manual_nodes = [];
  regions = [];
  subscriptions = name ∷ [];
  top_n = 10;
}

-- The first entry of that name bound, or a new one at the end.
unfoldable pub bind_platform : String → List PlatformStrategy → List PlatformStrategy
bind_platform name [] = new_entry name ∷ []
bind_platform name (ps ∷ platforms) =
    let rest = bind_platform name platforms in
    if str_eq ps.platform_name name then bind_entry name ps ∷ platforms else ps ∷ rest

abbrev pub entry_of : {Section : Type 0} → String → StrategyConfig Section → Option PlatformStrategy
entry_of name config =
    find (λ (ps : PlatformStrategy). str_eq ps.platform_name name) config.platforms

-- Step 5, with the platform that a failure belongs to.
abbrev pub unpatched : AppliedPlatform → Bool
unpatched p = not p.patched

abbrev pub owned : Option AppliedPlatform → StepStatus × Option String
owned none = (failed "apply failed", none)
owned (some p) = (failed (unwrap_or p.reason "apply failed"), some p.platform)

abbrev pub applied_status : Result (List AppliedPlatform) → StepStatus × Option String
applied_status (err e) = (failed (concat ("strategy apply: " ∷ e ∷ [])), none)
applied_status (ok report) =
    if all (λ (p : AppliedPlatform). p.patched) report
    then (written, none)
    else owned (find unpatched report)

module _ {Num Section : Type 0} (api : Api Num Section) where
  -- Step 1.
  abbrev pub after_subscriptions : String → String → Result (Json Num) → Run Num Section StepStatus
  after_subscriptions name url (err e) = pure (failed (concat ("list subscriptions: " ∷ e ∷ [])))
  after_subscriptions name url (ok live) =
      if any (has_name name) (items_arr live) then pure already_present else do
        created ← ask (create_subscription (subscription_body name url)) api.subscription_created
        pure (written_or "create subscription" created)

  unfoldable pub ensure_subscription : String → String → Run Num Section StepStatus
  unfolding items_arr
  ensure_subscription name url = do
    live ← ask list_subscriptions api.subscriptions
    after_subscriptions name url live

  -- Step 2.
  abbrev pub landed : String → Result (Json Num) → StepStatus
  landed name (err e) = failed (concat ("list subscriptions: " ∷ e ∷ []))
  landed name (ok live) = node_count name (find (has_name name) (items_arr live))

  unfoldable pub resolve_subscription : String → Run Num Section StepStatus
  resolve_subscription name = do
    live ← ask list_subscriptions api.subscriptions
    pure (landed name live)

  -- Steps 3 and 4.
  abbrev pub whitebox_half : String → StrategyConfig Section → Run Num Section StepStatus
  whitebox_half name config =
      if is_bound name (entry_of name config) then pure already_present else do
        stored ←
            ask (store_config (record config { platforms = bind_platform name config.platforms }))
              api.config_stored
        pure (written_or "whitebox store" stored)

  abbrev pub after_platforms : String → Result (Json Num) → Run Num Section StepStatus
  after_platforms name (err e) = pure (failed (concat ("list platforms: " ∷ e ∷ [])))
  after_platforms name (ok live) =
      if any (has_name name) (items_arr live) then pure already_present else do
        created ← ask (create_platform_from_name name) api.platform_created
        pure (written_or "create platform" created)

  abbrev pub resin_half : String → StepStatus → Run Num Section (StepStatus × StepStatus)
  resin_half name (failed reason) =
      pure (failed reason, failed "whitebox write failed; Resin half skipped")
  resin_half name whitebox_status = do
    live ← ask list_platforms api.platforms
    status ← after_platforms name live
    pure (whitebox_status, status)

  abbrev pub after_config :
      String → Result (StrategyConfig Section) → Run Num Section (StepStatus × StepStatus)
  after_config name (err e) =
      pure (failed (concat ("whitebox read: " ∷ e ∷ [])), failed "whitebox unreadable")
  after_config name (ok config) = do
    whitebox_status ← whitebox_half name config
    resin_half name whitebox_status

  unfoldable pub ensure_platform : String → Run Num Section (StepStatus × StepStatus)
  unfolding items_arr bind_platform
  ensure_platform name = do config ← ask get_config api.config; after_config name config

  -- Step 5.
  unfoldable pub apply_strategy : Run Num Section (StepStatus × Option String)
  apply_strategy = do report ← ask strategy_apply api.applied; pure (applied_status report)

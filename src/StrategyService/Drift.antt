-- ===== src/StrategyService/Drift.antt =====
-- crates/resin-core/src/strategy_service.rs: a row of the apply report, dangling references, and
-- the body of a PATCH.
use egress_apikey.Prelude.{
  Bool, false, not, ◌&&◌, String, Option, none, some, List, [], ◌∷◌, filter, filter_map, str_eq,
  if◌then◌else◌,
}
use egress_apikey.Prelude.Texts.{concat, join}
use egress_apikey.Prelude.Maps
use egress_apikey.Prelude.Maps.{Map}
use egress_apikey.Prelude.Json
use egress_apikey.Prelude.Json.{
  ℤ, Json, str, arr, obj, Items, nil, cons, Fields, end, field, as_str,
}
use egress_apikey.Strategy
use egress_apikey.StrategyEngine.{PlatformStrategy, StrategyConfig}
use egress_apikey.StrategyEngine.Regions.{contains, is_empty}
use egress_apikey.SubscriptionPipeline.Steps.{items_arr}
use egress_apikey.Snapshot.Merges.{ResinPlatformRuntime, same_allocation_policy}

pub record AppliedPlatform : Type 0 where
  pub platform : String
  pub region_filters : List String
  pub patched : Bool
  pub reason : Option String

abbrev pub dangling_note : List String → String
dangling_note dangling = concat ("dangling subscription refs: " ∷ join ", " dangling ∷ [])

abbrev pub noted : Option String → String → String
noted (some r) note = concat (r ∷ "; " ∷ note ∷ [])
noted none note = note

unfoldable pub with_dangling_note : AppliedPlatform → List String → AppliedPlatform
unfolding concat join
with_dangling_note row dangling =
    if is_empty dangling
    then row
    else record row { reason = some (noted row.reason (dangling_note dangling)) }

-- The members of each platform that no live subscription has.
abbrev pub dangling_of : List String → PlatformStrategy → List String
dangling_of live ps = filter (λ s. not (contains live s)) ps.subscriptions

unfoldable pub dangling_subscription_refs :
    {Section : Type 0} → StrategyConfig Section → List String → List (String × List String)
dangling_subscription_refs config live =
    filter_map
      (λ (ps : PlatformStrategy).
        if is_empty (dangling_of live ps)
        then none
        else some (ps.platform_name, dangling_of live ps))
      config.platforms

-- Collecting the pairs to a map: the last of a name wins.
unfoldable pub collect : List (String × List String) → Map (List String) → Map (List String)
unfolding Maps.insert
collect [] m = m
collect ((k, v) ∷ pairs) m = collect pairs (Maps.insert k v m)

module _ {Num : Type 0} where
  -- `json!(regions)`
  abbrev pub text_items : List String → Items Num
  text_items [] = nil
  text_items (s ∷ ss) = cons (str s) (text_items ss)

  abbrev pub body_of : Fields Num → Option (Json Num)
  body_of end = none
  body_of (field k v fs) = some (obj (field k v fs))

  -- Only the drifting axes; keys in the order of the map.
  unfoldable pub strategy_patch_body : List String → Bool → String → Bool → Option (Json Num)
  strategy_patch_body regions regions_in_sync desired_policy policy_in_sync =
      let rest =
        if regions_in_sync then end else field "region_filters" (arr (text_items regions)) end in
      body_of (
        if not (str_eq desired_policy "") && not policy_in_sync
        then field "allocation_policy" (str desired_policy) rest
        else rest)

  -- The names that a list response shows.
  unfoldable pub listed_names : Json Num → List String
  unfolding items_arr
  listed_names v =
      filter_map (λ (p : Json Num). Json.◌>>=◌ (Json.get "name" p) as_str) (items_arr v)

abbrev pub policy_of : Option PlatformStrategy → String
policy_of none = ""
policy_of (some ps) = Strategy.as_str ps.b_class

abbrev pub live_regions : Option ResinPlatformRuntime → List String
live_regions none = []
live_regions (some rp) = rp.region_filters

abbrev pub policy_in_sync : String → Option ResinPlatformRuntime → Bool
policy_in_sync desired none = false
policy_in_sync desired (some rp) = same_allocation_policy desired rp.allocation_policy

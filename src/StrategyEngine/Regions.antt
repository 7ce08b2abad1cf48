-- ===== src/StrategyEngine/Regions.antt =====
-- crates/resin-core/src/strategy_engine.rs: nodes of a Resin response, the liveness gate, the
-- A-class selection and the plan.
use egress_apikey.Prelude.{
  Bool, true, false, ◌&&◌, ◌||◌, String, Option, none, some, unwrap_or, List, [], ◌∷◌, map, any,
  filter, take, filter_map, str_eq, if◌then◌else◌,
}
use egress_apikey.Prelude.Maps.{Map, insert}
use egress_apikey.Prelude.Sorting.{normalized}
use egress_apikey.Prelude.Json.{
  ℤ, pos, negsuc, is_zero, Json, uint, neg_int, float, ◌>>=◌, get, as_array, as_str, as_bool,
  as_i64,
}
use egress_apikey.StrategyEngine.{
  PlatformStrategy, AClassStrategy, manual, region, quality, subscription, NodeSummary,
  StrategyConfig,
}

abbrev pub is_empty : List String → Bool
is_empty [] = true
is_empty (x ∷ xs) = false

-- `HashSet::contains`
abbrev pub contains : List String → String → Bool
contains allowed s = any (str_eq s) allowed

module _ {Num : Type 0} where
  abbrev or_else : Option (Json Num) → Option (Json Num) → Option (Json Num)
  or_else (some v) w = some v
  or_else none w = w

  abbrev first : List (Json Num) → Option (Json Num)
  first [] = none
  first (v ∷ vs) = some v

  unfoldable pub tag_name : Json Num → Option String
  tag_name n =
      get "tags" n
      >>= as_array
      >>= first
      >>= (λ tag. or_else (get "subscription_name" tag) (get "subscriptionName" tag))
      >>= as_str

  -- `items`, where it is there, even if it is no array.
  abbrev node_items : Option (Json Num) → Json Num → Option (List (Json Num))
  node_items (some items) v = as_array items
  node_items none v = as_array v

  abbrev pub is_live : NodeSummary Num → Bool
  is_live n = n.has_outbound && is_zero n.failure_count

  unfoldable pub liveness_filter : List (NodeSummary Num) → List (NodeSummary Num)
  liveness_filter nodes = filter is_live nodes

  abbrev select : (NodeSummary Num → Bool) → List (NodeSummary Num) → List String
  select p healthy =
      normalized (filter_map (λ (n : NodeSummary Num). if p n then some n.region else none) healthy)

-- How an integer becomes an `f64`.
module _ {Num : Type 0} (from_int : ℤ → Num) where
  -- `v.as_f64()`
  abbrev pub as_f64 : Json Num → Option Num
  as_f64 (uint n) = some (from_int (pos n))
  as_f64 (neg_int n) = some (from_int (negsuc n))
  as_f64 (float x) = some x
  as_f64 _ = none

  -- One item, by its hash; an item without one is skipped.
  unfoldable pub parse_node : Json Num → Option (NodeSummary Num)
  unfolding tag_name
  parse_node n = get "node_hash" n >>= as_str >>= λ hash. some (record {
    node_hash = hash;
    region = unwrap_or (get "region" n >>= as_str) "";
    has_outbound = unwrap_or (get "has_outbound" n >>= as_bool) false;
    failure_count = unwrap_or (get "failure_count" n >>= as_i64) (pos 0);
    reference_latency_ms = get "reference_latency_ms" n >>= as_f64;
    subscription_name = tag_name n;
  })

  unfoldable pub parse_nodes : Json Num → List (NodeSummary Num)
  unfolding parse_node
  parse_nodes v = filter_map parse_node (unwrap_or (node_items (get "items" v) v) [])

-- The order of `f64` and `f64::MAX`.
module _ {Num : Type 0} (less : Num → Num → Bool) (num_max : Num) where
  -- Latency, unknown as the worst.
  abbrev pub latency : NodeSummary Num → Num
  latency n = unwrap_or n.reference_latency_ms num_max

  -- `sort_by` is stable: a node goes before the first that is not better than it.
  unfoldable pub insert_by_latency :
      NodeSummary Num → List (NodeSummary Num) → List (NodeSummary Num)
  insert_by_latency n [] = n ∷ []
  insert_by_latency n (m ∷ ms) =
      let rest = insert_by_latency n ms in
      if less (latency m) (latency n) then m ∷ rest else n ∷ m ∷ ms

  unfoldable pub sort_by_latency : List (NodeSummary Num) → List (NodeSummary Num)
  unfolding insert_by_latency
  sort_by_latency [] = []
  sort_by_latency (n ∷ ns) = insert_by_latency n (sort_by_latency ns)

  -- The four arms; `manual_nodes` are hashes, an empty list of regions or subscriptions allows all.
  unfoldable pub a_class_regions_by :
      AClassStrategy → PlatformStrategy → List (NodeSummary Num) → List String
  unfolding sort_by_latency
  a_class_regions_by manual strategy healthy =
      select (λ n. contains strategy.manual_nodes n.node_hash) healthy
  a_class_regions_by region strategy healthy =
      select (λ n. is_empty strategy.regions || contains strategy.regions n.region) healthy
  a_class_regions_by quality strategy healthy =
      normalized
        (map (λ (n : NodeSummary Num). n.region) (take strategy.top_n (sort_by_latency healthy)))
  a_class_regions_by subscription strategy healthy =
      select
        (λ n.
          is_empty strategy.subscriptions
          || contains strategy.subscriptions (unwrap_or n.subscription_name ""))
        healthy

  unfoldable pub a_class_regions : PlatformStrategy → List (NodeSummary Num) → List String
  unfolding a_class_regions_by
  a_class_regions strategy healthy = a_class_regions_by strategy.a_class strategy healthy

  unfoldable pub plan_platforms :
      List PlatformStrategy → List (NodeSummary Num) → Map (List String) → Map (List String)
  unfolding a_class_regions insert
  plan_platforms [] healthy plan = plan
  plan_platforms (ps ∷ platforms) healthy plan =
      plan_platforms platforms healthy (insert ps.platform_name (a_class_regions ps healthy) plan)

  unfoldable pub compute_plan :
      {Section : Type 0} → StrategyConfig Section → List (NodeSummary Num) → Map (List String)
  unfolding plan_platforms liveness_filter
  compute_plan config nodes = plan_platforms config.platforms (liveness_filter nodes) []

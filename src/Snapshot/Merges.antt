-- ===== src/Snapshot/Merges.antt =====
-- crates/resin-core/src/snapshot.rs: the merges of the whitebox documents with the Resin runtime.
use egress_apikey.Prelude.{
  ℕ, Bool, true, false, ◌&&◌, ◌||◌, not, String, Option, none, some, unwrap_or, List, [], ◌∷◌, ◌++◌,
  map, any, filter, filter_map, ◌==◌, ltb, str_eq, if◌then◌else◌,
}
use egress_apikey.Prelude.Texts.{Text, codes, trim, text_eq, to_ascii_uppercase}
use egress_apikey.Prelude.Sorting.{normalized, str_ltb}
use egress_apikey.Prelude.SortBy.{sort_by}
use egress_apikey.Prelude.Maps.{Map, get, insert}
use egress_apikey.Prelude.Json
use egress_apikey.Prelude.Json.{Json, as_array, as_str}
use egress_apikey.Strategy
use egress_apikey.Strategy.{StrategyId, parse}
use egress_apikey.StrategyEngine
use egress_apikey.StrategyEngine.{PlatformStrategy, StrategyConfig}
use egress_apikey.Snapshot.{
  PlatformEntry, StrategySnapshot, consistent, divergent, missing_on_resin, PortMapping,
  PortSnapshot, port_consistent, port_missing_on_resin, mapping, ProcessRouteRule,
  ProcessRouteSnapshot, route_consistent, route_missing_on_resin, rule,
}

pub record ResinPlatformRuntime : Type 0 where
  pub id : String
  pub name : String
  pub region_filters : List String
  pub allocation_policy : String

module _ {Num : Type 0} where
  abbrev text_or : String → Option (Json Num) → String
  text_or d v = unwrap_or (Json.◌>>=◌ v as_str) d

  abbrev texts : Option (List (Json Num)) → List String
  texts none = []
  texts (some vs) = filter_map as_str vs

  unfoldable pub parse_platform : Json Num → Option ResinPlatformRuntime
  parse_platform p = Json.◌>>=◌ (Json.◌>>=◌ (Json.get "name" p) as_str) λ name. some (record {
    id = text_or "" (Json.get "id" p);
    name = name;
    region_filters = texts (Json.◌>>=◌ (Json.get "region_filters" p) as_array);
    allocation_policy = text_or "BALANCED" (Json.get "allocation_policy" p);
  })

  abbrev pub platform_items : Option (List (Json Num)) → Json Num → List (Json Num)
  platform_items (some items) v = items
  platform_items none v = unwrap_or (as_array v) []

  unfoldable pub parse_resin_platforms : Json Num → List ResinPlatformRuntime
  unfolding parse_platform
  parse_resin_platforms v =
      filter_map parse_platform (platform_items (Json.◌>>=◌ (Json.get "items" v) as_array) v)

-- `HashSet<u16>::contains`
abbrev pub has_port : List ℕ → ℕ → Bool
has_port ports p = any (λ q. q == p) ports

abbrev pub port_entry : List ℕ → PortMapping → PortSnapshot
port_entry resin_ports m =
    if has_port resin_ports m.port
    then port_consistent m false
    else if m.enabled
    then port_missing_on_resin m none false
    else port_consistent (record m { enabled = false }) false

abbrev pub port_less : PortSnapshot → PortSnapshot → Bool
port_less a b = ltb (mapping a).port (mapping b).port

unfoldable pub merge_ports : List PortMapping → List ℕ → List PortSnapshot
unfolding sort_by
merge_ports whitebox resin_ports = sort_by port_less (map (port_entry resin_ports) whitebox)

abbrev pub policy_text : Option StrategyId → String → Text
policy_text (some id) v = codes (Strategy.as_str id)
policy_text none v = map to_ascii_uppercase (trim (codes v))

unfoldable pub canonical_policy : String → Text
unfolding parse trim
canonical_policy v = policy_text (parse v) v

unfoldable pub same_allocation_policy : String → String → Bool
unfolding canonical_policy text_eq
same_allocation_policy whitebox resin = text_eq (canonical_policy whitebox) (canonical_policy resin)

unfoldable pub same_list : List String → List String → Bool
same_list [] [] = true
same_list (x ∷ xs) (y ∷ ys) = str_eq x y && same_list xs ys
same_list _ _ = false

-- `str::to_lowercase`, the Unicode mapping.
module _ (to_lowercase : String → String) where
  abbrev pub route_entry : List ℕ → List ℕ → ProcessRouteRule → ProcessRouteSnapshot
  route_entry enabled live r =
      if has_port live r.target_port || not (has_port enabled r.target_port)
      then route_consistent r false
      else route_missing_on_resin r none false

  abbrev pub route_less : ProcessRouteSnapshot → ProcessRouteSnapshot → Bool
  route_less a b = str_ltb (to_lowercase (rule a).process) (to_lowercase (rule b).process)

  unfoldable pub merge_routes : List ProcessRouteRule → List ℕ → List ℕ → List ProcessRouteSnapshot
  unfolding sort_by
  merge_routes whitebox desired_enabled_ports live_ports =
      sort_by route_less (map (route_entry desired_enabled_ports live_ports) whitebox)

  unfoldable pub same_region_set : List String → List String → Bool
  unfolding normalized same_list
  same_region_set a b =
      same_list (map to_lowercase (normalized a)) (map to_lowercase (normalized b))

-- The last row of a name.
unfoldable pub index_rows :
    List ResinPlatformRuntime → Map ResinPlatformRuntime → Map ResinPlatformRuntime
unfolding insert
index_rows [] m = m
index_rows (rp ∷ rest) m = index_rows rest (insert rp.name rp m)

abbrev pub resin_by_name : List ResinPlatformRuntime → Map ResinPlatformRuntime
resin_by_name resin = index_rows resin []

abbrev pub whitebox_entry : PlatformStrategy → String → PlatformEntry
whitebox_entry ps id = record {
  platform_name = ps.platform_name;
  platform_id = id;
  b_class = Strategy.as_str ps.b_class;
  a_class = StrategyEngine.as_str ps.a_class;
  manual_nodes = ps.manual_nodes;
  subscriptions = ps.subscriptions;
  acknowledged = false;
}

abbrev pub runtime_only : Bool → ResinPlatformRuntime → StrategySnapshot
runtime_only whitebox_exists rp =
    divergent
      (record {
        platform_name = rp.name;
        platform_id = rp.id;
        b_class = "";
        a_class = if whitebox_exists then "subscription" else "";
        manual_nodes = [];
        subscriptions = [];
        acknowledged = false;
      })
      [] (normalized rp.region_filters) rp.allocation_policy none

abbrev pub is_seen : List PlatformStrategy → ResinPlatformRuntime → Bool
is_seen platforms rp = any (λ (ps : PlatformStrategy). str_eq ps.platform_name rp.name) platforms

module _ (to_lowercase : String → String) where
  abbrev pub merge_entry :
      PlatformStrategy → List String → Option ResinPlatformRuntime → StrategySnapshot
  merge_entry ps computed none = missing_on_resin (whitebox_entry ps "") (normalized computed) none
  merge_entry ps computed (some rp) =
      if same_region_set to_lowercase computed rp.region_filters
        && same_allocation_policy (Strategy.as_str ps.b_class) rp.allocation_policy
      then consistent (whitebox_entry ps rp.id) (normalized computed) rp.allocation_policy
      else divergent (whitebox_entry ps rp.id) (normalized computed) (normalized rp.region_filters)
          rp.allocation_policy none

  -- A platform without a computed region set falls back to its own list. The rows that are seen
  -- are those whose name is in the document, since every row is in the index.
  unfoldable pub merge_strategies :
      {Section : Type 0}
      → StrategyConfig Section
      → List ResinPlatformRuntime
      → Map (List String)
      → Bool
      → List StrategySnapshot
  unfolding same_region_set same_allocation_policy index_rows get normalized
  merge_strategies config resin computed_regions whitebox_exists =
      map
        (λ (ps : PlatformStrategy).
          merge_entry ps (unwrap_or (get ps.platform_name computed_regions) ps.regions)
            (get ps.platform_name (resin_by_name resin)))
        config.platforms
      ++ map (runtime_only whitebox_exists)
          (filter (λ (rp : ResinPlatformRuntime). not (is_seen config.platforms rp)) resin)

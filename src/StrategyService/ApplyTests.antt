-- ===== src/StrategyService/ApplyTests.antt =====
-- A Resin with one platform that agrees with the document, and one whose policy does not.
use egress_apikey.Prelude.{
  ℕ, ◌≡◌, refl, true, false, String, some, List, [], ◌∷◌, all, count, arith, ltb, All,
}
use mathlib.Core.Path.{subst}
use egress_apikey.Prelude.Results.{ok, err}
use egress_apikey.Prelude.Json.{ℤ, pos, negsuc, Json, str, bool, arr, obj, nil, cons, end, field}
use egress_apikey.Strategy.{prefer_low_latency}
use egress_apikey.StrategyEngine.{PlatformStrategy, region}
use egress_apikey.Snapshot.{PortMapping}
use egress_apikey.Snapshot.Merges.{
  ResinPlatformRuntime, merge_strategies, same_region_set, same_allocation_policy,
  parse_resin_platforms,
}
use egress_apikey.StrategyEngine.Regions.{compute_plan}
use egress_apikey.StrategyService.Edits.{Config, default_config}
use egress_apikey.StrategyService.Apply.{Call, Env, Report, is_patched, planned, apply}
use egress_apikey.StrategyService.InSync.{InSync}
use egress_apikey.StrategyService.Idle.{is_resin_write, Settled, apply-idle}
use egress_apikey.StrategyService.Green.{Lands, WritesBack, apply-Lands}
use egress_apikey.StrategyService.Reconcile.{compute_reconcile_plan}
use egress_apikey.StrategyService.Preview.{
  compute_reconcile_plan-quiet, compute_reconcile_plan-misses_policy,
}
use egress_apikey.Snapshot.Strategies.{is_consistent}
use egress_apikey.Prelude.Maps.{get}
use egress_apikey.Prelude.Sorting.{normalized}
use egress_apikey.StrategyEngine.Regions.{parse_nodes}
use egress_apikey.Orchestration.Floats.{hundredths}

abbrev entry : PlatformStrategy
entry = record {
  platform_name = "p";
  a_class = region;
  b_class = prefer_low_latency;
  manual_nodes = [];
  regions = "us" ∷ [];
  subscriptions = [];
  top_n = 10;
}

abbrev document : Config hundredths
document = record (default_config hundredths) {
  platforms = entry ∷ [];
  generation = 4;
  applied_generation = 3;
}

abbrev nodes : Json ℕ
nodes = arr (
    cons
      (obj (
        field "node_hash" (str "a")
          (field "region" (str "us") (field "has_outbound" (bool true) end))))
      nil)

abbrev runtime : String → ResinPlatformRuntime
runtime policy = record {
  id = "1";
  name = "p";
  region_filters = "us" ∷ [];
  allocation_policy = policy;
}

abbrev live : String → Json ℕ
live policy = arr (
    cons
      (obj (
        field "name" (str "p") (
          field "id" (str "1") (
            field "region_filters" (arr (cons (str "us") nil))
              (field "allocation_policy" (str policy) end)))))
      nil)

abbrev int : ℤ → ℕ
int (pos n) = n
int (negsuc n) = 0

abbrev env : Env hundredths
env = record {
  api = record {
    config = λ t. ok (some document);
    nodes = λ t. ok nodes;
    platforms = λ t. ok (live "latency");
    subscriptions = λ t. err "refused";
    created = λ t. ok tt;
    updated = λ t. ok tt;
    stored = λ t. ok tt;
    now = λ t. 7;
  };
  platform_id_for_name = λ v name. some "1";
  order = λ m. m;
  to_lowercase = λ s. s;
  from_int = int;
  num_max = 1000;
}

in_sync : InSync hundredths env document (live "latency") "p" ("us" ∷ [])
unfolding same_region_set same_allocation_policy parse_resin_platforms
in_sync = (("1", refl), runtime "latency", refl, refl, refl)

planned_test : planned hundredths env document nodes ≡ ("p", "us" ∷ []) ∷ []
unfolding compute_plan normalized parse_nodes
planned_test = refl

abbrev AgreesOn : Config hundredths → List (String × List String) → Type 0
AgreesOn config plan =
    All
      (λ (entry : String × List String).
        (s : List (Call hundredths)) (v : Json ℕ)
        → env.api.platforms s ≡ ok v
        → InSync hundredths env config v entry.0 entry.1)
      plan

settled : Settled hundredths env
unfolding compute_plan normalized parse_nodes
settled config nodes_v t u is_config is_nodes =
    let same : document ≡ config = cc in
    let same_nodes : nodes ≡ nodes_v = cc in
    subst (λ c. AgreesOn c (planned hundredths env c nodes_v)) same
      (subst (λ v. AgreesOn document (planned hundredths env document v)) same_nodes
        (
          λ s v is_live.
              let same_live : live "latency" ≡ v = cc in
              subst (λ w. InSync hundredths env document w "p" ("us" ∷ [])) same_live in_sync,
          tt,
        ))

apply-idle_example :
    (count is_resin_write (apply hundredths env []).1 ≡ 0)
    × ((rows : Report hundredths)
        → (apply hundredths env []).0 ≡ ok rows
        → all (is_patched hundredths) rows ≡ true)
apply-idle_example = apply-idle hundredths env settled []

apply-Lands_example : Lands hundredths env (WritesBack hundredths env) (apply hundredths env [])
apply-Lands_example = apply-Lands hundredths env []

abbrev mapped : PortMapping
mapped = record {
  port = 18080;
  protocol = "mixed";
  platform_name = "p";
  account = "";
  label = "";
  enabled = true;
  auth_required = false;
}

abbrev lower : String → String
lower s = s

compute_reconcile_plan-quiet_example :
    (compute_reconcile_plan lower ltb 1000 document
      (parse_nodes int nodes)
      (runtime "latency" ∷ [])
      []
      []).platforms
    ≡ []
unfolding compute_plan normalized parse_nodes merge_strategies
compute_reconcile_plan-quiet_example =
    compute_reconcile_plan-quiet lower ltb 1000 document (parse_nodes int nodes)
      (runtime "latency" ∷ []) [] [] true (λ n. ground arith) refl

compute_reconcile_plan-misses_policy_example :
    ((compute_reconcile_plan lower ltb 1000 document
        (parse_nodes int nodes)
        (runtime "balanced" ∷ [])
        []
        []).platforms
      ≡ [])
    × (all is_consistent (
          merge_strategies lower document
            (runtime "balanced" ∷ [])
            (compute_plan ltb 1000 document (parse_nodes int nodes))
            true)
        ≡ false)
unfolding compute_plan normalized parse_nodes same_region_set same_allocation_policy get
compute_reconcile_plan-misses_policy_example =
    compute_reconcile_plan-misses_policy lower ltb 1000 document (parse_nodes int nodes)
      (runtime "balanced" ∷ []) [] [] true entry (runtime "balanced") refl (λ n. ground arith) refl
      refl refl

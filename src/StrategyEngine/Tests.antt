-- ===== src/StrategyEngine/Tests.antt =====
-- Small documents, nodes in three states, and the responses that they come in.
use egress_apikey.Prelude.{
  ℕ, ◌≡◌, refl, Bool, true, false, ◌&&◌, String, Option, none, some, List, [], ◌∷◌, any, str_eq,
  ltb,
}
use egress_apikey.Prelude.Maps.{get}
use egress_apikey.Prelude.Sorting.{normalized}
use egress_apikey.Prelude.Json.{
  ℤ, pos, negsuc, Json, null, uint, str, arr, obj, nil, cons, end, field,
}
use egress_apikey.Strategy.{balanced}
use egress_apikey.StrategyEngine.{
  PlatformStrategy, AClassStrategy, manual, quality, subscription, NodeSummary, StrategyConfig,
  parse,
}
use egress_apikey.StrategyEngine.Regions.{parse_nodes, compute_plan, is_live}
use egress_apikey.StrategyEngine.Migration.{
  migrate_b_class_values, migrate_b_class_values_idempotent,
}
use egress_apikey.StrategyEngine.Plans.{compute_plan-live}

abbrev node : String → String → Bool → ℕ → Option ℕ → NodeSummary ℕ
node hash where_ outbound failures latency = record {
  node_hash = hash;
  region = where_;
  has_outbound = outbound;
  failure_count = pos failures;
  reference_latency_ms = latency;
  subscription_name = some "main";
}

abbrev nodes : List (NodeSummary ℕ)
nodes =
    node "a" "us" true 0 (some 90)
    ∷ node "b" "jp" true 0 (some 40)
    ∷ node "c" "jp" true 0 none
    ∷ node "d" "de" true 2 (some 10)
    ∷ node "e" "fr" false 0 (some 5)
    ∷ []

abbrev entry : String → AClassStrategy → PlatformStrategy
entry name a = record {
  platform_name = name;
  a_class = a;
  b_class = balanced;
  manual_nodes = "a" ∷ "d" ∷ [];
  regions = [];
  subscriptions = "main" ∷ [];
  top_n = 1;
}

abbrev config : StrategyConfig ℕ
config = record {
  version = 1;
  platforms = entry "p" subscription ∷ entry "q" quality ∷ entry "p" manual ∷ [];
  acknowledged = [];
  subscriptions = [];
  generation = 0;
  applied_generation = 0;
  last_apply_at = none;
  last_apply_error = none;
  updated_at = none;
  orchestration = none;
}

plan_test : compute_plan ltb 1000 config nodes ≡ ("p", "us" ∷ []) ∷ ("q", "jp" ∷ []) ∷ []
unfolding compute_plan normalized get
plan_test = refl

parse_test : parse " Quality " ≡ some quality
unfolding parse
parse_test = refl

abbrev int : ℤ → ℕ
int (pos n) = n
int (negsuc n) = 0

abbrev response : Json ℕ
response = obj (
    field "items"
      (arr (
        cons
          (obj (
            field "node_hash" (str "a") (
              field "failure_count" (uint 3) (
                field "tags" (arr (cons (obj (field "subscriptionName" (str "main") end)) nil))
                  end))))
          (cons null nil)))
      end)

parse_nodes_test :
    parse_nodes int response
    ≡ record {
      node_hash = "a";
      region = "";
      has_outbound = false;
      failure_count = pos 3;
      reference_latency_ms = none;
      subscription_name = some "main";
    }
      ∷ []
unfolding parse_nodes
parse_nodes_test = refl

abbrev legacy_document : Json ℕ
legacy_document = obj (
    field "version" (uint 1) (
      field "platforms"
        (arr (
          cons (obj (field "b_class" (str "Latency ") end))
            (cons (obj (field "b_class" (str "odd") end)) nil)))
        end))

migrated_test : migrate_b_class_values legacy_document ≡ (
  obj (
      field "version" (uint 1) (
        field "platforms"
          (arr (
            cons
              (obj (field "b_class" (str "PREFER_LOW_LATENCY") end))
              (cons (obj (field "b_class" (str "odd") end)) nil)))
          end)),
  true,
)
unfolding migrate_b_class_values
migrated_test = refl

migrate_b_class_values_idempotent_example :
    migrate_b_class_values (migrate_b_class_values legacy_document).0
    ≡ ((migrate_b_class_values legacy_document).0, false)
migrate_b_class_values_idempotent_example = migrate_b_class_values_idempotent legacy_document

abbrev settled_document : Json ℕ
settled_document =
    obj (field "platforms" (arr (cons (obj (field "b_class" (str "BALANCED") end)) nil)) end)

compute_plan-live_example :
    any (λ (n : NodeSummary ℕ). is_live n && str_eq "jp" n.region) nodes ≡ true
unfolding compute_plan normalized get
compute_plan-live_example = compute_plan-live ltb 1000 "q" config nodes "jp" refl refl

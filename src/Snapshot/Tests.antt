-- ===== src/Snapshot/Tests.antt =====
-- Small documents against small runtimes.
use egress_apikey.Prelude.{
  ℕ, ◌≡◌, refl, true, false, not, ◌&&◌, ◌||◌, String, none, [], ◌∷◌, any, str_eq, if◌then◌else◌,
}
use egress_apikey.StrategyEngine.{StrategyConfig, subscription}
use egress_apikey.Strategy.{balanced}
use egress_apikey.Prelude.Sorting.{lex_ltb}
use egress_apikey.Snapshot.Merges.{ResinPlatformRuntime, merge_strategies}
use egress_apikey.Snapshot.Subscriptions.{
  LiveSubscription, merge_subscriptions, shows_as, is_live, is_referenced,
  merge_subscriptions-shows,
}
use egress_apikey.Snapshot.Strategies.{shows, named_in, merge_strategies_complete}

-- A mapping of two spellings, as `to_lowercase` has it.
abbrev lower : String → String
lower s = if str_eq s "US" then "us" else s

abbrev config : StrategyConfig ℕ
config = record {
  version = 1;
  platforms =
      record {
        platform_name = "p";
        a_class = subscription;
        b_class = balanced;
        manual_nodes = [];
        regions = "us" ∷ [];
        subscriptions = [];
        top_n = 10;
      }
      ∷ [];
  acknowledged = [];
  subscriptions = [];
  generation = 1;
  applied_generation = 1;
  last_apply_at = none;
  last_apply_error = none;
  updated_at = none;
  orchestration = none;
}

abbrev runtime : String → ResinPlatformRuntime
runtime name = record {
  id = "1";
  name = name;
  region_filters = "us" ∷ [];
  allocation_policy = "balanced";
}

merge_strategies_complete_example :
    any (shows "x") (merge_strategies lower config (runtime "p" ∷ runtime "x" ∷ []) [] true) ≡ (
      named_in "x" config.platforms
      || any (λ (rp : ResinPlatformRuntime). str_eq rp.name "x") (runtime "p" ∷ runtime "x" ∷ []))
merge_strategies_complete_example =
    merge_strategies_complete lower config (runtime "p" ∷ runtime "x" ∷ []) [] true "x"

abbrev listed : LiveSubscription
listed = record { live_name = "main"; nodes = 3; healthy = 2 }

merge_subscriptions_test :
    merge_subscriptions (listed ∷ []) (("main", "q" ∷ "p" ∷ "q" ∷ []) ∷ ("gone", "p" ∷ []) ∷ [])
    ≡ record {
      name = "gone";
      node_count = 0;
      healthy_node_count = 0;
      consumed_by = "p" ∷ [];
      resolvable = false;
    }
      ∷ record {
        name = "main";
        node_count = 3;
        healthy_node_count = 2;
        consumed_by = "p" ∷ "q" ∷ [];
        resolvable = true;
      }
      ∷ []
unfolding merge_subscriptions lex_ltb
merge_subscriptions_test = refl

merge_subscriptions-shows_example :
    (any (shows_as true "gone") (merge_subscriptions (listed ∷ []) (("gone", "p" ∷ []) ∷ []))
      ≡ any (is_live "gone") (listed ∷ []))
    × (any (shows_as false "gone") (merge_subscriptions (listed ∷ []) (("gone", "p" ∷ []) ∷ [])) ≡ (
        not (any (is_live "gone") (listed ∷ []))
        && any (is_referenced "gone") (("gone", "p" ∷ []) ∷ [])))
merge_subscriptions-shows_example =
    merge_subscriptions-shows "gone" (listed ∷ []) (("gone", "p" ∷ []) ∷ [])

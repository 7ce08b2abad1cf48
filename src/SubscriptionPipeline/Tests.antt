-- ===== src/SubscriptionPipeline/Tests.antt =====
-- A queue with a spent, a waiting and a due event, and small environments.
use Prim.Native.String
use egress_apikey.Prelude.{
  ℕ, zero, suc, ◌≡◌, refl, ◌≤◌, ◌+◌, ◌*◌, ◌^◌, ◌⊎◌, Bool, true, false, String, none, some, List, [],
  ◌∷◌, map, count, arith, str_eq, if◌then◌else◌, eq_iff, leb, ◌||◌,
}
use egress_apikey.Prelude.Results.{ok}
use egress_apikey.Prelude.Json.{Json, str, uint, arr, obj, nil, cons, end, field}
use egress_apikey.StrategyEngine.{
  StrategyConfig, importing, establishing, converged, apply, platform,
}
use egress_apikey.SubscriptionPipeline.{
  EstablishEvent, written, already_present, failed, PipelineReport, QueueEntry, Queue, enqueue,
  due_count, retry_delay, retry_jitter, named, first_error,
}
use egress_apikey.SubscriptionPipeline.Calls.{
  Trace, Api, AppliedPlatform, record_subscription_phase, list_subscriptions, list_platforms,
  get_config, strategy_apply, create_platform_from_name,
}
use egress_apikey.SubscriptionPipeline.Steps.{new_entry, items_arr}
use egress_apikey.SubscriptionPipeline.Compensation.{compensate_failed_cascade}
use egress_apikey.SubscriptionPipeline.Cascade.{report, run_pipeline}
use egress_apikey.SubscriptionPipeline.Drain.{reschedule, drain}
use egress_apikey.SubscriptionPipeline.Queue.{IsQueue, enqueue-IsQueue}
use egress_apikey.SubscriptionPipeline.Drains.{drain-IsQueue, drain-duplicates}
use egress_apikey.SubscriptionPipeline.Budget.{reschedule-window, drive_all, drive_all-runs}
use egress_apikey.SubscriptionPipeline.Records.{
  Recorded, beats, first_failed, run_pipeline-Recorded,
}
use egress_apikey.SubscriptionPipeline.Deletions.{CompensatesOwn, run_pipeline-deletes_own}
use egress_apikey.SubscriptionPipeline.Quiet.{deleted}
use egress_apikey.SubscriptionPipeline.Rerun.{run_pipeline-settled}

abbrev event : String → EstablishEvent
event name = record { subscription = name; url = "https://x/y" }

abbrev entry : String → ℕ → ℕ → Bool → QueueEntry
entry name attempts at parked = record {
  subscription = name;
  url = "https://x/y";
  attempts = attempts;
  last_error = none;
  next_retry_at = at;
  failed = parked;
}

abbrev queue : Queue
queue = entry "a" 0 0 false ∷ entry "b" 5 0 true ∷ entry "c" 2 100 false ∷ []

counts_test : due_count 50 queue ≡ 1
unfolding due_count
counts_test = refl

delays_test : retry_delay 3 ≡ 16
unfolding retry_delay
delays_test = refl

jitter_test : retry_jitter "sub-a" 1000 ≡ 25
unfolding retry_jitter
jitter_test = refl

distinct :
    (a b c n : String)
    → str_eq a b ≡ false
    → str_eq a c ≡ false
    → str_eq b c ≡ false
    → (if str_eq a n then 1 else 0)
        + ((if str_eq b n then 1 else 0) + ((if str_eq c n then 1 else 0) + 0))
      ≤ 1
distinct a b c n h k l =
    ground (arith, eq_iff a n, eq_iff b n, eq_iff c n, eq_iff a b, eq_iff a c, eq_iff b c)

queue-IsQueue : IsQueue queue
queue-IsQueue = (
  λ name. distinct "a" "b" "c" name refl refl refl,
  omega arith,
  ((refl, omega arith), ((refl, omega arith), ((refl, omega arith), tt))),
)

-- The world counts the passes; a pass fails while it has run fewer than two.
abbrev passing : QueueEntry → ℕ → PipelineReport × ℕ
passing e w = (
  report e.subscription already_present already_present written written
      (if leb 2 w then written else failed "down"),
  w + 1,
)

abbrev alone : ℕ → List EstablishEvent
alone w = []

drain-IsQueue_example : IsQueue (drain passing alone 50 queue 0).0.1
drain-IsQueue_example = drain-IsQueue passing alone 50 queue 0 (λ _. refl) queue-IsQueue

drain-duplicates_example :
    count (named "a") (drain passing (λ _. event "a" ∷ []) 50 (entry "a" 0 0 false ∷ []) 0).0.1 ≡ 2
unfolding first_error
drain-duplicates_example =
    drain-duplicates passing (λ _. event "a" ∷ []) 50 (entry "a" 0 0 false) (event "a") 0 refl refl
      refl refl

drive_all-runs_example : (drive_all passing alone (10 ∷ 200 ∷ 400 ∷ []) queue 0).0.0 ≤ 5 * 3
drive_all-runs_example =
    drive_all-runs passing alone (10 ∷ 200 ∷ 400 ∷ []) queue 0 (λ _. refl) queue-IsQueue

reschedule-window_example :
    (1000 + 2 * 2 ^ 2 ≤ (reschedule 1000 (entry "c" 2 100 false) "down").next_retry_at)
    × ((reschedule 1000 (entry "c" 2 100 false) "down").next_retry_at ≤ 1000 + 2 * 2 ^ 2 + 29)
    × ((reschedule 1000 (entry "c" 2 100 false) "down").failed ≡ false)
reschedule-window_example =
    reschedule-window 1000 (entry "c" 2 100 false) "down" (omega arith) (omega arith)

-- Environments: Resin with the subscription, and a platform `s` or none; the apply patches or fails.
abbrev named_row : String → Json ℕ
named_row name =
    obj (field "id" (str "7") (field "name" (str name) (field "node_count" (uint 3) end)))

abbrev settled_config : StrategyConfig ℕ
settled_config = record {
  version = 1;
  platforms = new_entry "s" ∷ [];
  acknowledged = [];
  subscriptions = [];
  generation = 0;
  applied_generation = 0;
  last_apply_at = none;
  last_apply_error = none;
  updated_at = none;
  orchestration = none;
}

-- The platform is listed once it was created.
abbrev was_created : Trace ℕ ℕ → Bool
was_created [] = false
was_created (create_platform_from_name name ∷ t) = true
was_created (_ ∷ t) = was_created t

abbrev api : List AppliedPlatform → Bool → Api ℕ ℕ
api applied present = record {
  subscriptions = λ _. ok (arr (cons (named_row "s") nil));
  platforms = λ t. ok (arr (if present || was_created t then cons (named_row "s") nil else nil));
  config = λ _. ok settled_config;
  applied = λ _. ok applied;
  subscription_created = λ _. ok tt;
  platform_created = λ _. ok tt;
  platform_deleted = λ _. ok tt;
  config_stored = λ _. ok tt;
}

abbrev patched : AppliedPlatform
patched = record { platform = "s"; patched = true; reason = none }

abbrev refused : AppliedPlatform
refused = record { platform = "s"; patched = false; reason = some "PATCH 500" }

compensated_test :
    map
      (λ (d : String × Trace ℕ ℕ). d.0)
      (deleted (run_pipeline (api (refused ∷ []) false) "s" "https://x/y" []).1)
    ≡ "7" ∷ []
unfolding run_pipeline compensate_failed_cascade
compensated_test = refl

kept_test : deleted (run_pipeline (api (refused ∷ []) true) "s" "https://x/y" []).1 ≡ []
unfolding run_pipeline compensate_failed_cascade
kept_test = refl

run_pipeline-Recorded_example :
    Recorded "s"
      (first_failed beats (run_pipeline (api (refused ∷ []) false) "s" "https://x/y" []).0.steps)
      (run_pipeline (api (refused ∷ []) false) "s" "https://x/y" []).1
run_pipeline-Recorded_example =
    run_pipeline-Recorded (api (refused ∷ []) false) "s" "https://x/y" []

run_pipeline-deletes_own_example :
    (deleted (run_pipeline (api (refused ∷ []) false) "s" "https://x/y" []).1 ≡ [])
    ⊎ CompensatesOwn
        (api (refused ∷ []) false)
        "s"
        (run_pipeline (api (refused ∷ []) false) "s" "https://x/y" [])
        []
run_pipeline-deletes_own_example =
    run_pipeline-deletes_own (api (refused ∷ []) false) "s" "https://x/y" []

run_pipeline-settled_example : run_pipeline (api (patched ∷ []) true) "s" "https://x/y" [] ≡ (
  report "s" already_present already_present already_present already_present written,
  record_subscription_phase "s" converged none none
      ∷ strategy_apply
      ∷ record_subscription_phase "s" establishing (some apply) none
      ∷ list_platforms
      ∷ get_config
      ∷ record_subscription_phase "s" establishing (some platform) none
      ∷ list_subscriptions
      ∷ list_subscriptions
      ∷ record_subscription_phase "s" importing none none
      ∷ [],
)
unfolding items_arr
run_pipeline-settled_example =
    run_pipeline-settled (api (patched ∷ []) true) "s" "https://x/y" [] {row = named_row "s"}
      (λ _. refl) refl refl (λ _. refl) refl (λ _. refl) refl (λ _. refl) refl

-- A full queue, by 64 events of different names.
abbrev letters : ℕ → String
letters zero = "x"
letters (suc n) = String.◌++◌ "a" (letters n)

abbrev filled : ℕ → Queue
filled zero = []
filled (suc n) = (enqueue (event (letters n)) (filled n)).1

filled-IsQueue : (n : ℕ) → IsQueue (filled n)
filled-IsQueue zero = (λ name. omega arith, omega arith, tt)
filled-IsQueue (suc n) = enqueue-IsQueue (event (letters n)) (filled n) (filled-IsQueue n)

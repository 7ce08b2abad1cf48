-- ===== src/StrategyService/DocumentTests.antt =====
-- A document with two platforms and a status row, and a store that takes everything.
use egress_apikey.Prelude.{
  ℕ, ◌+◌, ◌%◌, ◌^◌, ◌≡◌, ◌≢◌, ◌↔◌, refl, String, none, some, List, [], ◌∷◌, str_eq, if◌then◌else◌,
}
use egress_apikey.Prelude.Results.{Result, ok}
use egress_apikey.Prelude.Upserts.{updated, entry_of}
use egress_apikey.Strategy.{balanced}
use egress_apikey.StrategyEngine.{
  PlatformStrategy, region, SubscriptionStatus, failed, converged, apply,
}
use egress_apikey.StrategyService
use egress_apikey.StrategyService.{record_subscription_phase}
use egress_apikey.StrategyService.Validation.{validate}
use egress_apikey.StrategyService.Bounds.{IsValid}
use egress_apikey.StrategyService.Accepted.{validate-IsValid}
use egress_apikey.StrategyService.Writes.{record_subscription_phase-poisons}
use egress_apikey.StrategyService.Edits.{
  set_regions, edit_entry, new_entry, platform_name_of, Config, get, set_platform,
}
use egress_apikey.StrategyService.Entries.{set_platform-entry}
use egress_apikey.StrategyService.Reach.{here, next, edit, Reach-IsValid}
use egress_apikey.Orchestration.Floats.{hundredths}

abbrev entry : String → List String → PlatformStrategy
entry name regions = record {
  platform_name = name;
  a_class = region;
  b_class = balanced;
  manual_nodes = [];
  regions = regions;
  subscriptions = [];
  top_n = 10;
}

abbrev document : List PlatformStrategy → List SubscriptionStatus → ℕ → Config hundredths
document platforms rows generation = record {
  version = 1;
  platforms = platforms;
  acknowledged = "p" ∷ [];
  subscriptions = rows;
  generation = generation;
  applied_generation = 4;
  last_apply_at = none;
  last_apply_error = none;
  updated_at = some 7;
  orchestration = none;
}

abbrev converged_row : SubscriptionStatus
converged_row = StrategyService.phase_row "s" converged none none

abbrev first : Config hundredths
first = document (entry "p" ("us" ∷ []) ∷ entry "q" [] ∷ []) (converged_row ∷ []) 4

abbrev second : Config hundredths
second = document (entry "p" ("jp" ∷ []) ∷ entry "q" [] ∷ []) (converged_row ∷ []) 5

abbrev third : Config hundredths
third = document (entry "p" ("jp" ∷ []) ∷ entry "q" [] ∷ []) [] 5

abbrev takes : Config hundredths → Result Unit
takes config = ok tt

duplicate_test :
    validate hundredths (document (entry "p" [] ∷ entry "p" [] ∷ []) [] 4)
    ≡ some "duplicate platform_name: p"
unfolding validate
duplicate_test = refl

validate-IsValid_example : (validate hundredths first ≡ none) ↔ IsValid hundredths first
validate-IsValid_example = validate-IsValid hundredths first

set_platform-entry_example :
    (before : Config hundredths) × (get hundredths (ok (some first)) takes 7 ≡ ok before)
    × (takes second ≡ ok tt)
    × (entry_of platform_name_of "p" second.platforms ≡ (
        if str_eq "p" "p"
        then some (
            updated
              (edit_entry (set_regions ("jp" ∷ [])))
              (new_entry "p" (set_regions ("jp" ∷ [])))
              (entry_of platform_name_of "p" before.platforms))
        else entry_of platform_name_of "p" before.platforms))
    × (second.version ≡ before.version)
    × (second.applied_generation ≡ before.applied_generation)
    × (second.last_apply_at ≡ before.last_apply_at)
    × (second.last_apply_error ≡ before.last_apply_error)
    × (second.updated_at ≡ some 7)
    × (second.subscriptions ≡ before.subscriptions)
    × (second.acknowledged ≡ before.acknowledged)
    × (second.orchestration ≡ before.orchestration)
    × (second.generation ≡ (before.generation + 1) % 2 ^ 64)
    × IsValid hundredths second
unfolding set_platform
set_platform-entry_example =
    set_platform-entry hundredths (ok (some first)) takes 7 "p" (set_regions ("jp" ∷ [])) "p" refl

Reach-IsValid_example : validate hundredths second ≡ none
unfolding validate set_platform
Reach-IsValid_example =
    Reach-IsValid hundredths {start = first} {end = second} refl
      (next here (edit takes 7 "p" (set_regions ("jp" ∷ [])) refl))

record_subscription_phase-poisons_example :
    validate hundredths (
      document first.platforms (StrategyService.phase_row "s" failed (some apply) (some "") ∷ []) 4)
    ≢ none
unfolding record_subscription_phase
record_subscription_phase-poisons_example =
    record_subscription_phase-poisons hundredths first takes "s" apply refl

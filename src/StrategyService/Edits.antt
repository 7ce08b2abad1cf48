-- ===== src/StrategyService/Edits.antt =====
-- crates/resin-core/src/strategy_service.rs: reading the strategy document, and the writes of the
-- desired state. Reading and storing the file, the clock and the parsed backup are parameters.
use egress_apikey.Prelude.{
  ℕ, ◌+◌, ◌%◌, ◌^◌, Bool, true, false, String, Option, none, some, unwrap_or, List, [], ◌∷◌, length,
  ltb,
}
use egress_apikey.Prelude.Texts.{concat}
use egress_apikey.Prelude.Results.{Result, ok, err}
use egress_apikey.Prelude.Upserts.{upsert}
use egress_apikey.Prelude.Json.{Json}
use egress_apikey.Strategy.{balanced}
use egress_apikey.StrategyEngine.{
  PlatformStrategy, AClassStrategy, manual, region, subscription, StrategyConfig,
}
use egress_apikey.StrategyEngine.Migration.{migrate_b_class_values}
use egress_apikey.StrategyService.{len, has_control, or_refuse, max_platform_name_len}
use egress_apikey.StrategyService.Validation.{
  bad_len, check_all, region_refusal, max_platforms, max_regions_per_platform,
  max_subscriptions_per_platform, validate,
}
use egress_apikey.Orchestration.{default_params}
use egress_apikey.Orchestration.Floats.{Float}
use egress_apikey.Orchestration.Evaluate.{OrchestrationSection}

-- A member of a list that an edit is given.
unfoldable pub member_refusal : String → String → Option String
unfolding len has_control concat
member_refusal what s =
    or_refuse (bad_len max_platform_name_len s)
      (concat (what ∷ " invalid (1..128 chars): " ∷ s ∷ []))
      (or_refuse (has_control s) (concat (what ∷ " contains control characters" ∷ [])) none)

abbrev members_refusal :
    ℕ → String → String → (String → Option String) → String → List String → Option String
members_refusal limit short_name plural each name members =
    or_refuse (bad_len max_platform_name_len name) "platform_name must be 1..128 chars" (
      or_refuse (ltb limit (length members))
        (concat (plural ∷ " list too long (max " ∷ short_name ∷ ")" ∷ [])) (check_all each members))

-- The three edits of the topology canvas.
pub data PlatformEdit : Type 0 where
  set_regions set_subscriptions set_manual_nodes : List String → PlatformEdit

unfoldable pub edit_refusal : String → PlatformEdit → Option String
unfolding len check_all region_refusal member_refusal concat
edit_refusal name (set_regions regions) =
    members_refusal max_regions_per_platform "64" "regions" region_refusal name regions
edit_refusal name (set_subscriptions subscriptions) =
    members_refusal max_subscriptions_per_platform "64" "subscriptions"
      (member_refusal "subscription name") name subscriptions
edit_refusal name (set_manual_nodes manual_nodes) =
    members_refusal max_platforms "256" "manual_nodes" (member_refusal "manual node hash") name
      manual_nodes

-- What an edit does to an entry that is there. Only the subscriptions set the class, too.
abbrev pub edit_entry : PlatformEdit → PlatformStrategy → PlatformStrategy
edit_entry (set_regions regions) ps = record ps { regions = regions }
edit_entry (set_subscriptions subscriptions) ps = record ps {
  subscriptions = subscriptions;
  a_class = subscription;
}
edit_entry (set_manual_nodes manual_nodes) ps = record ps { manual_nodes = manual_nodes }

abbrev blank_entry : String → AClassStrategy → PlatformStrategy
blank_entry name class = record {
  platform_name = name;
  a_class = class;
  b_class = balanced;
  manual_nodes = [];
  regions = [];
  subscriptions = [];
  top_n = 10;
}

-- And the entry that it makes otherwise.
abbrev pub new_entry : String → PlatformEdit → PlatformStrategy
new_entry name (set_regions regions) = record (blank_entry name region) { regions = regions }
new_entry name (set_subscriptions subscriptions) = record (blank_entry name subscription) {
  subscriptions = subscriptions;
}
new_entry name (set_manual_nodes manual_nodes) = record (blank_entry name manual) {
  manual_nodes = manual_nodes;
}

abbrev pub platform_name_of : PlatformStrategy → String
platform_name_of ps = ps.platform_name

module _ (F : Float) where
  abbrev pub Config : Type 0
  Config = StrategyConfig (OrchestrationSection F.Num)

  -- `StrategyConfig::default`
  abbrev pub default_config : Config
  default_config = record {
    version = 1;
    platforms = [];
    acknowledged = [];
    subscriptions = [];
    generation = 0;
    applied_generation = 0;
    last_apply_at = none;
    last_apply_error = none;
    updated_at = none;
    orchestration = none;
  }

  -- `OrchestrationSection::default`
  abbrev pub default_section : OrchestrationSection F.Num
  default_section = record {
    params = default_params F;
    platforms = [];
    signal_verdicts = [];
    suspect_streak = 0;
  }

  abbrev pub next_generation : Config → ℕ
  next_generation config = (config.generation + 1) % 2 ^ 64

  -- A missing file reads as the default document.
  abbrev pub or_default : Result (Option Config) → Result Config
  or_default (err e) = err e
  or_default (ok found) = ok (unwrap_or found default_config)

  -- `load` reads the file, `save` writes it, `now` is the clock.
  module _ (load : Result (Option Config)) (save : Config → Result Unit) (now : ℕ) where
    abbrev pub get : Result Config
    get = or_default load

    abbrev pub landed : Config → Result Unit → Result Config
    landed config (ok _) = ok config
    landed config (err e) = err e

    -- Validate, then write.
    abbrev pub checked : Config → Option String → Config → Result Config
    checked config (some message) next = err message
    checked config none next = landed next (save next)

    abbrev pub bumped : Config → Config
    bumped config = record config { generation = next_generation config; updated_at = some now }

    unfoldable pub store : Config → Result Config
    unfolding validate
    store config = checked config (validate F config) (bumped config)

    abbrev pub with_read : Result Config → (Config → Result Config) → Result Config
    with_read (err e) f = err e
    with_read (ok config) f = f config

    abbrev pub edit_platform : Option String → String → PlatformEdit → Result Config
    edit_platform (some message) name edit = err message
    edit_platform none name edit = with_read get λ config. store (record config {
      platforms =
          upsert platform_name_of name (edit_entry edit) (new_entry name edit) config.platforms;
    })

    -- `set_platform_regions`, `set_platform_subscriptions`, `set_platform_manual_nodes`
    unfoldable pub set_platform : String → PlatformEdit → Result Config
    unfolding edit_refusal store upsert
    set_platform name edit = edit_platform (edit_refusal name edit) name edit

    -- `parsed` is what reading and parsing the backup gives.
    unfoldable pub rollback : Result Config → Result Config
    unfolding store
    rollback parsed = with_read parsed store

    abbrev pub with_section :
        (OrchestrationSection F.Num → OrchestrationSection F.Num) → Config → Config
    with_section f config = record config {
      orchestration = some (f (unwrap_or config.orchestration default_section));
    }

    -- A status write: the generation stays.
    unfoldable pub orchestration_mutate :
        (OrchestrationSection F.Num → OrchestrationSection F.Num) → Result Config
    unfolding validate
    orchestration_mutate f =
        with_read get
          λ config. checked config (validate F (with_section f config)) (with_section f config)

    abbrev reported : Result Config → Result (Bool × Option Config)
    reported (ok config) = ok (true, some config)
    reported (err e) = err e

    abbrev migrated : Bool → Result Config → Result (Bool × Option Config)
    migrated false decoded = ok (false, none)
    migrated true (err e) = err (concat ("strategy config parse error: " ∷ e ∷ []))
    migrated true (ok config) = reported (checked config (validate F config) config)

    -- The raw file, none where there is none, and `serde_json::from_value`. The answer has the
    -- document that was written.
    abbrev pub migrate_raw :
        {Num : Type 0}
        → (Json Num → Result Config)
        → Result (Option (Json Num))
        → Result (Bool × Option Config)
    migrate_raw decode (err e) = err e
    migrate_raw decode (ok none) = ok (false, none)
    migrate_raw decode (ok (some raw)) =
        let (rewritten, changed) = migrate_b_class_values raw in migrated changed (decode rewritten)

    unfoldable pub migrate_b_class_values_once :
        {Num : Type 0}
        → (Json Num → Result Config)
        → Result (Option (Json Num))
        → Result (Bool × Option Config)
    unfolding validate migrate_b_class_values
    migrate_b_class_values_once decode raw = migrate_raw decode raw

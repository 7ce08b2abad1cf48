-- ===== src/StrategyEngine.antt =====
-- crates/resin-core/src/strategy_engine.rs: the strategy whitebox document, and the A-class plan.
-- `Num` stands for `f64`: the document and the plan only carry it and compare it.
pub mod Regions
pub mod Migration
pub mod Membership
pub mod Plans
mod Tests
use egress_apikey.Prelude.{ℕ, Bool, String, Option, none, some, List}
use egress_apikey.Prelude.Texts.{Text, codes, trim, text_eq, to_ascii_lowercase}
use egress_apikey.Prelude.Json.{ℤ}
use egress_apikey.Prelude.{if◌then◌else◌, map}
use egress_apikey.Strategy.{StrategyId}

pub data AClassStrategy : Type 0 where
  manual region quality subscription : AClassStrategy

abbrev pub as_str : AClassStrategy → String
as_str manual = "manual"
as_str region = "region"
as_str quality = "quality"
as_str subscription = "subscription"

-- `none` for `Err`.
unfoldable pub parse : String → Option AClassStrategy
unfolding trim text_eq
parse raw =
    let token = map to_ascii_lowercase (trim (codes raw)) in
    if text_eq token (codes "manual")
    then some manual
    else if text_eq token (codes "region")
    then some region
    else if text_eq token (codes "quality")
    then some quality
    else if text_eq token (codes "subscription")
    then some subscription
    else none

pub record PlatformStrategy : Type 0 where
  pub platform_name : String
  pub a_class : AClassStrategy
  pub b_class : StrategyId
  pub manual_nodes : List String
  pub regions : List String
  pub subscriptions : List String
  pub top_n : ℕ

abbrev pub default_quality_top_n : ℕ
default_quality_top_n = 10

pub data SubscriptionPhase : Type 0 where
  never importing establishing converged failed needs_approval : SubscriptionPhase

-- `import` is a word of the module language: `import_step`.
pub data EstablishStep : Type 0 where
  import_step resolve platform bind port apply : EstablishStep

pub record CascadeError : Type 0 where
  pub stage : EstablishStep
  pub reason : String
  pub rollback_actions : List String

pub record SubscriptionStatus : Type 0 where
  pub name : String
  pub phase : SubscriptionPhase
  pub stage : Option EstablishStep
  pub phase_error : Option String
  pub last_cascade_error : Option CascadeError

-- The orchestration section is opaque to this document: any type `Section`.
pub record StrategyConfig (Section : Type 0) : Type 0 where
  pub version : ℕ
  pub platforms : List PlatformStrategy
  pub acknowledged : List String
  pub subscriptions : List SubscriptionStatus
  pub generation : ℕ
  pub applied_generation : ℕ
  pub last_apply_at : Option ℕ
  pub last_apply_error : Option String
  pub updated_at : Option ℕ
  pub orchestration : Option Section

pub record NodeSummary (Num : Type 0) : Type 0 where
  pub node_hash : String
  pub region : String
  pub has_outbound : Bool
  pub failure_count : ℤ
  pub reference_latency_ms : Option Num
  pub subscription_name : Option String

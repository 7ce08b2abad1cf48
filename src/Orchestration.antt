-- ===== src/Orchestration.antt =====
-- crates/resin-core/src/orchestration.rs: the parameter pack, the per-platform rows and the section
-- of the strategy document that the controller works on. The evaluation is in the children.
pub mod Floats
pub mod Verdicts
pub mod Diff
pub mod Candidates
pub mod Evaluate
pub mod Cooldown
pub mod Windows
pub mod Rows
pub mod Gates
pub mod Switches
pub mod Tiers
mod Tests
use egress_apikey.Prelude.{ℕ, Bool, true, false, String, Option, none, List, []}
use egress_apikey.Prelude.Texts.{Bytes}
use Floats.{Float}

abbrev pub max_orch_platforms : ℕ
max_orch_platforms = 64

abbrev pub max_switch_log : ℕ
max_switch_log = 64

pub data Autonomy : Type 0 where
  auto suggest : Autonomy

pub data OrchPhase : Type 0 where
  healthy degraded observing cooldown : OrchPhase

pub record OrchBaseline : Type 0 where
  pub regions : List String

pub record OrchProposal : Type 0 where
  pub regions : List String
  pub reason : String
  pub diff : Bytes
  pub created_at : ℕ
  pub is_rollback : Bool

pub record PlatformOrch : Type 0 where
  pub platform_name : String
  pub phase : OrchPhase
  pub good_cycles : ℕ  -- u32
  pub cooldown_until : ℕ  -- u64
  pub cooldown_streak : ℕ  -- u32
  pub last_switch_at : ℕ  -- u64
  pub switch_log : List ℕ
  pub baseline : Option OrchBaseline
  pub pending : Option OrchProposal

-- `PlatformOrch::new`
unfoldable pub new : String → PlatformOrch
new platform_name = record {
  platform_name = platform_name;
  phase = healthy;
  good_cycles = 0;
  cooldown_until = 0;
  cooldown_streak = 0;
  last_switch_at = 0;
  switch_log = [];
  baseline = none;
  pending = none;
}

-- The ratios are floating-point numbers.
pub record OrchestrationParams (Num : Type 0) : Type 0 where
  pub enabled : Bool
  pub autonomy : Option Autonomy
  pub consecutive_failure_threshold : ℕ
  pub window_min_samples : ℕ
  pub failure_rate_threshold : Num
  pub slow_call_ms : ℕ
  pub improvement_ratio : Num
  pub error_ratio : Num
  pub observe_good_cycles : ℕ
  pub cooldown_base_secs : ℕ
  pub cooldown_max_secs : ℕ
  pub max_switch_ratio : Num
  pub min_switch_interval_secs : ℕ
  pub max_switches_per_hour : ℕ

-- `OrchestrationParams::default`, over the literals that it uses.
abbrev pub default_params : (F : Float) → OrchestrationParams F.Num
default_params F = record {
  enabled = false;
  autonomy = none;
  consecutive_failure_threshold = 3;
  window_min_samples = 8;
  failure_rate_threshold = F.percent_literal 50;
  slow_call_ms = 8000;
  improvement_ratio = F.percent_literal 120;
  error_ratio = F.percent_literal 200;
  observe_good_cycles = 3;
  cooldown_base_secs = 60;
  cooldown_max_secs = 1800;
  max_switch_ratio = F.percent_literal 34;
  min_switch_interval_secs = 300;
  max_switches_per_hour = 4;
}

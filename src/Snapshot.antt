-- ===== src/Snapshot.antt =====
-- crates/resin-core/src/snapshot.rs: the entries of the authoritative snapshot, the convergence
-- phase, the drift memory and the read-side acknowledgement.
pub mod Merges
pub mod Comparison
pub mod Strategies
pub mod Memory
pub mod Phases
pub mod Listeners
pub mod Subscriptions
mod Tests
use egress_apikey.Prelude.{
  ℕ, zero, Bool, true, false, ◌&&◌, ◌||◌, not, String, Option, none, some, is_some, List, [], ◌∷◌,
  map, any, ◌==◌, ltb, str_eq, if◌then◌else◌,
}
use egress_apikey.Prelude.Texts.{Text, Bytes, bytes, decimal, text_eq}
use egress_apikey.Prelude.Maps.{Map, get, insert, remove}

-- What the three kinds of platform entry share.
pub record PlatformEntry : Type 0 where
  pub platform_name : String
  pub platform_id : String
  pub b_class : String
  pub a_class : String
  pub manual_nodes : List String
  pub subscriptions : List String
  pub acknowledged : Bool

pub data StrategySnapshot : Type 0 where
  consistent :
      PlatformEntry → (regions : List String) (resin_allocation_policy : String) → StrategySnapshot
  divergent :
      PlatformEntry
      → (whitebox_regions resin_regions : List String) (resin_allocation_policy : String)
        (divergent_since : Option ℕ)
      → StrategySnapshot
  missing_on_resin :
      PlatformEntry → (regions : List String) (divergent_since : Option ℕ) → StrategySnapshot

abbrev pub entry : StrategySnapshot → PlatformEntry
entry (consistent e _ _) = e
entry (divergent e _ _ _ _) = e
entry (missing_on_resin e _ _) = e

abbrev pub platform_name : StrategySnapshot → String
platform_name s = (entry s).platform_name

abbrev pub with_acknowledged : Bool → StrategySnapshot → StrategySnapshot
with_acknowledged flag (consistent e r p) = consistent (record e { acknowledged = flag }) r p
with_acknowledged flag (divergent e w r p s) = divergent (record e { acknowledged = flag }) w r p s
with_acknowledged flag (missing_on_resin e r s) =
    missing_on_resin (record e { acknowledged = flag }) r s

-- `db::PortMapping`
pub record PortMapping : Type 0 where
  pub port : ℕ  -- u16
  pub protocol : String
  pub platform_name : String
  pub account : String
  pub label : String
  pub enabled : Bool
  pub auth_required : Bool

-- A missing port is an enabled one: the source leaves its `enabled` out.
pub data PortSnapshot : Type 0 where
  port_consistent : PortMapping → (acknowledged : Bool) → PortSnapshot
  port_missing_on_resin :
      PortMapping → (divergent_since : Option ℕ) (acknowledged : Bool) → PortSnapshot

abbrev pub mapping : PortSnapshot → PortMapping
mapping (port_consistent m _) = m
mapping (port_missing_on_resin m _ _) = m

abbrev pub with_port_acknowledged : Bool → PortSnapshot → PortSnapshot
with_port_acknowledged flag (port_consistent m _) = port_consistent m flag
with_port_acknowledged flag (port_missing_on_resin m s _) = port_missing_on_resin m s flag

pub record ProcessRouteRule : Type 0 where
  pub process : String
  pub target_port : ℕ  -- u16

pub data ProcessRouteSnapshot : Type 0 where
  route_consistent : ProcessRouteRule → (acknowledged : Bool) → ProcessRouteSnapshot
  route_missing_on_resin :
      ProcessRouteRule → (divergent_since : Option ℕ) (acknowledged : Bool) → ProcessRouteSnapshot

abbrev pub rule : ProcessRouteSnapshot → ProcessRouteRule
rule (route_consistent r _) = r
rule (route_missing_on_resin r _ _) = r

pub data ConvergePhase : Type 0 where
  never_applied pending_apply apply_failed converged drifted unknown : ConvergePhase

unfoldable pub derive_converge_phase : ℕ → ℕ → Option String → Bool → Bool → ConvergePhase
derive_converge_phase generation applied_generation last_apply_error resin_reachable
      unacknowledged_drift =
    if generation == 0
    then never_applied
    else if not resin_reachable
    then unknown
    else if ltb applied_generation generation
    then (if is_some last_apply_error then apply_failed else pending_apply)
    else if unacknowledged_drift
    then drifted
    else converged

abbrev pub DriftMemory : Type 0
DriftMemory = Map ℕ

-- `entry(key).or_insert(now)`
abbrev pub or_insert : String → ℕ → Option ℕ → DriftMemory → DriftMemory
or_insert key now (some since) memory = memory
or_insert key now none memory = insert key now memory

unfoldable pub observe : ℕ → String × Bool → DriftMemory → DriftMemory
unfolding get insert remove
observe now (key, drifting) memory =
    if drifting then or_insert key now (get key memory) memory else remove key memory

unfoldable pub advance_drift_memory : DriftMemory → List (String × Bool) → ℕ → DriftMemory
unfolding observe
advance_drift_memory memory [] now = memory
advance_drift_memory memory (e ∷ entries) now =
    advance_drift_memory (observe now e memory) entries now

unfoldable pub divergent_since_for : DriftMemory → String → Option ℕ
unfolding get
divergent_since_for memory key = get key memory

unfoldable pub is_acknowledged : List String → String → Bool
is_acknowledged acknowledged entity_key = any (λ a. str_eq a entity_key) acknowledged

abbrev pub is_empty : List String → Bool
is_empty [] = true
is_empty (x ∷ xs) = false

unfoldable pub stamp_platform_acknowledged :
    List StrategySnapshot → List String → List StrategySnapshot
unfolding is_acknowledged
stamp_platform_acknowledged platforms acknowledged =
    if is_empty acknowledged
    then platforms
    else map (λ p. with_acknowledged (is_acknowledged acknowledged (platform_name p)) p) platforms

-- The key of a port is its decimal numeral.
unfoldable pub stamp_port_acknowledged : List PortSnapshot → List String → List PortSnapshot
unfolding decimal bytes text_eq
stamp_port_acknowledged ports acknowledged =
    if is_empty acknowledged
    then ports
    else map
        (λ p.
          with_port_acknowledged
            (any (λ a. text_eq (bytes a) (decimal (mapping p).port)) acknowledged) p)
        ports

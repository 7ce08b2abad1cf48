-- ===== src/StrategyService/Reconcile.antt =====
-- crates/resin-core/src/strategy_service.rs: the preview of a reconcile pass, its memory of port
-- assertions, and the pass itself.
use egress_apikey.Prelude.{
  ℕ, ◌-◌, Bool, true, false, not, ◌&&◌, String, Option, none, some, unwrap_or, List, [], ◌∷◌, map,
  filter, find, filter_map, ltb, leb, ◌==◌, str_eq, if◌then◌else◌,
}
use egress_apikey.Prelude.Runs.{Run, pure, ◌>>=◌}
use egress_apikey.Prelude.Texts.{concat}
use egress_apikey.Prelude.Results.{Result, ok, err}
use egress_apikey.Prelude.SortBy.{sort_by}
use egress_apikey.Prelude.Maps.{get}
use egress_apikey.Prelude.Json
use egress_apikey.Prelude.Json.{Json, as_u64}
use egress_apikey.StrategyEngine.{PlatformStrategy, NodeSummary, StrategyConfig}
use egress_apikey.StrategyEngine.Regions.{compute_plan}
use egress_apikey.Snapshot.{PortMapping}
use egress_apikey.Snapshot.Merges.{ResinPlatformRuntime, same_region_set, has_port}
use egress_apikey.SubscriptionPipeline.Steps.{items_arr}
use egress_apikey.StrategyService.Apply.{Call, Env, Report, apply}
use egress_apikey.Orchestration.Floats.{Float}

pub record ReconcilePlanPlatform : Type 0 where
  pub platform : String
  pub desired_regions : List String
  pub live_regions : List String
  pub action : String

pub record ReconcilePlanPort : Type 0 where
  pub port : ℕ
  pub platform : String
  pub action : String

pub record ReconcilePlan : Type 0 where
  pub platforms : List ReconcilePlanPlatform
  pub ports : List ReconcilePlanPort

abbrev pub no_rows : {A : Type 0} → List A → Bool
no_rows [] = true
no_rows (x ∷ xs) = false

-- `ReconcilePlan::is_empty`
abbrev pub plan_is_empty : ReconcilePlan → Bool
plan_is_empty plan = no_rows plan.platforms && no_rows plan.ports

-- `port -> Unix seconds of the last reconcile assertion`
abbrev pub ReconcileMemory : Type 0
ReconcileMemory = ℕ → Option ℕ

abbrev pub reconcile_port_ttl_secs : ℕ
reconcile_port_ttl_secs = 86400

abbrev pub is_due : ℕ → Option ℕ → Bool
is_due now none = true
is_due now (some ts) = leb reconcile_port_ttl_secs (now - ts)

abbrev pub wants_listener : List ℕ → PortMapping → Bool
wants_listener live_ports m = m.enabled && not (has_port live_ports m.port)

unfoldable pub ports_to_assert : ReconcileMemory → List PortMapping → List ℕ → ℕ → List PortMapping
ports_to_assert last desired live_ports now =
    filter (λ (m : PortMapping). is_due now (last m.port))
      (filter (wants_listener live_ports) desired)

unfoldable pub stamp_asserted : ReconcileMemory → ℕ → ℕ → ReconcileMemory
stamp_asserted last port now p = if p == port then some now else last p

-- `dedup` of a sorted list of ports.
unfoldable pub dedup_ports : List ℕ → List ℕ
dedup_ports [] = []
dedup_ports (p ∷ []) = p ∷ []
dedup_ports (p ∷ q ∷ ps) = let rest = dedup_ports (q ∷ ps) in if p == q then rest else p ∷ rest

abbrev pub port_of : {Num : Type 0} → Json Num → Option ℕ
port_of ep = Json.◌>>=◌ (Json.get "port" ep) as_u64

unfoldable pub endpoint_live_ports : {Num : Type 0} → Json Num → List ℕ
unfolding items_arr sort_by dedup_ports
endpoint_live_ports existing =
    dedup_ports (sort_by ltb (filter (λ p. leb p 65535) (filter_map port_of (items_arr existing))))

abbrev pub first_row : String → List ResinPlatformRuntime → Option ResinPlatformRuntime
first_row name live = find (λ (rp : ResinPlatformRuntime). str_eq rp.name name) live

module _ (to_lowercase : String → String) where
  -- What the preview says of one platform of the document; nothing if its regions agree.
  abbrev pub preview_platform :
      String → List String → Option ResinPlatformRuntime → Option ReconcilePlanPlatform
  preview_platform name desired none = some (record {
    platform = name;
    desired_regions = desired;
    live_regions = [];
    action = "create_platform";
  })
  preview_platform name desired (some rp) =
      if same_region_set to_lowercase desired rp.region_filters
      then none
      else some (record {
        platform = name;
        desired_regions = desired;
        live_regions = rp.region_filters;
        action = "patch_regions";
      })

  abbrev pub preview_port : PortMapping → ReconcilePlanPort
  preview_port m = record { port = m.port; platform = m.platform_name; action = "create_endpoint" }

  -- The order of `f64` and `f64::MAX`.
  module _ {Num : Type 0} (less : Num → Num → Bool) (num_max : Num) where
    unfoldable pub compute_reconcile_plan :
        {Section : Type 0}
        → StrategyConfig Section
        → List (NodeSummary Num)
        → List ResinPlatformRuntime
        → List ℕ
        → List PortMapping
        → ReconcilePlan
    unfolding compute_plan get same_region_set
    compute_reconcile_plan config nodes live_platforms live_ports desired_ports = record {
      platforms =
          filter_map
            (λ (ps : PlatformStrategy).
              preview_platform ps.platform_name
                (unwrap_or (get ps.platform_name (compute_plan less num_max config nodes))
                  ps.regions)
                (first_row ps.platform_name live_platforms))
            config.platforms;
      ports = map preview_port (filter (wants_listener live_ports) desired_ports);
    }

pub record ReconcilePortsOutcome : Type 0 where
  pub restored : List ℕ
  pub skipped : ℕ

module _ (F : Float) (env : Env F) where
  pub record ReconcileReport : Type 0 where
    pub strategy : Report F
    pub ports_restored : List ℕ
    pub ports_skipped : ℕ

  abbrev pub report_of : Report F → Result ReconcilePortsOutcome → Result ReconcileReport
  report_of strategy (err e) =
      err (concat ("reconcile: port restore failed after strategy apply: " ∷ e ∷ []))
  report_of strategy (ok ports) = ok (record {
    strategy = strategy;
    ports_restored = ports.restored;
    ports_skipped = ports.skipped;
  })

  abbrev pub then_ports :
      Run (Call F) (Result ReconcilePortsOutcome)
      → Result (Report F)
      → Run (Call F) (Result ReconcileReport)
  then_ports restore_ports (err e) = pure (err e)
  then_ports restore_ports (ok strategy) = do ports ← restore_ports; pure (report_of strategy ports)

  -- The strategy first, then the ports, which the caller restores.
  unfoldable pub reconcile :
      Run (Call F) (Result ReconcilePortsOutcome) → Run (Call F) (Result ReconcileReport)
  unfolding apply
  reconcile restore_ports = do strategy ← apply F env; then_ports restore_ports strategy

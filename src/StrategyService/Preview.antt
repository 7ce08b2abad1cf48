-- ===== src/StrategyService/Preview.antt =====
-- The preview of strategy_service.rs beside the snapshot, and the memory of asserted ports.
use egress_apikey.Prelude.{
  ℕ, ◌+◌, ◌≤◌, ◌≡◌, refl, sym, ap, ◌∙◌, Bool, true, false, not, ◌&&◌, String, Option, none, some,
  unwrap_or, List, [], ◌∷◌, ◌++◌, map, filter_map, all, any, count, filter, leb, ◌==◌, str_eq,
  arith, Bool-cases, inl, inr,
}
use mathlib.Core.Bool.{false≢true}
use egress_apikey.Prelude.Upserts.{Distinct}
use egress_apikey.Prelude.Maps.{Map, get, insert, get-insert}
use egress_apikey.Strategy
use egress_apikey.StrategyEngine.{PlatformStrategy, NodeSummary, StrategyConfig}
use egress_apikey.StrategyEngine.Regions.{compute_plan}
use egress_apikey.Snapshot.{PortMapping, StrategySnapshot}
use egress_apikey.Snapshot.Merges.{
  ResinPlatformRuntime, same_region_set, same_allocation_policy, index_rows, resin_by_name,
  merge_entry, merge_strategies, has_port,
}
use egress_apikey.Snapshot.Strategies.{is_consistent}
use egress_apikey.StrategyService.Reconcile.{
  ReconcilePlan, ReconcileMemory, ports_to_assert, stamp_asserted, first_row, preview_platform,
  compute_reconcile_plan,
}

abbrev pub on_port : ℕ → PortMapping → Bool
on_port p m = m.port == p

any-filter :
    {A : Type 0} (p q : A → Bool) (xs : List A) → any p (filter q xs) ≡ any (λ x. p x && q x) xs
any-filter p q [] = refl
any-filter p q (x ∷ xs) = ground (arith, any-filter p q xs)

-- A port that was stamped at `t` is asserted again exactly when some enabled mapping has it, Resin
-- does not listen on it, and a day has passed since.
pub ports_to_assert-stamped :
    (last : ReconcileMemory) (port t now : ℕ) (desired : List PortMapping) (live_ports : List ℕ)
    → any (on_port port) (ports_to_assert (stamp_asserted last port t) desired live_ports now) ≡ (
        (leb (t + 86400) now)
        && (not (has_port live_ports port)
            && any (λ (m : PortMapping). on_port port m && m.enabled) desired))
unfolding ports_to_assert stamp_asserted
ports_to_assert-stamped last port t now [] live_ports = ground arith
ports_to_assert-stamped last port t now (m ∷ desired) live_ports = ground (
  arith,
  ports_to_assert-stamped last port t now desired live_ports,
  λ (p : m.port ≡ port). ap (has_port live_ports) p,
)

-- The index finds the first row, where no two rows have one name.
absent :
    (n : String) (rows : List ResinPlatformRuntime)
    → count (λ (rp : ResinPlatformRuntime). str_eq rp.name n) rows ≡ 0
    → first_row n rows ≡ none
absent n [] h = refl
absent n (rp ∷ rows) h = ground (arith, absent n rows)

both_true : (a b : Bool) → (a && b) ≡ true → (a ≡ true) × (b ≡ true)
both_true a b h = ground arith

abbrev or_else : {A : Type 0} → Option A → Option A → Option A
or_else none o = o
or_else (some a) o = some a

or_else-none : {A : Type 0} (o : Option A) → or_else o none ≡ o
or_else-none none = refl
or_else-none (some a) = refl

get-index_rows :
    (n : String) (rows : List ResinPlatformRuntime) (m : Map ResinPlatformRuntime)
    → count (λ (rp : ResinPlatformRuntime). str_eq rp.name n) rows ≤ 1
    → get n (index_rows rows m) ≡ or_else (first_row n rows) (get n m)
unfolding index_rows
get-index_rows n [] m h = refl
get-index_rows n (rp ∷ rows) m h =
    let rest = get-index_rows n rows (insert rp.name rp m) (ground arith) in
    let here = get-insert rp.name n rp m in
    elim (Bool-cases (str_eq rp.name n)) [
      | inl e ↦ rest ∙ rw (absent n rows (ground arith)) (here ∙ rw e refl)
      | inr e ↦ rest ∙ rw e (ap (or_else (first_row n rows)) (here ∙ rw e refl))
    ]

indexed :
    (n : String) (resin : List ResinPlatformRuntime)
    → Distinct (λ (rp : ResinPlatformRuntime). rp.name) resin
    → get n (resin_by_name resin) ≡ first_row n resin
unfolding get
indexed n resin distinct = get-index_rows n resin [] (distinct n) ∙ or_else-none (first_row n resin)

all-append_left :
    {A : Type 0} (p : A → Bool) (xs ys : List A) → all p (xs ++ ys) ≡ true → all p xs ≡ true
all-append_left p [] ys h = refl
all-append_left p (x ∷ xs) ys h = ground (arith, all-append_left p xs ys)

-- An entry that the snapshot shows as consistent is not in the preview.
module _ (to_lowercase : String → String) where
  entry_quiet :
      (ps : PlatformStrategy) (computed : List String) (o : Option ResinPlatformRuntime)
      → is_consistent (merge_entry to_lowercase ps computed o) ≡ true
      → preview_platform to_lowercase ps.platform_name computed o ≡ none
  entry_quiet ps computed none h = cc
  entry_quiet ps computed (some rp) h =
      elim (Bool-cases (same_region_set to_lowercase computed rp.region_filters)) [
        | inl same ↦ rw same
        | inr differ ↦
            let never : is_consistent (merge_entry to_lowercase ps computed (some rp)) ≡ false =
              rw differ refl in
            absurd (false≢true (sym never ∙ h))
      ]

  row_quiet :
      (ps : PlatformStrategy) (computed : List String) (resin : List ResinPlatformRuntime)
      → Distinct (λ (rp : ResinPlatformRuntime). rp.name) resin
      → is_consistent
          (merge_entry to_lowercase ps computed (get ps.platform_name (resin_by_name resin)))
        ≡ true
      → preview_platform to_lowercase ps.platform_name computed (first_row ps.platform_name resin)
        ≡ none
  row_quiet ps computed resin distinct h =
      let first = indexed ps.platform_name resin distinct in
      entry_quiet ps computed (first_row ps.platform_name resin)
        (ap (λ o. is_consistent (merge_entry to_lowercase ps computed o)) (sym first) ∙ h)

  rows_quiet :
      (computed : PlatformStrategy → List String) (resin : List ResinPlatformRuntime)
      (platforms : List PlatformStrategy)
      → Distinct (λ (rp : ResinPlatformRuntime). rp.name) resin
      → all is_consistent (
          map
            (λ (ps : PlatformStrategy).
              merge_entry to_lowercase ps
                (computed ps)
                (get ps.platform_name (resin_by_name resin)))
            platforms)
        ≡ true
      → filter_map
          (λ (ps : PlatformStrategy).
            preview_platform to_lowercase ps.platform_name
              (computed ps)
              (first_row ps.platform_name resin))
          platforms
        ≡ []
  rows_quiet computed resin [] distinct h = refl
  rows_quiet computed resin (ps ∷ platforms) distinct h =
      let (here, later) = both_true _ _ h in
      rw (row_quiet ps (computed ps) resin distinct here)
        (rows_quiet computed resin platforms distinct later)

  -- One platform whose regions agree and whose policy does not.
  policy_only :
      (computed : PlatformStrategy → List String) (resin : List ResinPlatformRuntime)
      (others : List StrategySnapshot) (platforms : List PlatformStrategy) (ps : PlatformStrategy)
      (rp : ResinPlatformRuntime)
      → platforms ≡ ps ∷ []
      → Distinct (λ (rp : ResinPlatformRuntime). rp.name) resin
      → first_row ps.platform_name resin ≡ some rp
      → same_region_set to_lowercase (computed ps) rp.region_filters ≡ true
      → same_allocation_policy (Strategy.as_str ps.b_class) rp.allocation_policy ≡ false
      → (filter_map
            (λ (ps : PlatformStrategy).
              preview_platform to_lowercase ps.platform_name
                (computed ps)
                (first_row ps.platform_name resin))
            platforms
          ≡ [])
        × (all is_consistent (
              map
                (λ (ps : PlatformStrategy).
                  merge_entry to_lowercase ps
                    (computed ps)
                    (get ps.platform_name (resin_by_name resin)))
                platforms
              ++ others)
            ≡ false)
  policy_only computed resin others platforms ps rp one distinct found regions policy = (
    rw one (rw found (rw regions refl)),
    rw one (rw (indexed ps.platform_name resin distinct ∙ found) (rw regions (rw policy refl))),
  )

  module _ {Num Section : Type 0} (less : Num → Num → Bool) (num_max : Num)
      (config : StrategyConfig Section) (nodes : List (NodeSummary Num))
      (resin : List ResinPlatformRuntime) (live_ports : List ℕ) (desired_ports : List PortMapping)
      (whitebox_exists : Bool) where
    abbrev preview : ReconcilePlan
    preview =
        compute_reconcile_plan to_lowercase less num_max config nodes resin live_ports desired_ports

    abbrev shown : List StrategySnapshot
    shown =
        merge_strategies to_lowercase config resin (compute_plan less num_max config nodes)
          whitebox_exists

    abbrev computed_for : PlatformStrategy → List String
    computed_for ps =
        unwrap_or (get ps.platform_name (compute_plan less num_max config nodes)) ps.regions

    -- Where Resin has no two platforms of one name and the snapshot shows every platform as
    -- consistent, the preview lists no platform.
    pub compute_reconcile_plan-quiet :
        Distinct (λ (rp : ResinPlatformRuntime). rp.name) resin
        → all is_consistent shown ≡ true
        → preview.platforms ≡ []
    unfolding compute_reconcile_plan merge_strategies
    compute_reconcile_plan-quiet distinct h =
        rows_quiet computed_for resin config.platforms distinct (
          all-append_left is_consistent
            (map
              (λ (ps : PlatformStrategy).
                merge_entry to_lowercase ps (computed_for ps)
                  (get ps.platform_name (resin_by_name resin)))
              config.platforms)
            _ h)

    -- But not the other way round: the only platform of a document, if its regions agree and its
    -- allocation policy does not, is missing from the preview, and the snapshot does not show it as
    -- consistent.
    pub compute_reconcile_plan-misses_policy :
        (ps : PlatformStrategy) (rp : ResinPlatformRuntime)
        → config.platforms ≡ ps ∷ []
        → Distinct (λ (rp : ResinPlatformRuntime). rp.name) resin
        → first_row ps.platform_name resin ≡ some rp
        → same_region_set to_lowercase (computed_for ps) rp.region_filters ≡ true
        → same_allocation_policy (Strategy.as_str ps.b_class) rp.allocation_policy ≡ false
        → (preview.platforms ≡ []) × (all is_consistent shown ≡ false)
    unfolding compute_reconcile_plan merge_strategies
    compute_reconcile_plan-misses_policy ps rp one distinct found regions policy =
        policy_only computed_for resin _ config.platforms ps rp one distinct found regions policy

-- ===== src/Orchestration/Candidates.antt =====
-- `aggregate` and `pick_candidate` of orchestration.rs. `metrics` is the hash map of one platform,
-- in its iteration order.
use egress_apikey.Prelude.{
  ℕ, ◌+◌, ◌%◌, ◌^◌, Bool, not, ◌&&◌, ◌||◌, String, str_eq, Option, none, some, List, [], ◌∷◌, ltb,
  ◌==◌, if◌then◌else◌, any, filter,
}
use egress_apikey.Prelude.Maps.{Map, get}
use egress_apikey.Orchestration.{OrchestrationParams}
use egress_apikey.Orchestration.Floats.{Float}

pub record RegionMetric (Num : Type 0) : Type 0 where
  pub ok_share : Num
  pub err_share : Num
  pub node_count : ℕ  -- u32

module _ (F : Float) where
  open F use {Num, of_ℕ, add, mul, div, ge, gt}

  pub record Sums : Type 0 where
    pub nodes : ℕ
    pub ok : Num
    pub err : Num

  abbrev pub add_region : Map (RegionMetric Num) → Sums → String → Sums
  add_region metrics s r = elim (get r metrics) [
    | none ↦ s
    | some m ↦ record {
      nodes = (s.nodes + m.node_count) % 2 ^ 32;
      ok = add s.ok (mul m.ok_share (of_ℕ m.node_count));
      err = add s.err (mul m.err_share (of_ℕ m.node_count));
    }
  ]

  sum_regions : Map (RegionMetric Num) → Sums → List String → Sums
  sum_regions metrics s [] = s
  sum_regions metrics s (r ∷ rs) = sum_regions metrics (add_region metrics s r) rs

  unfoldable pub aggregate : List String → Map (RegionMetric Num) → Num × Num
  unfolding sum_regions
  aggregate regions metrics =
      let s = sum_regions metrics (record { nodes = 0; ok = of_ℕ 0; err = of_ℕ 0 }) regions in
      if s.nodes == 0 then (of_ℕ 0, of_ℕ 1) else (div s.ok (of_ℕ s.nodes), div s.err (of_ℕ s.nodes))

  abbrev pub current_ok_share : List String → Map (RegionMetric Num) → Num
  current_ok_share regions metrics = (aggregate regions metrics).0

  abbrev pub current_err_share : List String → Map (RegionMetric Num) → Num
  current_err_share regions metrics = (aggregate regions metrics).1

  -- The two filters: not in use, and strictly better by the tolerance band.
  unfoldable pub qualifies :
      List String → OrchestrationParams Num → Num → Num → String × RegionMetric Num → Bool
  qualifies current_regions params cur_ok cur_err (r, m) =
      not (any (str_eq r) current_regions)
      && (ltb 0 m.node_count
          && (ge m.ok_share (mul cur_ok params.improvement_ratio)
              || (gt cur_err (of_ℕ 0) && ge cur_err (mul m.err_share params.error_ratio))))

  -- `max_by(partial_cmp)`: the last of the greatest.
  unfoldable pub best_of :
      String × RegionMetric Num → List (String × RegionMetric Num) → String × RegionMetric Num
  best_of best [] = best
  best_of best (c ∷ cs) = best_of (if gt best.1.ok_share c.1.ok_share then best else c) cs

  abbrev pub max_by_ok : List (String × RegionMetric Num) → Option (String × RegionMetric Num)
  max_by_ok [] = none
  max_by_ok (c ∷ cs) = some (best_of c cs)

  unfoldable pub pick_candidate :
      List String
      → Option (Map (RegionMetric Num))
      → OrchestrationParams Num
      → Option (String × RegionMetric Num)
  unfolding qualifies best_of
  pick_candidate current_regions none params = none
  pick_candidate current_regions (some metrics) params =
      let cur_ok = current_ok_share current_regions metrics in
      let cur_err = current_err_share current_regions metrics in
      max_by_ok (filter (qualifies current_regions params cur_ok cur_err) metrics)

-- ===== src/Orchestration/Gates.antt =====
-- The switch gates of a pass: the per-round cap, the hourly budget and what each switch rests on.
use egress_apikey.Prelude.{
  ℕ, ◌+◌, ◌-◌, ◌≤◌, max, ◌≡◌, Bool, true, false, String, Option, none, some, List, [], ◌∷◌, ◌++◌,
  arith, unwrap_or, if_elim, count, count-append, count-drop, length,
}
use egress_apikey.Prelude.Maps.{get}
use egress_apikey.Orchestration.{
  OrchPhase, healthy, degraded, observing, cooldown, OrchProposal, PlatformOrch,
  OrchestrationParams, max_switch_log,
}
use egress_apikey.Orchestration.Floats.{Float}
use egress_apikey.Orchestration.Verdicts.{WindowStats}
use egress_apikey.Orchestration.Candidates.{RegionMetric, pick_candidate}
use egress_apikey.Orchestration.Evaluate.{
  OrchAction, switch, Gates, RowResult, Round, OrchestrationSection, cool_down, is_recent,
  push_switch, switches_last_hour, start_switch, act_on_candidate, on_candidate, when_degraded,
  when_healthy, when_observing, when_cooling, by_phase, by_evidence, evaluate_row, evaluate_rows,
  evaluate_section, round_gates,
}

abbrev pub is_switch : OrchAction → Bool
is_switch (switch _ _ _ _) = true
is_switch _ = false

-- Each switch takes one from both gates, and adds at most one recent entry to the row's log.
record IsPaid (now : ℕ) (gates : Gates) (row : PlatformOrch) (r : RowResult) : Type 0 where
  budget_paid : count is_switch r.actions + r.gates.budget ≡ gates.budget
  cap_paid : count is_switch r.actions + r.gates.round_cap ≡ gates.round_cap
  log_paid :
      count (is_recent now) r.row.switch_log
      ≤ count (is_recent now) row.switch_log + count is_switch r.actions

count-push_switch :
    (now : ℕ) (log : List ℕ)
    → count (is_recent now) (push_switch now log) ≤ count (is_recent now) log + 1
unfolding push_switch
count-push_switch now log =
    let pushed = log ++ now ∷ [] in
    ground (
      arith,
      count-append (is_recent now) log (now ∷ []),
      count-drop (is_recent now) (length pushed - max_switch_log) pushed,
    )

module _ (F : Float) (params : OrchestrationParams F.Num) (round : Round F) where
  act_on_candidate-IsPaid :
      (gates : Gates) (row : PlatformOrch) (cur : List String) (region : String)
      (metric : RegionMetric F.Num)
      → IsPaid round.now gates row (act_on_candidate F params round gates row cur region metric)
  unfolding act_on_candidate start_switch
  act_on_candidate-IsPaid gates row cur region metric =
      ground (arith, count-push_switch round.now row.switch_log)

  on_candidate-IsPaid :
      (gates : Gates) (row : PlatformOrch) (cur : List String)
      (candidate : Option (String × RegionMetric F.Num))
      → IsPaid round.now gates row (on_candidate F params round gates row cur candidate)
  unfolding on_candidate cool_down
  on_candidate-IsPaid gates row cur (some (region, metric)) =
      act_on_candidate-IsPaid gates row cur region metric
  on_candidate-IsPaid gates row cur none = omega arith

  by_phase-IsPaid :
      (phase : OrchPhase) (gates : Gates) (row : PlatformOrch) (stats : WindowStats)
      → IsPaid round.now gates row (by_phase F params round phase gates row stats)
  unfolding by_phase when_healthy when_degraded when_observing when_cooling cool_down
  by_phase-IsPaid healthy gates row stats = ground arith
  by_phase-IsPaid degraded gates row stats =
      let cur = unwrap_or (get row.platform_name round.current_regions) [] in
      if_elim (IsPaid round.now gates row) stats.tick_failed
        (λ _.
          on_candidate-IsPaid gates row cur
            (pick_candidate F cur (get row.platform_name round.region_metrics) params))
        (λ _. omega arith)
  by_phase-IsPaid observing gates row stats = ground arith
  by_phase-IsPaid cooldown gates row stats = ground arith

  by_evidence-IsPaid :
      (pending : Option OrchProposal) (verdict : Option WindowStats) (gates : Gates)
      (row : PlatformOrch)
      → IsPaid round.now gates row (by_evidence F params round pending verdict gates row)
  by_evidence-IsPaid (some b) verdict gates row = omega arith
  by_evidence-IsPaid none none gates row = omega arith
  by_evidence-IsPaid none (some stats) gates row =
      if_elim (IsPaid round.now gates row) stats.tick_valid
        (λ _. by_phase-IsPaid row.phase gates row stats) (λ _. omega arith)

  evaluate_row-IsPaid :
      (gates : Gates) (row : PlatformOrch)
      → IsPaid round.now gates row (evaluate_row F params round gates row)
  unfolding evaluate_row
  evaluate_row-IsPaid gates row =
      by_evidence-IsPaid row.pending (get row.platform_name round.verdicts) gates row

  record ArePaid (gates : Gates) (rows : List PlatformOrch)
      (result : List PlatformOrch × List OrchAction) : Type 0 where
    within_budget : count is_switch result.1 ≤ gates.budget
    within_cap : count is_switch result.1 ≤ gates.round_cap
    logged :
        switches_last_hour round.now result.0
        ≤ switches_last_hour round.now rows + count is_switch result.1

  evaluate_rows-paid :
      (gates : Gates) (rows : List PlatformOrch)
      → ArePaid gates rows (evaluate_rows F params round gates rows)
  unfolding evaluate_rows switches_last_hour
  evaluate_rows-paid gates [] = omega arith
  evaluate_rows-paid gates (row ∷ rows) =
      let r = evaluate_row F params round gates row in
      omega (
        arith,
        evaluate_row-IsPaid gates row,
        evaluate_rows-paid r.gates rows,
        count-append is_switch r.actions (evaluate_rows F params round r.gates rows).1,
      )

-- One pass switches no more platforms than the round cap allows, and never more than the hourly
-- ceiling leaves: after it, the switches of the last hour are at most the ceiling, or at most what
-- they were when that was above the ceiling already.
pub evaluate_section_switches :
    (F : Float) (sec : OrchestrationSection F.Num) (round : Round F)
    → let (after, actions) = evaluate_section F sec round in
      (count is_switch actions ≤ (round_gates F sec round.now).round_cap)
      × (switches_last_hour round.now after.platforms
          ≤ max (switches_last_hour round.now sec.platforms) sec.params.max_switches_per_hour)
unfolding evaluate_section
evaluate_section_switches F sec round =
    let paid = evaluate_rows-paid F sec.params round (round_gates F sec round.now) sec.platforms in
    (omega (arith, paid), omega (arith, paid))

-- ===== src/Orchestration/Rows.antt =====
-- What every pass keeps true of the rows of the section.
use egress_apikey.Prelude.{
  ℕ, ◌-◌, ◌≤◌, ◌<◌, ◌≡◌, refl, ◌⊎◌, true, Option, none, some, List, [], ◌∷◌, ◌++◌, arith, is_some,
  unwrap_or, length, length-drop, All, if_elim, String,
}
use egress_apikey.Prelude.Maps.{get}
use egress_apikey.Orchestration.{
  OrchPhase, healthy, degraded, observing, cooldown, OrchProposal, PlatformOrch,
  OrchestrationParams, max_switch_log, new,
}
use egress_apikey.Orchestration.Floats.{Float}
use egress_apikey.Orchestration.Verdicts.{WindowStats}
use egress_apikey.Orchestration.Candidates.{RegionMetric, pick_candidate}
use egress_apikey.Orchestration.Evaluate.{
  Gates, RowResult, Round, OrchestrationSection, cool_down, push_switch, start_switch,
  act_on_candidate, on_candidate, when_degraded, when_healthy, when_observing, when_cooling,
  by_phase, by_evidence, evaluate_row, evaluate_rows, evaluate_section, round_gates,
}

-- A row at rest: a baseline stands exactly while observing, a proposal only while degraded or
-- cooling, good cycles are counted only while observing and below the goal, the log is bounded.
pub record IsWellFormed (goal : ℕ) (row : PlatformOrch) : Type 0 where
  pub baseline_observed : is_some row.baseline ≡ true → row.phase ≡ observing
  pub observing_baseline : row.phase ≡ observing → is_some row.baseline ≡ true
  pub pending_parked : is_some row.pending ≡ true → (row.phase ≡ degraded) ⊎ (row.phase ≡ cooldown)
  pub good_observed : 0 < row.good_cycles → row.phase ≡ observing
  pub good_short : row.phase ≡ observing → row.good_cycles < goal
  pub log_bounded : length row.switch_log ≤ max_switch_log

pub new-IsWellFormed : (goal : ℕ) (name : String) → IsWellFormed goal (new name)
unfolding new
new-IsWellFormed goal name = ground arith

pub push_switch_bounded : (now : ℕ) (log : List ℕ) → length (push_switch now log) ≤ max_switch_log
unfolding push_switch
push_switch_bounded now log =
    ground (arith, length-drop (length (log ++ now ∷ []) - max_switch_log) (log ++ now ∷ []))

module _ (F : Float) (params : OrchestrationParams F.Num) (round : Round F) where
  abbrev Keeps : PlatformOrch → Type 0
  Keeps row = IsWellFormed params.observe_good_cycles row

  cool_down-IsWellFormed : (row : PlatformOrch) → Keeps row → Keeps (cool_down row params round.now)
  unfolding cool_down
  cool_down-IsWellFormed row w = ground arith

  act_on_candidate-IsWellFormed :
      (gates : Gates) (row : PlatformOrch) (cur : List String) (region : String)
      (metric : RegionMetric F.Num)
      → 1 ≤ params.observe_good_cycles
      → Keeps row
      → row.phase ≡ degraded
      → row.pending ≡ none
      → Keeps (act_on_candidate F params round gates row cur region metric).row
  unfolding act_on_candidate start_switch
  act_on_candidate-IsWellFormed gates row cur region metric pos w d p =
      ground (arith, push_switch_bounded round.now row.switch_log)

  on_candidate-IsWellFormed :
      (gates : Gates) (row : PlatformOrch) (cur : List String)
      (candidate : Option (String × RegionMetric F.Num))
      → 1 ≤ params.observe_good_cycles
      → Keeps row
      → row.phase ≡ degraded
      → row.pending ≡ none
      → Keeps (on_candidate F params round gates row cur candidate).row
  unfolding on_candidate
  on_candidate-IsWellFormed gates row cur (some (region, metric)) pos w d p =
      act_on_candidate-IsWellFormed gates row cur region metric pos w d p
  on_candidate-IsWellFormed gates row cur none pos w d p = cool_down-IsWellFormed row w

  when_degraded-IsWellFormed :
      (gates : Gates) (row : PlatformOrch) (stats : WindowStats)
      → 1 ≤ params.observe_good_cycles
      → Keeps row
      → row.phase ≡ degraded
      → row.pending ≡ none
      → Keeps (when_degraded F params round gates row stats).row
  unfolding when_degraded
  when_degraded-IsWellFormed gates row stats pos w d p =
      let cur = unwrap_or (get row.platform_name round.current_regions) [] in
      let candidate = pick_candidate F cur (get row.platform_name round.region_metrics) params in
      ground (arith, on_candidate-IsWellFormed gates row cur candidate)

  when_healthy-IsWellFormed :
      (gates : Gates) (row : PlatformOrch) (stats : WindowStats)
      → Keeps row
      → row.phase ≡ healthy
      → Keeps (when_healthy F params round gates row stats).row
  unfolding when_healthy
  when_healthy-IsWellFormed gates row stats w h = ground arith

  when_observing-IsWellFormed :
      (gates : Gates) (row : PlatformOrch) (stats : WindowStats)
      → Keeps row
      → row.phase ≡ observing
      → Keeps (when_observing F params round gates row stats).row
  unfolding when_observing cool_down
  when_observing-IsWellFormed gates row stats w o = ground arith

  when_cooling-IsWellFormed :
      (gates : Gates) (row : PlatformOrch)
      → Keeps row
      → row.phase ≡ cooldown
      → row.pending ≡ none
      → Keeps (when_cooling F params round gates row).row
  unfolding when_cooling
  when_cooling-IsWellFormed gates row w c p = ground arith

  by_phase-IsWellFormed :
      (phase : OrchPhase) (gates : Gates) (row : PlatformOrch) (stats : WindowStats)
      → 1 ≤ params.observe_good_cycles
      → Keeps row
      → row.phase ≡ phase
      → row.pending ≡ none
      → Keeps (by_phase F params round phase gates row stats).row
  unfolding by_phase
  by_phase-IsWellFormed healthy gates row stats pos w h p =
      when_healthy-IsWellFormed gates row stats w h
  by_phase-IsWellFormed degraded gates row stats pos w h p =
      when_degraded-IsWellFormed gates row stats pos w h p
  by_phase-IsWellFormed observing gates row stats pos w h p =
      when_observing-IsWellFormed gates row stats w h
  by_phase-IsWellFormed cooldown gates row stats pos w h p =
      when_cooling-IsWellFormed gates row w h p

  pub evaluate_row-IsWellFormed :
      (gates : Gates) (row : PlatformOrch)
      → 1 ≤ params.observe_good_cycles
      → Keeps row
      → Keeps (evaluate_row F params round gates row).row
  unfolding evaluate_row
  evaluate_row-IsWellFormed gates row pos w =
      by_parts row.pending (get row.platform_name round.verdicts) refl
    where
      by_parts :
          (pending : Option OrchProposal) (verdict : Option WindowStats)
          → row.pending ≡ pending
          → Keeps (by_evidence F params round pending verdict gates row).row
      by_parts (some b) v e = w
      by_parts none none e = w
      by_parts none (some stats) e =
          if_elim (λ (r : RowResult). Keeps r.row) stats.tick_valid
            (λ _. by_phase-IsWellFormed row.phase gates row stats pos w refl e) (λ _. w)

  evaluate_rows-IsWellFormed :
      (gates : Gates) (rows : List PlatformOrch)
      → 1 ≤ params.observe_good_cycles
      → All Keeps rows
      → All Keeps (evaluate_rows F params round gates rows).0
  unfolding evaluate_rows
  evaluate_rows-IsWellFormed gates [] pos w = tt
  evaluate_rows-IsWellFormed gates (row ∷ rows) pos w = (
    evaluate_row-IsWellFormed gates row pos w.0,
    evaluate_rows-IsWellFormed (evaluate_row F params round gates row).gates rows pos w.1,
  )

-- One tick keeps every row of the section well formed, in both tiers and under any evidence, when
-- the goal of good cycles is at least one (which the store's validator demands).
pub evaluate_section-IsWellFormed :
    (F : Float) (sec : OrchestrationSection F.Num) (round : Round F)
    → 1 ≤ sec.params.observe_good_cycles
    → All (IsWellFormed sec.params.observe_good_cycles) sec.platforms
    → All (IsWellFormed sec.params.observe_good_cycles) (evaluate_section F sec round).0.platforms
unfolding evaluate_section
evaluate_section-IsWellFormed F sec round pos w =
    evaluate_rows-IsWellFormed F sec.params round (round_gates F sec round.now) sec.platforms pos w

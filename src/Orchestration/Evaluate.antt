-- ===== src/Orchestration/Evaluate.antt =====
-- `evaluate_section` and `cool_down` of orchestration.rs. The section's loop variables `budget` and
-- `round_cap` are the record `Gates`; each row is evaluated by a function of its own.
use egress_apikey.Prelude.{
  ℕ, ◌+◌, ◌-◌, ◌%◌, ◌^◌, min, Bool, true, false, ◌&&◌, ◌||◌, String, Option, none, some, List, [],
  ◌∷◌, ◌++◌, ltb, leb, if◌then◌else◌, length, count, drop, unwrap_or, sat_add_u64, sat_mul_u64,
  sat_add_u32,
}
use egress_apikey.Prelude.Maps.{Map, get}
use egress_apikey.Prelude.Texts.{bytes, concat, join}
use egress_apikey.Orchestration.{
  Autonomy, auto, suggest, OrchPhase, healthy, degraded, observing, cooldown, OrchBaseline,
  OrchProposal, PlatformOrch, OrchestrationParams, max_switch_log,
}
use egress_apikey.Orchestration.Floats.{Float}
use egress_apikey.Orchestration.Verdicts.{ProbeVerdict, WindowStats}
use egress_apikey.Orchestration.Candidates.{
  RegionMetric, current_ok_share, current_err_share, pick_candidate,
}
use egress_apikey.Orchestration.Diff.{bounded_diff}

pub data OrchAction : Type 0 where
  switch : String → List String → OrchBaseline → String → OrchAction
  restore : String → List String → String → OrchAction
  blocked : String → String → OrchAction
  bookkeep : String → OrchAction

pub record OrchestrationSection (Num : Type 0) : Type 0 where
  pub params : OrchestrationParams Num
  pub platforms : List PlatformOrch
  pub signal_verdicts : Map ProbeVerdict
  pub suspect_streak : ℕ  -- u32

-- What is left of the hourly budget and of the per-round cap.
pub record Gates : Type 0 where
  pub budget : ℕ
  pub round_cap : ℕ

-- The backoff of `cool_down`, `min(base * 2^min(streak, 20), max)`.
abbrev pub cooldown_backoff : {Num : Type 0} → OrchestrationParams Num → ℕ → ℕ
cooldown_backoff params streak =
    min (sat_mul_u64 params.cooldown_base_secs (2 ^ min streak 20)) params.cooldown_max_secs

unfoldable pub cool_down :
    {Num : Type 0} → PlatformOrch → OrchestrationParams Num → ℕ → PlatformOrch
cool_down row params now = record row {
  phase = cooldown;
  cooldown_until = sat_add_u64 now (cooldown_backoff params row.cooldown_streak);
  cooldown_streak = sat_add_u32 row.cooldown_streak 1;
  good_cycles = 0;
  baseline = none;
  pending = none;
}

-- `switch_log.push(now)`, keeping the newest entries.
unfoldable pub push_switch : ℕ → List ℕ → List ℕ
push_switch now log =
    let pushed = log ++ now ∷ [] in
    if ltb max_switch_log (length pushed)
    then drop (length pushed - max_switch_log) pushed
    else pushed

-- How many switches the rows logged within the hour before `now`.
abbrev pub is_recent : ℕ → ℕ → Bool
is_recent now ts = ltb (now - ts) 3600

unfoldable pub switches_last_hour : ℕ → List PlatformOrch → ℕ
switches_last_hour now [] = 0
switches_last_hour now (p ∷ ps) = count (is_recent now) p.switch_log + switches_last_hour now ps

abbrev pub noted : PlatformOrch → List OrchAction
noted row = bookkeep row.platform_name ∷ []

-- What evaluating one row gives: the gates that are left, the new row and its actions.
pub record RowResult : Type 0 where
  pub gates : Gates
  pub row : PlatformOrch
  pub actions : List OrchAction

module _ (F : Float) where
  open F use {Num, of_ℕ, div, ge, mul, floor_max_one, percent}

  -- The arguments of `evaluate_section` besides the section.
  pub record Round : Type 0 where
    pub verdicts : Map WindowStats
    pub region_metrics : Map (Map (RegionMetric Num))
    pub current_regions : Map (List String)
    pub autonomy : Autonomy
    pub now : ℕ

  unfoldable pub switch_reason :
      String → RegionMetric Num → List String → Option (Map (RegionMetric Num)) → String
  switch_reason region metric cur_regions metrics =
      let shares : Num × Num = elim metrics [
        | some m ↦ (current_ok_share F cur_regions m, current_err_share F cur_regions m)
        | none ↦ (of_ℕ 0, of_ℕ 1)
      ] in
      concat (
        "region "
        ∷ region
        ∷ " beats current set (ok "
        ∷ percent metric.ok_share
        ∷ "% vs "
        ∷ percent shares.0
        ∷ "%, err "
        ∷ percent metric.err_share
        ∷ "% vs "
        ∷ percent shares.1
        ∷ "%)"
        ∷ [])

  module _ (params : OrchestrationParams Num) (round : Round) where
    -- An auto-tier switch: Observing with the baseline and the accounting.
    unfoldable pub start_switch : PlatformOrch → OrchBaseline → PlatformOrch
    start_switch row baseline = record row {
      phase = observing;
      good_cycles = 0;
      last_switch_at = round.now;
      switch_log = push_switch round.now row.switch_log;
      baseline = some baseline;
    }

    abbrev pub is_allowed : Gates → PlatformOrch → Bool
    is_allowed gates row =
        ltb 0 gates.budget
        && (ltb 0 gates.round_cap
            && leb params.min_switch_interval_secs (round.now - row.last_switch_at))

    abbrev pub propose : PlatformOrch → String → List String → String → PlatformOrch
    propose row region cur_regions reason = record row {
      pending = some (record {
        regions = region ∷ [];
        reason = reason;
        diff = bounded_diff (
            bytes (
              concat (
                row.platform_name
                ∷ ": regions ["
                ∷ join "," cur_regions
                ∷ "] -> ["
                ∷ region
                ∷ "]"
                ∷ [])));
        created_at = round.now;
        is_rollback = false;
      });
    }

    -- A candidate was found: the gates, then the autonomy tier.
    unfoldable pub act_on_candidate :
        Gates → PlatformOrch → List String → String → RegionMetric Num → RowResult
    act_on_candidate gates row cur_regions region metric =
        let baseline : OrchBaseline = record { regions = cur_regions } in
        let reason =
          switch_reason region metric cur_regions (get row.platform_name round.region_metrics) in
        let next : RowResult = elim round.autonomy [
          | auto ↦ record {
            gates = record { budget = gates.budget - 1; round_cap = gates.round_cap - 1 };
            row = start_switch row baseline;
            actions = switch row.platform_name (region ∷ []) baseline reason ∷ [];
          }
          | suggest ↦ record {
            gates = gates;
            row = propose row region cur_regions reason;
            actions = noted row;
          }
        ] in
        if is_allowed gates row then next else record {
          gates = gates;
          row = row;
          actions =
              blocked row.platform_name "switch gates: hourly budget / round cap / min interval"
              ∷ [];
        }

    -- No better region parks the row in cooldown, so that it does not propose in a hot loop.
    unfoldable pub on_candidate :
        Gates → PlatformOrch → List String → Option (String × RegionMetric Num) → RowResult
    on_candidate gates row cur_regions (some (region, metric)) =
        act_on_candidate gates row cur_regions region metric
    on_candidate gates row cur_regions none = record {
      gates = gates;
      row = cool_down row params round.now;
      actions = noted row;
    }

    unfoldable pub when_degraded : Gates → PlatformOrch → WindowStats → RowResult
    when_degraded gates row stats =
        let cur_regions = unwrap_or (get row.platform_name round.current_regions) [] in
        let candidate =
          pick_candidate F cur_regions (get row.platform_name round.region_metrics) params in
        let failing = on_candidate gates row cur_regions candidate in
        if stats.tick_failed
        then failing
        else record { gates = gates; row = record row { phase = healthy }; actions = noted row }

    unfoldable pub when_healthy : Gates → PlatformOrch → WindowStats → RowResult
    when_healthy gates row stats =
        let window_breach =
          leb params.window_min_samples stats.samples
          && ge (div (of_ℕ stats.fails) (of_ℕ stats.samples)) params.failure_rate_threshold in
        let streak_breach = leb params.consecutive_failure_threshold stats.consecutive_fails in
        if window_breach || streak_breach
        then record {
          gates = gates;
          row = record row { phase = degraded; good_cycles = 0 };
          actions = noted row;
        }
        else record { gates = gates; row = row; actions = [] }

    abbrev pub roll_back : PlatformOrch → OrchBaseline → PlatformOrch
    roll_back row b = record row {
      pending = some (record {
        regions = b.regions;
        reason = "observation regressed";
        diff = bounded_diff (
            bytes (
              concat
                (row.platform_name ∷ ": rollback regions -> [" ∷ join "," b.regions ∷ "]" ∷ [])));
        created_at = round.now;
        is_rollback = true;
      });
    }

    -- The regression inside the observation window, by the baseline that was recorded.
    abbrev pub regress : Gates → PlatformOrch → Option OrchBaseline → RowResult
    regress gates row none = record { gates = gates; row = row; actions = noted row }
    regress gates row (some b) = elim round.autonomy [
      | auto ↦ record {
        gates = gates;
        row = row;
        actions = restore row.platform_name b.regions "observation regressed" ∷ [];
      }
      | suggest ↦ record { gates = gates; row = roll_back row b; actions = noted row }
    ]

    -- One more good cycle (a u32); enough of them cement the switch.
    abbrev pub good_cycle : PlatformOrch → PlatformOrch
    good_cycle row =
        let good = (row.good_cycles + 1) % 2 ^ 32 in
        if leb params.observe_good_cycles good
        then record row { phase = healthy; baseline = none; good_cycles = 0; cooldown_streak = 0 }
        else record row { good_cycles = good }

    unfoldable pub when_observing : Gates → PlatformOrch → WindowStats → RowResult
    when_observing gates row stats =
        if stats.tick_failed
        then regress gates (cool_down row params round.now) row.baseline
        else record { gates = gates; row = good_cycle row; actions = noted row }

    unfoldable pub when_cooling : Gates → PlatformOrch → RowResult
    when_cooling gates row =
        if leb row.cooldown_until round.now
        then record {
          gates = gates;
          row = record row { phase = healthy; good_cycles = 0 };
          actions = noted row;
        }
        else record { gates = gates; row = row; actions = [] }

    unfoldable pub by_phase : OrchPhase → Gates → PlatformOrch → WindowStats → RowResult
    by_phase cooldown gates row stats = when_cooling gates row
    by_phase healthy gates row stats = when_healthy gates row stats
    by_phase degraded gates row stats = when_degraded gates row stats
    by_phase observing gates row stats = when_observing gates row stats

    abbrev pub untouched : Gates → PlatformOrch → RowResult
    untouched gates row = record { gates = gates; row = row; actions = [] }

    -- A parked proposal, a missing verdict and an evidence-free tick skip the row.
    abbrev pub by_evidence :
        Option OrchProposal → Option WindowStats → Gates → PlatformOrch → RowResult
    by_evidence (some _) _ gates row = untouched gates row
    by_evidence none none gates row = untouched gates row
    by_evidence none (some stats) gates row =
        let valid = by_phase row.phase gates row stats in
        if stats.tick_valid then valid else untouched gates row

    unfoldable pub evaluate_row : Gates → PlatformOrch → RowResult
    evaluate_row gates row =
        by_evidence row.pending (get row.platform_name round.verdicts) gates row

    unfoldable pub evaluate_rows : Gates → List PlatformOrch → List PlatformOrch × List OrchAction
    evaluate_rows gates [] = ([], [])
    evaluate_rows gates (row ∷ rows) =
        let r = evaluate_row gates row in
        let rest = evaluate_rows r.gates rows in (r.row ∷ rest.0, r.actions ++ rest.1)

  abbrev pub round_gates : OrchestrationSection Num → ℕ → Gates
  round_gates sec now = record {
    budget = sec.params.max_switches_per_hour - switches_last_hour now sec.platforms;
    round_cap = floor_max_one (mul (of_ℕ (length sec.platforms)) sec.params.max_switch_ratio);
  }

  unfoldable pub evaluate_section :
      OrchestrationSection Num → Round → OrchestrationSection Num × List OrchAction
  evaluate_section sec round =
      let (rows, actions) =
        evaluate_rows sec.params round (round_gates sec round.now) sec.platforms in
      (record sec { platforms = rows }, actions)

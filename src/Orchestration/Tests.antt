-- ===== src/Orchestration/Tests.antt =====
-- One orchestrated platform, with shares in hundredths.
use egress_apikey.Prelude.{
  ℕ, zero, suc, ◌≤◌, ◌<◌, max, ◌≡◌, refl, true, String, none, List, [], ◌∷◌, arith, All, count,
  length, some, ◌⊎◌, ◌+◌,
}
use egress_apikey.Prelude.Maps.{get}
use egress_apikey.Prelude.Texts.{Bytes, concat}
use egress_apikey.Orchestration.{
  auto, suggest, healthy, degraded, cooldown, PlatformOrch, OrchestrationParams, default_params,
}
use egress_apikey.Orchestration.Floats.{hundredths}
use egress_apikey.Orchestration.Verdicts.{
  ProbeVerdict, ok, local_fail, remote_fail, skipped, WindowStats,
}
use egress_apikey.Orchestration.Candidates.{RegionMetric, aggregate, pick_candidate}
use egress_apikey.Orchestration.Evaluate.{
  switch, Gates, Round, OrchestrationSection, cool_down, switches_last_hour, evaluate_row,
  evaluate_rows, by_phase, when_degraded, when_cooling, on_candidate, act_on_candidate,
  switch_reason, evaluate_section, round_gates,
}
use egress_apikey.Orchestration.Cooldown.{EndsOrStays, cooldown_ends}
use egress_apikey.Orchestration.Rows.{IsWellFormed, evaluate_section-IsWellFormed}
use egress_apikey.Orchestration.Gates.{is_switch, evaluate_section_switches}
use egress_apikey.Orchestration.Switches.{IsJustified, evaluate_row-IsJustified}
use egress_apikey.Orchestration.Diff.{
  max_proposal_diff, is_char_boundary, bounded_diff, cut_at, ascii-IsUtf8, bounded_diff_over_cap,
}

abbrev params : OrchestrationParams ℕ
params = default_params hundredths

abbrev row : PlatformOrch
row = record {
  platform_name = "openai";
  phase = degraded;
  good_cycles = 0;
  cooldown_until = 0;
  cooldown_streak = 0;
  last_switch_at = 0;
  switch_log = [];
  baseline = none;
  pending = none;
}

abbrev section : OrchestrationSection ℕ
section = record { params = params; platforms = row ∷ []; signal_verdicts = []; suspect_streak = 0 }

abbrev failing : WindowStats
failing = record {
  samples = 10;
  fails = 8;
  consecutive_fails = 4;
  tick_failed = true;
  tick_valid = true;
}

abbrev metrics : List (String × RegionMetric ℕ)
metrics =
    ("hk", record { ok_share = 20; err_share = 80; node_count = 5 })
    ∷ ("us", record { ok_share = 90; err_share = 10; node_count = 4 })
    ∷ []

abbrev round : Round hundredths
round = record {
  verdicts = ("openai", failing) ∷ [];
  region_metrics = ("openai", metrics) ∷ [];
  current_regions = ("openai", "hk" ∷ []) ∷ [];
  autonomy = auto;
  now = 5000;
}

abbrev suggesting : Round hundredths
suggesting = record round { autonomy = suggest }

abbrev gates : Gates
gates = record { budget = 4; round_cap = 1 }

-- The failing platform moves from hk to us.
moves_to_us :
    (evaluate_section hundredths section round).1
    ≡ switch "openai"
        ("us" ∷ [])
        (record { regions = "hk" ∷ [] })
        "region us beats current set (ok % vs %, err % vs %)"
      ∷ []
unfolding evaluate_section evaluate_rows evaluate_row by_phase when_degraded on_candidate
    act_on_candidate switch_reason pick_candidate aggregate switches_last_hour concat get
moves_to_us = refl

evaluate_section_switches_example :
    (count is_switch (evaluate_section hundredths section round).1
      ≤ (round_gates hundredths section 5000).round_cap)
    × (switches_last_hour 5000 (evaluate_section hundredths section round).0.platforms
        ≤ max (switches_last_hour 5000 section.platforms) 4)
evaluate_section_switches_example = evaluate_section_switches hundredths section round

evaluate_row-IsJustified_example :
    All
      (IsJustified hundredths params round row)
      (evaluate_row hundredths params round gates row).actions
evaluate_row-IsJustified_example = evaluate_row-IsJustified hundredths params round gates row

evaluate_section-IsWellFormed_example :
    All (IsWellFormed 3) (evaluate_section hundredths section round).0.platforms
evaluate_section-IsWellFormed_example =
    evaluate_section-IsWellFormed hundredths section round (omega arith) (rows_fit, tt)
  where
    rows_fit : IsWellFormed 3 row
    rows_fit = ground arith

abbrev dark : Round hundredths
dark = record round { verdicts = [] }

abbrev cooled : PlatformOrch
cooled = cool_down row params 3000

cooldown_ends_example :
    EndsOrStays hundredths params round gates cooled
      (evaluate_row hundredths params round gates cooled)
unfolding cool_down
cooldown_ends_example = cooldown_ends hundredths params round gates cooled refl

-- A parked proposal freezes the row.
frozen_test :
    (evaluate_row hundredths params round gates (record cooled {
      pending =
          some
            (record { regions = []; reason = ""; diff = []; created_at = 0; is_rollback = true });
    })).row.phase
    ≡ cooldown
unfolding evaluate_row cool_down
frozen_test = refl

ended_test : (evaluate_row hundredths params round gates cooled).row.phase ≡ healthy
unfolding evaluate_row by_phase when_cooling cool_down get
ended_test = refl

abbrev verdicts : List ProbeVerdict
verdicts = ok ∷ skipped ∷ local_fail ∷ remote_fail ∷ []

abbrev long : ℕ → Bytes
long zero = []
long (suc n) = b'R' ∷ long n

long-ascii : (n : ℕ) → All (λ b. b < 0x80) (long n)
long-ascii zero = tt
long-ascii (suc n) = (omega arith, long-ascii n)

length-long : (n : ℕ) → length (long n) ≡ n
length-long zero = refl
length-long (suc n) = omega (arith, length-long n)

bounded_diff_over_cap_example :
    ((length (long 1500) ≤ max_proposal_diff) × (bounded_diff (long 1500) ≡ long 1500))
    ⊎ ((max_proposal_diff < length (long 1500))
        × ((end : ℕ) × (end ≤ max_proposal_diff)
            × (max_proposal_diff ≤ end + 3)
            × (is_char_boundary (long 1500) end ≡ true)
            × (bounded_diff (long 1500) ≡ cut_at (long 1500) end))
        × (max_proposal_diff < length (bounded_diff (long 1500))))
bounded_diff_over_cap_example =
    bounded_diff_over_cap (long 1500) (ascii-IsUtf8 (long 1500) (long-ascii 1500))

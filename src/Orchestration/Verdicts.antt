-- ===== src/Orchestration/Verdicts.antt =====
-- Probe verdicts: the join matrix, the platform aggregate, the window statistics and the rings.
use mathlib.Core.List.{reverse}
use egress_apikey.Prelude.{
  ℕ, ◌+◌, ◌*◌, Bool, true, false, ◌&&◌, Option, none, some, List, [], ◌∷◌, ltb, leb, ◌==◌,
  if◌then◌else◌, count, run_length, sat_mul_u32,
}
use egress_apikey.Orchestration.Floats.{Float}

pub data ProbeVerdict : Type 0 where
  ok local_fail remote_fail skipped environment_suspect : ProbeVerdict

abbrev pub is_fail : ProbeVerdict → Bool
is_fail local_fail = true
is_fail remote_fail = true
is_fail _ = false

abbrev pub is_valid : ProbeVerdict → Bool
is_valid ok = true
is_valid local_fail = true
is_valid remote_fail = true
is_valid _ = false

-- `v == w` of the derived `PartialEq`
abbrev pub same : ProbeVerdict → ProbeVerdict → Bool
same ok ok = true
same local_fail local_fail = true
same remote_fail remote_fail = true
same skipped skipped = true
same environment_suspect environment_suspect = true
same _ _ = false

pub record WindowStats : Type 0 where
  pub samples : ℕ
  pub fails : ℕ
  pub consecutive_fails : ℕ
  pub tick_failed : Bool
  pub tick_valid : Bool

unfoldable pub join_probe : Bool → Bool → ProbeVerdict
join_probe true true = ok
join_probe true false = remote_fail
join_probe false _ = local_fail

-- The three counters of `aggregate_platform_verdict`. They count the entries of a slice of ports,
-- of which there are at most 65536, so they are left unbounded.
pub record Tally : Type 0 where
  pub valid : ℕ
  pub local : ℕ
  pub remote : ℕ

abbrev pub tally_one : Tally → ProbeVerdict → Tally
tally_one t skipped = t
tally_one t environment_suspect = t
tally_one t ok = record t { valid = t.valid + 1 }
tally_one t local_fail = record t { valid = t.valid + 1; local = t.local + 1 }
tally_one t remote_fail = record t { valid = t.valid + 1; remote = t.remote + 1 }

unfoldable pub tally_from : Tally → List ProbeVerdict → Tally
tally_from t [] = t
tally_from t (v ∷ vs) = tally_from (tally_one t v) vs

unfoldable pub judge : Tally → ProbeVerdict
judge t =
    if t.valid == 0
    then skipped
    else if ltb t.valid ((t.local + t.remote) * 2)
    then if ltb t.remote t.local then local_fail else remote_fail
    else ok

unfoldable pub aggregate_platform_verdict : List ProbeVerdict → ProbeVerdict
unfolding tally_from judge
aggregate_platform_verdict verdicts =
    judge (tally_from (record { valid = 0; local = 0; remote = 0 }) verdicts)

unfoldable pub common_mode_suspect : ℕ → ℕ → Bool
common_mode_suspect local_fail_ports probed_ports =
    ltb 0 probed_ports && leb (sat_mul_u32 probed_ports 4) (sat_mul_u32 local_fail_ports 5)

-- A ring is a `VecDeque`, its front at the head.
unfoldable pub window_stats : List ProbeVerdict → ProbeVerdict → WindowStats
window_stats ring tick = record {
  samples = count is_valid ring;
  fails = count is_fail ring;
  consecutive_fails = run_length is_fail (reverse ring);
  tick_failed = is_fail tick;
  tick_valid = is_valid tick;
}

unfoldable pub verdict_streak : List ProbeVerdict → ProbeVerdict → ℕ
verdict_streak ring v = run_length (λ x. same x v) (reverse ring)

unfoldable pub ok_share : (F : Float) → List ProbeVerdict → Option F.Num
ok_share F ring =
    let valid = count is_valid ring in
    if valid == 0 then none else some (F.div (F.of_ℕ (count (same ok) ring)) (F.of_ℕ valid))

-- ===== src/Orchestration/Windows.antt =====
-- What the verdict statistics count.
use mathlib.Core.List.{reverse, reverse-append}
use egress_apikey.Prelude.{
  suc, ◌+◌, ◌*◌, ◌≤◌, ◌≡◌, refl, ap, ◌∙◌, sym, Bool, false, ◌&&◌, List, [], ◌∷◌, ◌++◌, arith, ltb,
  ◌==◌, if◌then◌else◌, length, count, filter, count-reverse, count-append, run_length-le-count,
  count-le-length,
}
use egress_apikey.Orchestration.Verdicts.{
  ProbeVerdict, ok, local_fail, remote_fail, skipped, environment_suspect, is_fail, is_valid, same,
  Tally, tally_one, tally_from, judge, aggregate_platform_verdict, window_stats,
}

abbrev counts : Tally → List ProbeVerdict → Tally
counts t vs = record {
  valid = t.valid + count is_valid vs;
  local = t.local + count (same local_fail) vs;
  remote = t.remote + count (same remote_fail) vs;
}

tally_from-counts : (t : Tally) (vs : List ProbeVerdict) → tally_from t vs ≡ counts t vs
unfolding tally_from
tally_from-counts t [] = ground arith
tally_from-counts t (ok ∷ vs) = tally_from-counts (tally_one t ok) vs ∙ ground arith
tally_from-counts t (local_fail ∷ vs) = tally_from-counts (tally_one t local_fail) vs ∙ ground arith
tally_from-counts t (remote_fail ∷ vs) =
    tally_from-counts (tally_one t remote_fail) vs ∙ ground arith
tally_from-counts t (skipped ∷ vs) = tally_from-counts t vs ∙ ground arith
tally_from-counts t (environment_suspect ∷ vs) = tally_from-counts t vs ∙ ground arith

count-fails :
    (vs : List ProbeVerdict)
    → count is_fail vs ≡ count (same local_fail) vs + count (same remote_fail) vs
count-fails [] = omega arith
count-fails (v ∷ vs) = ground (arith, count-fails vs)

fails-le-valid : (vs : List ProbeVerdict) → count is_fail vs ≤ count is_valid vs
fails-le-valid [] = omega arith
fails-le-valid (v ∷ vs) = ground (arith, fails-le-valid vs)

abbrev tally : List ProbeVerdict → Tally
tally vs = record {
  valid = count is_valid vs;
  local = count (same local_fail) vs;
  remote = count (same remote_fail) vs;
}

aggregate-tally : (vs : List ProbeVerdict) → aggregate_platform_verdict vs ≡ judge (tally vs)
unfolding aggregate_platform_verdict
aggregate-tally vs = ap judge {y = tally vs} (tally_from-counts _ vs ∙ ground arith)

-- The aggregate fails exactly when more than half of the valid verdicts fail; it is skipped exactly
-- when none is valid; it blames the local side exactly when a failing majority has more local than
-- remote failures; and it is never environment-suspect.
pub aggregate_majority :
    (vs : List ProbeVerdict)
    → let verdict = aggregate_platform_verdict vs in
      (is_fail verdict ≡ ltb (count is_valid vs) (count is_fail vs * 2))
      × (same verdict skipped ≡ (count is_valid vs == 0))
      × (same verdict local_fail ≡ (
          ltb (count is_valid vs) (count is_fail vs * 2)
          && ltb (count (same remote_fail) vs) (count (same local_fail) vs)))
      × (same verdict environment_suspect ≡ false)
aggregate_majority vs = rw (aggregate-tally vs) (
    unfold judge in
    (
      ground (arith, count-fails vs, fails-le-valid vs),
      ground arith,
      ground (arith, count-fails vs, fails-le-valid vs),
      ground arith,
    ))

count-filter_valid :
    (p : ProbeVerdict → Bool) (vs : List ProbeVerdict)
    → p skipped ≡ false
    → p environment_suspect ≡ false
    → count p (filter is_valid vs) ≡ count p vs
count-filter_valid p [] s e = refl
count-filter_valid p (skipped ∷ vs) s e = ground (arith, count-filter_valid p vs)
count-filter_valid p (environment_suspect ∷ vs) s e = ground (arith, count-filter_valid p vs)
count-filter_valid p (ok ∷ vs) s e = omega (arith, count-filter_valid p vs s e)
count-filter_valid p (local_fail ∷ vs) s e = omega (arith, count-filter_valid p vs s e)
count-filter_valid p (remote_fail ∷ vs) s e = omega (arith, count-filter_valid p vs s e)

-- Entries without evidence do not bear on the aggregate: dropping them changes nothing.
pub aggregate-filter_valid :
    (vs : List ProbeVerdict)
    → aggregate_platform_verdict (filter is_valid vs) ≡ aggregate_platform_verdict vs
aggregate-filter_valid vs =
    aggregate-tally (filter is_valid vs) ∙ ap judge same_tally ∙ sym (aggregate-tally vs)
  where
    same_tally : tally (filter is_valid vs) ≡ tally vs
    same_tally = cc (
      count-filter_valid is_valid vs refl refl,
      count-filter_valid (same local_fail) vs refl refl,
      count-filter_valid (same remote_fail) vs refl refl,
    )

-- The window numbers are ordered, and bounded by the ring.
pub window_stats_ordered :
    (ring : List ProbeVerdict) (tick : ProbeVerdict)
    → let s = window_stats ring tick in
      (s.consecutive_fails ≤ s.fails) × (s.fails ≤ s.samples) × (s.samples ≤ length ring)
unfolding window_stats
window_stats_ordered ring tick = (
  omega (arith, run_length-le-count is_fail (reverse ring), count-reverse is_fail ring),
  fails-le-valid ring,
  count-le-length is_valid ring,
)

-- A verdict pushed at the back extends the failure streak, or ends it when it is anything else, a
-- skipped or environment-suspect one too; those two enter neither the samples nor the failures.
pub window_stats-push :
    (ring : List ProbeVerdict) (v tick : ProbeVerdict)
    → let before = window_stats ring tick in
      let after = window_stats (ring ++ v ∷ []) v in
      (after.consecutive_fails ≡ (if is_fail v then suc before.consecutive_fails else 0))
      × (after.samples ≡ (if is_valid v then suc before.samples else before.samples))
      × (after.fails ≡ (if is_fail v then suc before.fails else before.fails))
unfolding window_stats
window_stats-push ring v tick = (
  rw (reverse-append ring (v ∷ [])),
  ground (arith, count-append is_valid ring (v ∷ [])),
  ground (arith, count-append is_fail ring (v ∷ [])),
)

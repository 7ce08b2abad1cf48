-- ===== src/Orchestration/Switches.antt =====
-- What a switch, a restore and a blocked transition rest on.
use egress_apikey.Prelude.{
  ◌-◌, ◌≤◌, ◌≡◌, refl, Bool, true, false, String, str_eq, Option, none, some, List, [], ◌∷◌, arith,
  unwrap_or, if_elim, any, All, filter, if◌then◌else◌,
}
use mathlib.Core.Path.{subst}
use mathlib.Core.Option.{some-injective}
use egress_apikey.Prelude.Maps.{Map, get}
use egress_apikey.Orchestration.{
  auto, OrchPhase, healthy, degraded, observing, cooldown, OrchProposal, PlatformOrch,
  OrchestrationParams,
}
use egress_apikey.Orchestration.Floats.{Float}
use egress_apikey.Orchestration.Verdicts.{WindowStats}
use egress_apikey.Orchestration.Candidates.{
  RegionMetric, qualifies, best_of, max_by_ok, pick_candidate, current_ok_share, current_err_share,
}
use egress_apikey.Orchestration.Evaluate.{
  OrchAction, switch, restore, blocked, bookkeep, Gates, RowResult, Round, cool_down,
  act_on_candidate, on_candidate, when_degraded, when_healthy, when_observing, when_cooling,
  by_phase, by_evidence, evaluate_row,
}

All-filter {ℓ} : {A : Type ℓ} (p : A → Bool) (xs : List A) → All (λ x. p x ≡ true) (filter p xs)
All-filter p [] = tt
All-filter p (x ∷ xs) = ground (arith, All-filter p xs)

module _ (F : Float) where
  best_of-All :
      (P : String × RegionMetric F.Num → Type 0) (cs : List (String × RegionMetric F.Num))
      (best : String × RegionMetric F.Num)
      → P best
      → All P cs
      → P (best_of F best cs)
  unfolding best_of
  best_of-All P [] best h hs = h
  best_of-All P (c ∷ cs) best h hs =
      best_of-All P cs (if F.gt best.1.ok_share c.1.ok_share then best else c)
        (if_elim P (F.gt best.1.ok_share c.1.ok_share) (λ _. h) (λ _. hs.0)) hs.1

  max_by_ok-All :
      (P : String × RegionMetric F.Num → Type 0) (cs : List (String × RegionMetric F.Num))
      {c : String × RegionMetric F.Num}
      → max_by_ok F cs ≡ some c
      → All P cs
      → P c
  max_by_ok-All P [] e hs = cc
  max_by_ok-All P (d ∷ ds) e hs = subst P (some-injective _ _ e) (best_of-All P ds d hs.0 hs.1)

-- A picked region passes the filters: it is not in use, has nodes, and is in the tolerance band.
pub pick_candidate_sound :
    (F : Float) (params : OrchestrationParams F.Num) (cur : List String)
    (metrics : Map (RegionMetric F.Num)) (c : String × RegionMetric F.Num)
    → pick_candidate F cur (some metrics) params ≡ some c
    → qualifies F cur params (current_ok_share F cur metrics) (current_err_share F cur metrics) c
      ≡ true
unfolding pick_candidate
pick_candidate_sound F params cur metrics c e =
    let p =
      qualifies F cur params (current_ok_share F cur metrics) (current_err_share F cur metrics) in
    max_by_ok-All F (λ x. p x ≡ true) (filter p metrics) e (All-filter p metrics)

-- One region, and not one of the current ones.
abbrev pub IsFresh : List String → List String → Type 0
IsFresh (r ∷ []) cur = any (str_eq r) cur ≡ false
IsFresh _ cur = ⊥

module _ (F : Float) (params : OrchestrationParams F.Num) (round : Round F) where
  abbrev pub current_of : PlatformOrch → List String
  current_of row = unwrap_or (get row.platform_name round.current_regions) []

  -- What an action of a row rests on.
  abbrev pub IsJustified : PlatformOrch → OrchAction → Type 0
  IsJustified row (switch name regions baseline reason) =
      (name ≡ row.platform_name)
      × (row.phase ≡ degraded)
      × (round.autonomy ≡ auto)
      × (params.min_switch_interval_secs ≤ round.now - row.last_switch_at)
      × (baseline.regions ≡ current_of row)
      × IsFresh regions (current_of row)
  IsJustified row (restore name regions reason) =
      (name ≡ row.platform_name)
      × (row.phase ≡ observing)
      × (round.autonomy ≡ auto)
      × (row.baseline ≡ some (record { regions = regions }))
  IsJustified row (blocked name reason) = (name ≡ row.platform_name) × (row.phase ≡ degraded)
  IsJustified row (bookkeep name) = name ≡ row.platform_name

  act_on_candidate-IsJustified :
      (gates : Gates) (row : PlatformOrch) (region : String) (metric : RegionMetric F.Num)
      → row.phase ≡ degraded
      → any (str_eq region) (current_of row) ≡ false
      → All
          (IsJustified row)
          (act_on_candidate F params round gates row (current_of row) region metric).actions
  unfolding act_on_candidate
  act_on_candidate-IsJustified gates row region metric d fresh = ground arith

  on_candidate-IsJustified :
      (gates : Gates) (row : PlatformOrch) (metrics : Option (Map (RegionMetric F.Num)))
      (candidate : Option (String × RegionMetric F.Num))
      → row.phase ≡ degraded
      → pick_candidate F (current_of row) metrics params ≡ candidate
      → All
          (IsJustified row)
          (on_candidate F params round gates row (current_of row) candidate).actions
  unfolding on_candidate
  on_candidate-IsJustified gates row (some metrics) (some (region, metric)) d e =
      act_on_candidate-IsJustified gates row region metric d (
        unfold qualifies in
        ground (arith, pick_candidate_sound F params (current_of row) metrics (region, metric) e))
  on_candidate-IsJustified gates row none (some c) d e = unfold pick_candidate in cc
  on_candidate-IsJustified gates row metrics none d e = (refl, tt)

  by_phase-IsJustified :
      (phase : OrchPhase) (gates : Gates) (row : PlatformOrch) (stats : WindowStats)
      → row.phase ≡ phase
      → All (IsJustified row) (by_phase F params round phase gates row stats).actions
  unfolding by_phase when_healthy when_degraded when_observing when_cooling cool_down
  by_phase-IsJustified healthy gates row stats h = ground arith
  by_phase-IsJustified degraded gates row stats h =
      if_elim (λ (r : RowResult). All (IsJustified row) r.actions) stats.tick_failed
        (λ _.
          on_candidate-IsJustified gates row (get row.platform_name round.region_metrics) _ h refl)
        (λ _. (refl, tt))
  by_phase-IsJustified observing gates row stats h = ground arith
  by_phase-IsJustified cooldown gates row stats h = ground arith

  -- Every action of a pass rests on its row: a switch only in the auto tier, from degraded, after
  -- the minimal interval, to one region that is not in use and with the current regions as its
  -- baseline; a restore only from observing, of the recorded baseline; a blocked transition only
  -- from degraded. Each names its row's platform.
  pub evaluate_row-IsJustified :
      (gates : Gates) (row : PlatformOrch)
      → All (IsJustified row) (evaluate_row F params round gates row).actions
  unfolding evaluate_row
  evaluate_row-IsJustified gates row = by_parts row.pending (get row.platform_name round.verdicts)
    where
      by_parts :
          (pending : Option OrchProposal) (verdict : Option WindowStats)
          → All (IsJustified row) (by_evidence F params round pending verdict gates row).actions
      by_parts (some b) v = tt
      by_parts none none = tt
      by_parts none (some stats) =
          if_elim (λ (r : RowResult). All (IsJustified row) r.actions) stats.tick_valid
            (λ _. by_phase-IsJustified row.phase gates row stats refl) (λ _. tt)

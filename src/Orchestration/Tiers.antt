-- ===== src/Orchestration/Tiers.antt =====
-- The two autonomy tiers, and ticks without evidence.
use egress_apikey.Prelude.{
  ℕ, ◌≡◌, refl, ◌⊎◌, inl, inr, Bool, true, false, String, Option, none, some, List, [], ◌∷◌, arith,
  unwrap_or, if_elim, is_some, All, All-append, map,
}
use egress_apikey.Prelude.Maps.{get}
use egress_apikey.Orchestration.{
  suggest, OrchPhase, healthy, degraded, observing, cooldown, OrchProposal, PlatformOrch,
  OrchestrationParams,
}
use egress_apikey.Orchestration.Floats.{Float}
use egress_apikey.Orchestration.Verdicts.{WindowStats}
use egress_apikey.Orchestration.Candidates.{RegionMetric, pick_candidate}
use egress_apikey.Orchestration.Evaluate.{
  OrchAction, switch, restore, Gates, RowResult, Round, OrchestrationSection, cool_down,
  act_on_candidate, on_candidate, when_degraded, when_healthy, when_observing, when_cooling,
  by_phase, by_evidence, evaluate_row, evaluate_rows, evaluate_section, round_gates,
}

-- The actions that the driver turns into a PATCH.
abbrev pub is_patch : OrchAction → Bool
is_patch (switch _ _ _ _) = true
is_patch (restore _ _ _) = true
is_patch _ = false

-- What the suggest tier leaves alone in a row.
abbrev pub spent : PlatformOrch → List ℕ × ℕ
spent row = (row.switch_log, row.last_switch_at)

record IsParked (gates : Gates) (row : PlatformOrch) (r : RowResult) : Type 0 where
  harmless : All (λ a. is_patch a ≡ false) r.actions
  unspent : spent r.row ≡ spent row
  gates_kept : r.gates ≡ gates

module _ (F : Float) (params : OrchestrationParams F.Num) (round : Round F)
    (tier : round.autonomy ≡ suggest) where
  on_candidate-IsParked :
      (gates : Gates) (row : PlatformOrch) (cur : List String)
      (candidate : Option (String × RegionMetric F.Num))
      → IsParked gates row (on_candidate F params round gates row cur candidate)
  unfolding on_candidate act_on_candidate cool_down
  on_candidate-IsParked gates row cur (some (region, metric)) = ground arith
  on_candidate-IsParked gates row cur none = ground arith

  by_phase-IsParked :
      (phase : OrchPhase) (gates : Gates) (row : PlatformOrch) (stats : WindowStats)
      → IsParked gates row (by_phase F params round phase gates row stats)
  unfolding by_phase when_healthy when_degraded when_observing when_cooling cool_down
  by_phase-IsParked healthy gates row stats = ground arith
  by_phase-IsParked degraded gates row stats =
      let cur = unwrap_or (get row.platform_name round.current_regions) [] in
      if_elim (IsParked gates row) stats.tick_failed
        (λ _.
          on_candidate-IsParked gates row cur
            (pick_candidate F cur (get row.platform_name round.region_metrics) params))
        (λ _. ground arith)
  by_phase-IsParked observing gates row stats = ground arith
  by_phase-IsParked cooldown gates row stats = ground arith

  by_evidence-IsParked :
      (pending : Option OrchProposal) (verdict : Option WindowStats) (gates : Gates)
      (row : PlatformOrch)
      → IsParked gates row (by_evidence F params round pending verdict gates row)
  by_evidence-IsParked (some b) verdict gates row = ground arith
  by_evidence-IsParked none none gates row = ground arith
  by_evidence-IsParked none (some stats) gates row =
      if_elim (IsParked gates row) stats.tick_valid
        (λ _. by_phase-IsParked row.phase gates row stats) (λ _. ground arith)

  evaluate_rows-parked :
      (gates : Gates) (rows : List PlatformOrch)
      → All (λ a. is_patch a ≡ false) (evaluate_rows F params round gates rows).1
        × (map spent (evaluate_rows F params round gates rows).0 ≡ map spent rows)
  unfolding evaluate_rows evaluate_row
  evaluate_rows-parked gates [] = (tt, refl)
  evaluate_rows-parked gates (row ∷ rows) =
      let r = evaluate_row F params round gates row in
      let parked =
        by_evidence-IsParked row.pending (get row.platform_name round.verdicts) gates row in
      let rest = evaluate_rows-parked r.gates rows in
      (All-append _ r.actions _ parked.harmless rest.0, cc (parked.unspent, rest.1))

-- In the suggest tier a pass asks for no PATCH, and no row's switch accounting changes.
pub suggest_patches_nothing :
    (F : Float) (sec : OrchestrationSection F.Num) (round : Round F)
    → round.autonomy ≡ suggest
    → let (after, actions) = evaluate_section F sec round in
      All (λ a. is_patch a ≡ false) actions × (map spent after.platforms ≡ map spent sec.platforms)
unfolding evaluate_section
suggest_patches_nothing F sec round tier =
    evaluate_rows-parked F sec.params round tier (round_gates F sec round.now) sec.platforms

abbrev pub has_evidence : Option WindowStats → Bool
has_evidence none = false
has_evidence (some stats) = stats.tick_valid

-- Nothing may be concluded of the row this tick.
abbrev pub IsBlind : (F : Float) → Round F → PlatformOrch → Type 0
IsBlind F round row =
    (is_some row.pending ≡ true) ⊎ (has_evidence (get row.platform_name round.verdicts) ≡ false)

module _ (F : Float) (params : OrchestrationParams F.Num) (round : Round F) where
  evaluate_row_blind :
      (gates : Gates) (row : PlatformOrch)
      → IsBlind F round row
      → evaluate_row F params round gates row ≡ record { gates = gates; row = row; actions = [] }
  unfolding evaluate_row
  evaluate_row_blind gates row blind =
      by_parts row.pending (get row.platform_name round.verdicts) blind
    where
      by_parts :
          (pending : Option OrchProposal) (verdict : Option WindowStats)
          → (is_some pending ≡ true) ⊎ (has_evidence verdict ≡ false)
          → by_evidence F params round pending verdict gates row
            ≡ record { gates = gates; row = row; actions = [] }
      by_parts (some b) v h = refl
      by_parts none none h = refl
      by_parts none (some stats) (inl h) = cc
      by_parts none (some stats) (inr h) =
          if_elim (λ (r : RowResult). r ≡ record { gates = gates; row = row; actions = [] })
            stats.tick_valid (λ t. cc) (λ _. refl)

  evaluate_rows_blind :
      (gates : Gates) (rows : List PlatformOrch)
      → All (IsBlind F round) rows
      → evaluate_rows F params round gates rows ≡ (rows, [])
  unfolding evaluate_rows
  evaluate_rows_blind gates [] h = refl
  evaluate_rows_blind gates (row ∷ rows) h =
      rw (evaluate_row_blind gates row h.0) (rw (evaluate_rows_blind gates rows h.1))

-- A tick with no evidence changes nothing: when every row is parked, or has no verdict or only a
-- skipped or environment-suspect one, the section stays as it is and no action is asked for.
pub evaluate_section_blind :
    (F : Float) (sec : OrchestrationSection F.Num) (round : Round F)
    → All (IsBlind F round) sec.platforms
    → evaluate_section F sec round ≡ (sec, [])
unfolding evaluate_section
evaluate_section_blind F sec round h =
    rw (evaluate_rows_blind F sec.params round (round_gates F sec round.now) sec.platforms h)

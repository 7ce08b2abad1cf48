-- ===== src/Orchestration/Cooldown.antt =====
-- The cooldown backoff and its end.
use egress_apikey.Prelude.{
  ℕ, ◌+◌, ◌*◌, ◌^◌, ◌≤◌, ◌<◌, min, ◌≡◌, refl, true, false, none, some, Option, [], ◌∷◌, ◌⊎◌, inl,
  inr, sym, ap, ◌∙◌, if_elim, arith, u64_max, u32_max, sat_add_u32, leb, leb→le, pow_mono,
}
use mathlib.Core.Bool.{false≢true}
use egress_apikey.Prelude.Maps.{get}
use egress_apikey.Orchestration.{
  healthy, degraded, observing, cooldown, OrchPhase, OrchProposal, PlatformOrch,
  OrchestrationParams,
}
use egress_apikey.Orchestration.Floats.{Float}
use egress_apikey.Orchestration.Verdicts.{WindowStats}
use egress_apikey.Orchestration.Evaluate.{
  Gates, Round, RowResult, bookkeep, cool_down, when_cooling, by_phase, by_evidence, evaluate_row,
}

mul_mono : (s a b : ℕ) → a ≤ b → s * a ≤ s * b
mul_mono s a b h = grind arith

-- A row enters cooldown at once, for at least the base and at most the ceiling of the backoff.
pub cool_down_bounds :
    {Num : Type 0} (row : PlatformOrch) (params : OrchestrationParams Num) (now : ℕ)
    → params.cooldown_base_secs ≤ params.cooldown_max_secs
    → now + params.cooldown_max_secs ≤ u64_max
    → let row' = cool_down row params now in
      (row'.phase ≡ cooldown)
      × (now + params.cooldown_base_secs ≤ row'.cooldown_until)
      × (row'.cooldown_until ≤ now + params.cooldown_max_secs)
unfolding cool_down
cool_down_bounds row params now ordered fits =
    let base = params.cooldown_base_secs in
    let grown =
      mul_mono base 1 (2 ^ min row.cooldown_streak 20)
        (pow_mono 0 (min row.cooldown_streak 20) (omega arith)) in
    (refl, omega (arith, grown), omega arith)

-- Cooling down again from the row that the last cooldown left never waits less.
pub cool_down_grows :
    {Num : Type 0} (row : PlatformOrch) (params : OrchestrationParams Num) (now later : ℕ)
    → now ≤ later
    → row.cooldown_streak < u32_max
    → let once = cool_down row params now in
      (once.cooldown_until ≤ (cool_down once params later).cooldown_until)
      × ((cool_down once params later).cooldown_streak ≡ sat_add_u32 row.cooldown_streak 2)
unfolding cool_down
cool_down_grows row params now later h fits =
    let a = min row.cooldown_streak 20 in
    let b = min (sat_add_u32 row.cooldown_streak 1) 20 in
    let grown = mul_mono params.cooldown_base_secs (2 ^ a) (2 ^ b) (pow_mono a b (omega arith)) in
    (omega (arith, grown), omega arith)

-- What the end of a cooldown waits for: no parked proposal (a pending one freezes the row), a verdict
-- on the platform from a tick with evidence, and the end of the backoff.
abbrev pub IsOver : (F : Float) → Round F → PlatformOrch → Type 0
IsOver F round row =
    (row.pending ≡ none)
    × ((stats : WindowStats) × (get row.platform_name round.verdicts ≡ some stats)
        × (stats.tick_valid ≡ true))
    × (row.cooldown_until ≤ round.now)

module _ (F : Float) (params : OrchestrationParams F.Num) (round : Round F) (gates : Gates)
    (row : PlatformOrch) where
  same_stats : {a b : WindowStats} → ◌≡◌ {A = Option WindowStats} (some a) (some b) → a ≡ b
  same_stats e = cc

  no_some : {A : Type 0} {a : A} → ◌≡◌ {A = Option A} (some a) none → ⊥
  no_some e = cc

  -- The row back in healthy and noted where its cooldown is over, or else the row as it is.
  abbrev pub EndsOrStays : RowResult → Type 0
  EndsOrStays r =
      (IsOver F round row
        × (r.row ≡ record row { phase = healthy; good_cycles = 0 })
        × (r.actions ≡ bookkeep row.platform_name ∷ [])
        × (r.gates ≡ gates))
      ⊎ (¬ (IsOver F round row) × (r.row ≡ row) × (r.actions ≡ []) × (r.gates ≡ gates))

  by_phase-ends :
      (phase : OrchPhase) (stats : WindowStats)
      → phase ≡ cooldown
      → row.pending ≡ none
      → get row.platform_name round.verdicts ≡ some stats
      → stats.tick_valid ≡ true
      → EndsOrStays (by_phase F params round phase gates row stats)
  unfolding by_phase when_cooling
  by_phase-ends cooldown stats c free verdict valid =
      if_elim EndsOrStays (leb row.cooldown_until round.now)
        (λ late. inl (
          (free, (stats, verdict, valid), leb→le row.cooldown_until round.now late),
          refl,
          refl,
          refl,
        ))
        (λ early.
          inr ((λ over. too_early row.cooldown_until round.now early over.2), refl, refl, refl))
    where
      too_early : (a b : ℕ) → leb a b ≡ false → a ≤ b → ⊥
      too_early a b early late = ground arith
  by_phase-ends healthy stats c free verdict valid = cc
  by_phase-ends degraded stats c free verdict valid = cc
  by_phase-ends observing stats c free verdict valid = cc

  by_evidence-ends :
      (pending : Option OrchProposal) (verdict : Option WindowStats)
      → row.phase ≡ cooldown
      → row.pending ≡ pending
      → get row.platform_name round.verdicts ≡ verdict
      → EndsOrStays (by_evidence F params round pending verdict gates row)
  by_evidence-ends (some p) verdict c parked v =
      inr ((λ over. no_some (sym parked ∙ over.0)), refl, refl, refl)
  by_evidence-ends none none c free v = inr ((λ over. no_some (sym over.1.1 ∙ v)), refl, refl, refl)
  by_evidence-ends none (some stats) c free v =
      if_elim EndsOrStays stats.tick_valid (by_phase-ends row.phase stats c free v)
        (λ dark. inr ((λ over. no_evidence over.1 dark), refl, refl, refl))
    where
      no_evidence :
          (stats' : WindowStats) × (get row.platform_name round.verdicts ≡ some stats')
            × (stats'.tick_valid ≡ true)
          → stats.tick_valid ≡ false
          → ⊥
      no_evidence (other, found, valid) dark =
          false≢true
            (sym dark ∙ ap (λ (w : WindowStats). w.tick_valid) (same_stats (sym v ∙ found)) ∙ valid)

  -- How a tick leaves a row in cooldown. It comes back to healthy, noted by one bookkeeping action,
  -- exactly if no proposal is parked on it, its platform has a verdict from a tick with evidence and
  -- the backoff has run out; otherwise the tick leaves the row as it is, still in cooldown, without an
  -- action. What is left of the budget and of the cap stays in both cases.
  pub cooldown_ends : row.phase ≡ cooldown → EndsOrStays (evaluate_row F params round gates row)
  unfolding evaluate_row
  cooldown_ends c = by_evidence-ends row.pending (get row.platform_name round.verdicts) c refl refl

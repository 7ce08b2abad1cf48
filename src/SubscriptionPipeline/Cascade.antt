-- ===== src/SubscriptionPipeline/Cascade.antt =====
-- crates/resin-core/src/subscription_pipeline.rs: one pass of the five-step cascade.
use egress_apikey.Prelude.{
  ℕ, zero, suc, ◌+◌, min, Bool, true, false, ◌||◌, String, Option, none, some, List, [], ◌∷◌,
  if◌then◌else◌,
}
use egress_apikey.StrategyEngine.{
  importing, establishing, converged, EstablishStep, import_step, resolve, platform, bind, port,
  apply,
}
use egress_apikey.SubscriptionPipeline.{
  StepStatus, written, already_present, failed, is_failed, PipelineReport,
}
use egress_apikey.SubscriptionPipeline.Calls.{
  Api, Run, pure, tell, ◌>>=◌, ◌>>◌, record_subscription_phase, record_cascade_failure,
}
use egress_apikey.SubscriptionPipeline.Steps.{
  ensure_subscription, resolve_subscription, ensure_platform, apply_strategy,
}
use egress_apikey.SubscriptionPipeline.Compensation.{compensate_failed_cascade}

-- Place in the canonical order of the beats.
abbrev pub beat : EstablishStep → ℕ
beat import_step = 0
beat resolve = 1
beat platform = 2
beat bind = 3
beat port = 4
beat apply = 5

abbrev pub order : ℕ → EstablishStep
order zero = import_step
order (suc zero) = resolve
order (suc (suc zero)) = platform
order (suc (suc (suc zero))) = bind
order (suc (suc (suc (suc zero)))) = port
order (suc (suc (suc (suc (suc n))))) = apply

unfoldable pub stage_from : EstablishStep → ℕ → List StepStatus → EstablishStep × String
stage_from base idx [] = (base, "cascade failed")
stage_from base idx (failed reason ∷ steps) = (order (min (beat base + idx) 5), reason)
stage_from base idx (written ∷ steps) = stage_from base (suc idx) steps
stage_from base idx (already_present ∷ steps) = stage_from base (suc idx) steps

unfoldable pub failed_stage : EstablishStep → List StepStatus → EstablishStep × String
unfolding stage_from
failed_stage base steps = stage_from base 0 steps

abbrev pub upstream : StepStatus
upstream = failed "upstream step failed"

abbrev pub is_written : StepStatus → Bool
is_written written = true
is_written _ = false

abbrev pub report :
    String → StepStatus → StepStatus → StepStatus → StepStatus → StepStatus → PipelineReport
report name s1 s2 s3 s4 s5 = record { subscription = name; steps = s1 ∷ s2 ∷ s3 ∷ s4 ∷ s5 ∷ [] }

module _ {Num Section : Type 0} (api : Api Num Section) where
  -- The end of a failed pass: compensate, then record stage, reason and actions.
  abbrev pub fail_pass :
      String → EstablishStep × String → Bool → Option String → Run Num Section Unit
  fail_pass name failure created failing_platform = do
    actions ← compensate_failed_cascade api name created failing_platform
    tell (record_cascade_failure name failure.0 failure.1 actions)

  abbrev pub finish_apply : String → StepStatus → StepStatus × Option String → Run Num Section Unit
  finish_apply name s4 (failed reason, failing_platform) =
      fail_pass name (apply, reason) (is_written s4) failing_platform
  finish_apply name s4 (_, failing_platform) =
      tell (record_subscription_phase name converged none none)

  -- From the apply beat on.
  abbrev pub apply_beat :
      String → StepStatus → StepStatus → StepStatus → StepStatus → Run Num Section PipelineReport
  apply_beat name s1 s2 s3 s4 = do
    tell (record_subscription_phase name establishing (some apply) none)
    s5 ← apply_strategy api
    finish_apply name s4 s5
    pure (report name s1 s2 s3 s4 s5.0)

  abbrev pub after_platform :
      String → StepStatus → StepStatus → StepStatus × StepStatus → Run Num Section PipelineReport
  after_platform name s1 s2 s =
      if is_failed s.0 || is_failed s.1
      then (do
        fail_pass name (failed_stage platform (s.0 ∷ s.1 ∷ [])) false none
        pure (report name s1 s2 s.0 s.1 upstream))
      else apply_beat name s1 s2 s.0 s.1

  -- From the platform beat on.
  abbrev pub platform_beat : String → StepStatus → StepStatus → Run Num Section PipelineReport
  platform_beat name s1 s2 = do
    tell (record_subscription_phase name establishing (some platform) none)
    s ← ensure_platform api name
    after_platform name s1 s2 s

  abbrev pub resolve_after : String → StepStatus → Run Num Section StepStatus
  resolve_after name s1 = if is_failed s1 then pure upstream else resolve_subscription api name

  abbrev pub after_landing : String → StepStatus → StepStatus → Run Num Section PipelineReport
  after_landing name s1 s2 =
      if is_failed s1 || is_failed s2
      then (do
        fail_pass name (failed_stage import_step (s1 ∷ s2 ∷ [])) false none
        pure (report name s1 s2 upstream upstream upstream))
      else platform_beat name s1 s2

  unfoldable pub run_pipeline : String → String → Run Num Section PipelineReport
  unfolding ensure_subscription resolve_subscription ensure_platform apply_strategy failed_stage
      compensate_failed_cascade
  run_pipeline name url = do
    tell (record_subscription_phase name importing none none)
    s1 ← ensure_subscription api name url
    s2 ← resolve_after name s1
    after_landing name s1 s2

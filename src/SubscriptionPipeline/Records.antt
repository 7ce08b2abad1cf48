-- ===== src/SubscriptionPipeline/Records.antt =====
-- What a pass leaves in the status row of its subscription.
use egress_apikey.Prelude.{◌≡◌, ◌∙◌, refl, false, String, Option, none, some, List, [], ◌∷◌, length}
use egress_apikey.StrategyEngine.{
  EstablishStep, import_step, resolve, platform, bind, apply, converged,
}
use egress_apikey.SubscriptionPipeline.{
  StepStatus, written, already_present, failed, is_failed, PipelineReport,
}
use egress_apikey.SubscriptionPipeline.Calls.{
  Trace, Api, record_subscription_phase, record_cascade_failure,
}
use egress_apikey.SubscriptionPipeline.Compensation.{compensate_failed_cascade}
use egress_apikey.SubscriptionPipeline.Cascade.{
  failed_stage, finish_apply, apply_beat, after_platform, after_landing, run_pipeline,
}

-- The five steps are these beats.
abbrev pub beats : List EstablishStep
beats = import_step ∷ resolve ∷ platform ∷ bind ∷ apply ∷ []

-- The first failed step, by its beat, with its reason.
abbrev pub first_failed : List EstablishStep → List StepStatus → Option (EstablishStep × String)
first_failed (b ∷ bs) (failed reason ∷ steps) = some (b, reason)
first_failed (b ∷ bs) (written ∷ steps) = first_failed bs steps
first_failed (b ∷ bs) (already_present ∷ steps) = first_failed bs steps
first_failed _ _ = none

first_failed-skip :
    (b : EstablishStep) (bs : List EstablishStep) (s : StepStatus) (steps : List StepStatus)
    → is_failed s ≡ false
    → first_failed (b ∷ bs) (s ∷ steps) ≡ first_failed bs steps
first_failed-skip b bs written steps h = refl
first_failed-skip b bs already_present steps h = refl
first_failed-skip b bs (failed reason) steps h = cc

-- Past the two data-landing steps.
beats-landed :
    (s1 s2 : StepStatus) (steps : List StepStatus)
    → is_failed s1 ≡ false
    → is_failed s2 ≡ false
    → first_failed beats (s1 ∷ s2 ∷ steps) ≡ first_failed (platform ∷ bind ∷ apply ∷ []) steps
beats-landed s1 s2 steps h1 h2 =
    first_failed-skip import_step (resolve ∷ platform ∷ bind ∷ apply ∷ []) s1 (s2 ∷ steps) h1
    ∙ first_failed-skip resolve (platform ∷ bind ∷ apply ∷ []) s2 steps h2

module _ {Num Section : Type 0} where
  -- The last call made is the status write for that outcome; a failure lists four actions.
  abbrev pub Recorded : String → Option (EstablishStep × String) → Trace Num Section → Type 0
  Recorded name none t =
      (rest : Trace Num Section) × (t ≡ record_subscription_phase name converged none none ∷ rest)
  Recorded name (some (stage, reason)) t =
      (actions : List String) × (rest : Trace Num Section) × (t
        ≡ record_cascade_failure name stage reason actions ∷ rest)
      × (length actions ≡ 4)

  module _ (api : Api Num Section) where
    abbrev Outcome : String → PipelineReport × Trace Num Section → Type 0
    Outcome name result = Recorded name (first_failed beats result.0.steps) result.1

    finish_apply-Recorded :
        (name : String) (s4 : StepStatus) (s : StepStatus × Option String) (t : Trace Num Section)
        → Recorded name (first_failed (apply ∷ []) (s.0 ∷ [])) (finish_apply api name s4 s t).1
    unfolding compensate_failed_cascade
    finish_apply-Recorded name s4 (written, o) t = (t, refl)
    finish_apply-Recorded name s4 (already_present, o) t = (t, refl)
    finish_apply-Recorded name s4 (failed reason, o) t = (_, _, refl, refl)

    apply_beat-Outcome :
        (name : String) (s1 s2 s3 s4 : StepStatus) (t : Trace Num Section)
        → is_failed s1 ≡ false
        → is_failed s2 ≡ false
        → is_failed s3 ≡ false
        → is_failed s4 ≡ false
        → Outcome name (apply_beat api name s1 s2 s3 s4 t)
    apply_beat-Outcome name s1 s2 s3 s4 t h1 h2 h3 h4 = rw (beats-landed s1 s2 _ h1 h2) (
        rw (first_failed-skip platform (bind ∷ apply ∷ []) s3 _ h3)
          (rw (first_failed-skip bind (apply ∷ []) s4 _ h4) (finish_apply-Recorded name s4 _ _)))

    after_platform-Outcome :
        (name : String) (s1 s2 : StepStatus) (s : StepStatus × StepStatus) (t : Trace Num Section)
        → is_failed s1 ≡ false
        → is_failed s2 ≡ false
        → Outcome name (after_platform api name s1 s2 s t)
    unfolding failed_stage compensate_failed_cascade
    after_platform-Outcome name s1 s2 (failed reason, s4) t h1 h2 =
        rw (beats-landed s1 s2 _ h1 h2) (_, _, refl, refl)
    after_platform-Outcome name s1 s2 (written, failed reason) t h1 h2 =
        rw (beats-landed s1 s2 _ h1 h2) (_, _, refl, refl)
    after_platform-Outcome name s1 s2 (already_present, failed reason) t h1 h2 =
        rw (beats-landed s1 s2 _ h1 h2) (_, _, refl, refl)
    after_platform-Outcome name s1 s2 (written, written) t h1 h2 =
        apply_beat-Outcome name s1 s2 written written t h1 h2 refl refl
    after_platform-Outcome name s1 s2 (written, already_present) t h1 h2 =
        apply_beat-Outcome name s1 s2 written already_present t h1 h2 refl refl
    after_platform-Outcome name s1 s2 (already_present, written) t h1 h2 =
        apply_beat-Outcome name s1 s2 already_present written t h1 h2 refl refl
    after_platform-Outcome name s1 s2 (already_present, already_present) t h1 h2 =
        apply_beat-Outcome name s1 s2 already_present already_present t h1 h2 refl refl

    after_landing-Outcome :
        (name : String) (s1 s2 : StepStatus) (t : Trace Num Section)
        → Outcome name (after_landing api name s1 s2 t)
    unfolding failed_stage compensate_failed_cascade
    after_landing-Outcome name (failed reason) s2 t = (_, _, refl, refl)
    after_landing-Outcome name written (failed reason) t = (_, _, refl, refl)
    after_landing-Outcome name already_present (failed reason) t = (_, _, refl, refl)
    after_landing-Outcome name written written t =
        after_platform-Outcome name written written _ _ refl refl
    after_landing-Outcome name written already_present t =
        after_platform-Outcome name written already_present _ _ refl refl
    after_landing-Outcome name already_present written t =
        after_platform-Outcome name already_present written _ _ refl refl
    after_landing-Outcome name already_present already_present t =
        after_platform-Outcome name already_present already_present _ _ refl refl

    -- A pass ends with the status write that its report calls for: Converged if no step failed, and
    -- otherwise the failure of the first failed step, under its beat and with its reason, and with
    -- four compensation entries.
    pub run_pipeline-Recorded :
        (name url : String) (t : Trace Num Section)
        → Recorded name
            (first_failed beats (run_pipeline api name url t).0.steps)
            (run_pipeline api name url t).1
    unfolding run_pipeline
    run_pipeline-Recorded name url t = after_landing-Outcome name _ _ _

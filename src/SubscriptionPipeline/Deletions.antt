-- ===== src/SubscriptionPipeline/Deletions.antt =====
-- What a pass deletes on Resin.
use mathlib.Core.Path.{subst}
use egress_apikey.Prelude.{
  ◌≡◌, refl, sym, ap, ◌∙◌, Bool, true, false, ◌||◌, String, Option, none, some, [], ◌∷◌, if_elim,
  inl, inr, eq_iff, ◌⊎◌, str_eq, find,
}
use egress_apikey.Prelude.Results.{Result, ok, err}
use egress_apikey.Prelude.Json.{Json}
use egress_apikey.StrategyEngine.{EstablishStep, apply, platform, establishing, importing}
use egress_apikey.SubscriptionPipeline.{
  StepStatus, written, already_present, failed, is_failed, PipelineReport,
}
use egress_apikey.SubscriptionPipeline.Calls.{
  Trace, Api, Run, strategy_apply, list_platforms, record_subscription_phase,
}
use egress_apikey.SubscriptionPipeline.Steps.{
  ensure_subscription, ensure_platform, apply_strategy, applied_status, items_arr,
}
use egress_apikey.SubscriptionPipeline.Compensation.{
  compensate_failed_cascade, delete_owned, delete_cascade_platform, delete_listed, delete_found,
  resolve_id_in, text_at,
}
use egress_apikey.SubscriptionPipeline.Cascade.{
  is_written, report, fail_pass, finish_apply, apply_beat, after_platform, platform_beat,
  resolve_after, after_landing, run_pipeline,
}
use egress_apikey.SubscriptionPipeline.Quiet.{
  deleted, ensure_subscription-Quiet, resolve_after-Quiet, ensure_platform-Quiet,
}
use egress_apikey.SubscriptionPipeline.Listed.{is_platform, resolve_id_in-find}

module _ {Num Section : Type 0} where
  module _ (api : Api Num Section) where
    -- One id, right after the list of platforms whose first usable row for `name` has that id.
    abbrev pub DeletesListed : String → String → Trace Num Section → Trace Num Section → Type 0
    DeletesListed name id after t =
        (live : Json Num) × (row : Json Num) × (deleted after
          ≡ (id, list_platforms ∷ t) ∷ deleted t)
        × (api.platforms (list_platforms ∷ t) ≡ ok live)
        × (find (is_platform name) (items_arr live) ≡ some row)
        × (text_at "id" row ≡ id)

    abbrev AtMostOne : String → Trace Num Section → Trace Num Section → Type 0
    AtMostOne name after t =
        (deleted after ≡ deleted t) ⊎ ((id : String) × DeletesListed name id after t)

    delete_listed-AtMostOne :
        (name : String) (r : Result (Json Num)) (t : Trace Num Section)
        → api.platforms (list_platforms ∷ t) ≡ r
        → AtMostOne name (delete_listed api name r (list_platforms ∷ t)).1 t
    delete_listed-AtMostOne name (err e) t h = inl refl
    delete_listed-AtMostOne name (ok live) t h = found (resolve_id_in live name) refl
      where
        found :
            (o : Option String)
            → resolve_id_in live name ≡ o
            → AtMostOne name (delete_found api name o (list_platforms ∷ t)).1 t
        found none e = inl refl
        found (some id) e =
            let (row, f, same) = resolve_id_in-find live name e in
            inr (id, (live, row, refl, h, f, same))

    -- A pass may delete where it created the platform and the failure is about it.
    abbrev DeletesOwn :
        String → Bool → Option String → Trace Num Section → Trace Num Section → Type 0
    DeletesOwn name created owner after t =
        (deleted after ≡ deleted t)
        ⊎ ((created ≡ true) × (owner ≡ some name) × ((id : String) × DeletesListed name id after t))

    own :
        (name : String) (after t : Trace Num Section)
        → AtMostOne name after t
        → DeletesOwn name true (some name) after t
    own name after t (inl e) = inl e
    own name after t (inr d) = inr (refl, refl, d)

    delete_owned-DeletesOwn :
        (name owner : String) (b : Bool) (t : Trace Num Section)
        → str_eq owner name ≡ b
        → DeletesOwn name true (some owner) (delete_owned api name owner b t).1 t
    unfolding delete_cascade_platform
    delete_owned-DeletesOwn name owner true t e =
        subst (λ o. DeletesOwn name true (some o) (delete_owned api name owner true t).1 t)
          (sym ((eq_iff owner name).0 e))
          (own name (delete_owned api name owner true t).1 t
            (delete_listed-AtMostOne name (api.platforms (list_platforms ∷ t)) t refl))
    delete_owned-DeletesOwn name owner false t e = inl refl

    fail_pass-DeletesOwn :
        (name : String) (failure : EstablishStep × String) (created : Bool) (owner : Option String)
        (t : Trace Num Section)
        → DeletesOwn name created owner (fail_pass api name failure created owner t).1 t
    unfolding compensate_failed_cascade
    fail_pass-DeletesOwn name failure false owner t = inl refl
    fail_pass-DeletesOwn name failure true none t = inl refl
    fail_pass-DeletesOwn name failure true (some owner) t =
        delete_owned-DeletesOwn name owner (str_eq owner name) t refl

    -- One id was deleted, after the apply step failed on `name`: the call of the apply, the list of
    -- platforms and the deletion stand in a row.
    abbrev pub CompensatesOwn :
        String → PipelineReport × Trace Num Section → Trace Num Section → Type 0
    CompensatesOwn name result t =
        (id : String) × (s1 : StepStatus) × (s2 : StepStatus) × (s3 : StepStatus)
        × (reason : String) × (w : Trace Num Section) × (live : Json Num) × (row : Json Num)
        × (deleted result.1 ≡ (id, list_platforms ∷ strategy_apply ∷ w) ∷ deleted t)
        × (result.0.steps ≡ s1 ∷ s2 ∷ s3 ∷ written ∷ failed reason ∷ [])
        × (applied_status (api.applied (strategy_apply ∷ w)) ≡ (failed reason, some name))
        × (api.platforms (list_platforms ∷ strategy_apply ∷ w) ≡ ok live)
        × (find (is_platform name) (items_arr live) ≡ some row)
        × (text_at "id" row ≡ id)

    abbrev KeepsOrCompensates :
        String → PipelineReport × Trace Num Section → Trace Num Section → Type 0
    KeepsOrCompensates name result t = (deleted result.1 ≡ deleted t) ⊎ CompensatesOwn name result t

    written-of : (s : StepStatus) → is_written s ≡ true → s ≡ written
    written-of written h = refl
    written-of already_present h = cc
    written-of (failed reason) h = cc

    finish_apply-own :
        (name : String) (s1 s2 s3 s4 : StepStatus) (s : StepStatus × Option String)
        (w : Trace Num Section)
        → applied_status (api.applied (strategy_apply ∷ w)) ≡ s
        → KeepsOrCompensates name
            (report name s1 s2 s3 s4 s.0, (finish_apply api name s4 s (strategy_apply ∷ w)).1)
            w
    finish_apply-own name s1 s2 s3 s4 (written, owner) w e = inl refl
    finish_apply-own name s1 s2 s3 s4 (already_present, owner) w e = inl refl
    finish_apply-own name s1 s2 s3 s4 (failed reason, owner) w e =
        elim (fail_pass-DeletesOwn name (apply, reason) (is_written s4) owner
          (strategy_apply ∷ w)) [
            | inl k ↦ inl k
            | inr (created, same, (id, (live, row, k, listed, first, same_id))) ↦ inr (
              id,
              s1,
              s2,
              s3,
              reason,
              w,
              live,
              row,
              k,
              ap (λ x. s1 ∷ s2 ∷ s3 ∷ x ∷ failed reason ∷ []) (written-of s4 created),
              e ∙ ap (λ o. (failed reason, o)) same,
              listed,
              first,
              same_id,
            )
          ]

    apply_beat-own :
        (name : String) (s1 s2 s3 s4 : StepStatus) (t : Trace Num Section)
        → KeepsOrCompensates name (apply_beat api name s1 s2 s3 s4 t) t
    unfolding apply_strategy
    apply_beat-own name s1 s2 s3 s4 t =
        let w = record_subscription_phase name establishing (some apply) none ∷ t in
        finish_apply-own name s1 s2 s3 s4 (applied_status (api.applied (strategy_apply ∷ w))) w refl

    after_platform-own :
        (name : String) (s1 s2 : StepStatus) (s : StepStatus × StepStatus) (t : Trace Num Section)
        → KeepsOrCompensates name (after_platform api name s1 s2 s t) t
    unfolding compensate_failed_cascade
    after_platform-own name s1 s2 s t =
        if_elim (λ (m : Run Num Section PipelineReport). KeepsOrCompensates name (m t) t)
          (is_failed s.0 || is_failed s.1) (λ _. inl refl)
          (λ _. apply_beat-own name s1 s2 s.0 s.1 t)

    -- Calls that delete nothing may come before.
    after_quiet :
        (name : String) (result : PipelineReport × Trace Num Section) (u t : Trace Num Section)
        → deleted u ≡ deleted t
        → KeepsOrCompensates name result u
        → KeepsOrCompensates name result t
    after_quiet name result u t e (inl k) = inl (k ∙ e)
    after_quiet name result u t e (inr (id, s1, s2, s3, reason, w, live, row, k, a, b, c, f, g)) =
        let d : String × Trace Num Section = (id, list_platforms ∷ strategy_apply ∷ w) in
        inr (id, s1, s2, s3, reason, w, live, row, k ∙ ap (λ l. d ∷ l) e, a, b, c, f, g)

    after_landing-own :
        (name : String) (s1 s2 : StepStatus) (t : Trace Num Section)
        → KeepsOrCompensates name (after_landing api name s1 s2 t) t
    unfolding compensate_failed_cascade
    after_landing-own name s1 s2 t =
        let u = record_subscription_phase name establishing (some platform) none ∷ t in
        if_elim (λ (m : Run Num Section PipelineReport). KeepsOrCompensates name (m t) t)
          (is_failed s1 || is_failed s2) (λ _. inl refl)
          (λ _.
            after_quiet name (platform_beat api name s1 s2 t) (ensure_platform api name u).1 t
              (ensure_platform-Quiet api name u)
              (after_platform-own name s1 s2 (ensure_platform api name u).0
                (ensure_platform api name u).1))

    -- A pass deletes nothing, or makes exactly one deletion. Then step four of its report is written
    -- and step five failed; that failure belongs to `name`, by the answer to the apply call; the next
    -- call lists the platforms and the call after it is the deletion; and the id deleted is that of
    -- the first row of this list that has the name `name` and an id that is not empty.
    pub run_pipeline-deletes_own :
        (name url : String) (t : Trace Num Section)
        → (deleted (run_pipeline api name url t).1 ≡ deleted t)
          ⊎ CompensatesOwn name (run_pipeline api name url t) t
    unfolding run_pipeline
    run_pipeline-deletes_own name url t =
        let u = record_subscription_phase name importing none none ∷ t in
        let r1 = ensure_subscription api name url u in
        let r2 = resolve_after api name r1.0 r1.1 in
        after_quiet name (after_landing api name r1.0 r2.0 r2.1) r2.1 t
          (resolve_after-Quiet api name r1.0 r1.1 ∙ ensure_subscription-Quiet api name url u)
          (after_landing-own name r1.0 r2.0 r2.1)

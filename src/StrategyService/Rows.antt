-- ===== src/StrategyService/Rows.antt =====
-- What a status write that succeeds leaves in the document.
use mathlib.Core.Path.{subst}
use egress_apikey.Prelude.{
  ◌≡◌, ◌≤◌, refl, sym, ap, ◌∙◌, Bool, true, false, String, Option, none, some, is_some, List,
  length, ltb, str_eq, if◌then◌else◌, Bool-cases, inl, inr, ltb→le,
}
use egress_apikey.Prelude.Results.{Result, ok, err}
use egress_apikey.Prelude.Upserts.{upsert, updated, entry_of, entry_of-upsert}
use egress_apikey.StrategyEngine.{
  SubscriptionPhase, never, importing, establishing, converged, failed, needs_approval,
  EstablishStep, StrategyConfig,
}
use egress_apikey.StrategyService.{
  Row, row_name, phase_update, phase_row, failure_update, failure_row, cascade_error, saved, land,
  write_rows, also, phase_refusal, stage_refusal, reason_refusal, failure_refusal,
  record_subscription_phase, record_cascade_failure, max_subscription_status_rows,
}

abbrev pub row_of : String → List Row → Option Row
row_of name rows = entry_of row_name name rows

abbrev pub wants_stage : SubscriptionPhase → Bool
wants_stage establishing = true
wants_stage failed = true
wants_stage _ = false

abbrev pub wants_reason : SubscriptionPhase → Bool
wants_reason failed = true
wants_reason _ = false

also-none : (a b : Option String) → also a b ≡ none → (a ≡ none) × (b ≡ none)
also-none none b h = (refl, h)
also-none (some message) b h = cc

stage_shape :
    (phase : SubscriptionPhase) (stage : Option EstablishStep)
    → stage_refusal phase stage ≡ none
    → is_some stage ≡ wants_stage phase
unfolding stage_refusal
stage_shape never none h = refl
stage_shape importing none h = refl
stage_shape converged none h = refl
stage_shape needs_approval none h = refl
stage_shape never (some stage) h = cc
stage_shape importing (some stage) h = cc
stage_shape converged (some stage) h = cc
stage_shape needs_approval (some stage) h = cc
stage_shape establishing none h = cc
stage_shape failed none h = cc
stage_shape establishing (some stage) h = refl
stage_shape failed (some stage) h = refl

reason_shape :
    (phase : SubscriptionPhase) (reason : Option String)
    → reason_refusal phase reason ≡ none
    → is_some reason ≡ wants_reason phase
unfolding reason_refusal
reason_shape never none h = refl
reason_shape importing none h = refl
reason_shape establishing none h = refl
reason_shape converged none h = refl
reason_shape needs_approval none h = refl
reason_shape failed (some reason) h = refl
reason_shape failed none h = cc
reason_shape never (some reason) h = cc
reason_shape importing (some reason) h = cc
reason_shape establishing (some reason) h = cc
reason_shape converged (some reason) h = cc
reason_shape needs_approval (some reason) h = cc

pub phase_shape :
    (name : String) (phase : SubscriptionPhase) (stage : Option EstablishStep)
    (phase_error : Option String)
    → phase_refusal name phase stage phase_error ≡ none
    → (is_some stage ≡ wants_stage phase) × (is_some phase_error ≡ wants_reason phase)
unfolding phase_refusal
phase_shape name phase stage phase_error h =
    let (a, rest) = also-none _ _ h in
    let (b, rest2) = also-none _ _ rest in
    let (c, d) = also-none _ _ rest2 in
    (stage_shape phase stage c, reason_shape phase phase_error d)

err≢ok : {A : Type 0} {message : String} {a : A} → err message ≡ ok a → ⊥
err≢ok h = cc

module _ {Section : Type 0} (load : Result (StrategyConfig Section))
    (save : StrategyConfig Section → Result Unit) where
  -- A write that succeeded landed the document that was read with its rows changed, within bounds.
  abbrev pub Landed :
      (List Row → List Row) → StrategyConfig Section → StrategyConfig Section → Type 0
  Landed f before after =
      (after ≡ record before { subscriptions = f before.subscriptions })
      × (save after ≡ ok tt)
      × (length after.subscriptions ≤ max_subscription_status_rows)

  saved-ok :
      (config : StrategyConfig Section) (r : Result Unit) {after : StrategyConfig Section}
      → saved load save config r ≡ ok after
      → (config ≡ after) × (r ≡ ok tt)
  saved-ok config (ok tt) h = (cc, refl)
  saved-ok config (err e) h = cc

  land-ok :
      (config : StrategyConfig Section) {after : StrategyConfig Section}
      → land load save config ≡ ok after
      → (after ≡ config)
        × (save after ≡ ok tt)
        × (length after.subscriptions ≤ max_subscription_status_rows)
  land-ok config {after} h =
      elim (Bool-cases (ltb max_subscription_status_rows (length config.subscriptions))) [
        | inl e ↦ absurd (
            err≢ok (
              sym (
                ap
                  (λ b.
                    if b
                    then err "subscriptions status array too long (max 512)"
                    else saved load save config (save config))
                  e)
              ∙ h))
        | inr e ↦
            let (same, done) = saved-ok config (save config) (
              sym (
                ap
                  (λ b.
                    if b
                    then err "subscriptions status array too long (max 512)"
                    else saved load save config (save config))
                  e)
              ∙ h) in
            (
              sym same,
              ap save (sym same) ∙ done,
              subst
                  (λ (c : StrategyConfig Section).
                    length c.subscriptions ≤ max_subscription_status_rows)
                  same (ltb→le max_subscription_status_rows (length config.subscriptions) e),
            )
      ]

  pub write_rows-ok :
      (o : Option String) (f : List Row → List Row) (r : Result (StrategyConfig Section))
      {after : StrategyConfig Section}
      → write_rows load save o f r ≡ ok after
      → (o ≡ none) × (before : StrategyConfig Section) × (r ≡ ok before) × Landed f before after
  write_rows-ok (some message) f r h = cc
  write_rows-ok none f (err e) h = cc
  write_rows-ok none f (ok before) {after} h =
      let (same, done, few) =
        land-ok (record before { subscriptions = f before.subscriptions }) h in
      (refl, before, refl, (same, done, few))

  -- A phase write that succeeds landed, through the store, the document that it read with one
  -- change: the row of `name` has the new phase, stage and error, a new row where there was none,
  -- and its cascade error is kept unless the phase is Converged. Every other row, the platforms and
  -- the generation stay, and at most 512 rows are left.
  pub record_subscription_phase-row :
      (name : String) (phase : SubscriptionPhase) (stage : Option EstablishStep)
      (phase_error : Option String) (n : String) {after : StrategyConfig Section}
      → record_subscription_phase load save name phase stage phase_error ≡ ok after
      → (before : StrategyConfig Section) × (load ≡ ok before)
        × (save after ≡ ok tt)
        × (row_of n after.subscriptions ≡ (
            if str_eq name n
            then some (
                updated
                  (phase_update phase stage phase_error)
                  (phase_row name phase stage phase_error)
                  (row_of name before.subscriptions))
            else row_of n before.subscriptions))
        × (after.platforms ≡ before.platforms)
        × (after.generation ≡ before.generation)
        × (length after.subscriptions ≤ max_subscription_status_rows)
  unfolding record_subscription_phase
  record_subscription_phase-row name phase stage phase_error n {after} h =
      let update = phase_update phase stage phase_error in
      let new = phase_row name phase stage phase_error in
      let (allowed, before, loaded, (same, done, few)) =
        write_rows-ok (phase_refusal name phase stage phase_error) (upsert row_name name update new)
          load h in
      (
        before,
        loaded,
        done,
        ap (λ (c : StrategyConfig Section). row_of n c.subscriptions) same
            ∙ entry_of-upsert row_name name n update new before.subscriptions (λ _. refl) refl,
        ap (λ (c : StrategyConfig Section). c.platforms) same,
        ap (λ (c : StrategyConfig Section). c.generation) same,
        few,
      )

  -- A phase write that succeeds gave a stage in Establishing and Failed and only there, and a reason
  -- in Failed and only there.
  pub record_subscription_phase-shape :
      (name : String) (phase : SubscriptionPhase) (stage : Option EstablishStep)
      (phase_error : Option String) {after : StrategyConfig Section}
      → record_subscription_phase load save name phase stage phase_error ≡ ok after
      → (is_some stage ≡ wants_stage phase) × (is_some phase_error ≡ wants_reason phase)
  unfolding record_subscription_phase
  record_subscription_phase-shape name phase stage phase_error {after} h =
      let update =
        upsert row_name name (phase_update phase stage phase_error)
          (phase_row name phase stage phase_error) in
      phase_shape name phase stage phase_error
        (write_rows-ok (phase_refusal name phase stage phase_error) update load h).0

  -- A failure write that succeeds landed, through the store, the document that it read with one
  -- change: the row of `name` is Failed at the stage, with the reason and the record of the cascade
  -- error, a new row where there was none. Every other row, the platforms and the generation stay.
  pub record_cascade_failure-row :
      (name : String) (stage : EstablishStep) (reason : String) (rollback_actions : List String)
      (n : String) {after : StrategyConfig Section}
      → record_cascade_failure load save name stage reason rollback_actions ≡ ok after
      → (before : StrategyConfig Section) × (load ≡ ok before)
        × (save after ≡ ok tt)
        × (row_of n after.subscriptions ≡ (
            if str_eq name n
            then some (
                updated
                  (failure_update (cascade_error load save stage reason rollback_actions))
                  (failure_row name (cascade_error load save stage reason rollback_actions))
                  (row_of name before.subscriptions))
            else row_of n before.subscriptions))
        × (after.platforms ≡ before.platforms)
        × (after.generation ≡ before.generation)
  unfolding record_cascade_failure
  record_cascade_failure-row name stage reason rollback_actions n {after} h =
      let e = cascade_error load save stage reason rollback_actions in
      let (allowed, before, loaded, (same, done, few)) =
        write_rows-ok (failure_refusal name reason rollback_actions)
          (upsert row_name name (failure_update e) (failure_row name e)) load h in
      (
        before,
        loaded,
        done,
        ap (λ (c : StrategyConfig Section). row_of n c.subscriptions) same
            ∙ entry_of-upsert row_name name n (failure_update e) (failure_row name e)
                before.subscriptions (λ _. refl) refl,
        ap (λ (c : StrategyConfig Section). c.platforms) same,
        ap (λ (c : StrategyConfig Section). c.generation) same,
      )

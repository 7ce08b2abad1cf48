-- ===== src/StrategyService/Entries.antt =====
-- The writes of the desired state in strategy_service.rs: what one that succeeds leaves.
use egress_apikey.Prelude.{
  ℕ, ◌+◌, ◌%◌, ◌^◌, ◌≡◌, refl, sym, ap, ◌∙◌, String, Option, none, some, str_eq, if◌then◌else◌,
}
use mathlib.Core.Path.{subst}
use egress_apikey.Prelude.Results.{Result, ok, err}
use egress_apikey.Prelude.Upserts.{upsert, updated, entry_of, entry_of-upsert}
use egress_apikey.StrategyEngine.{PlatformStrategy}
use egress_apikey.StrategyService.Validation.{validate}
use egress_apikey.StrategyService.Bounds.{IsValid, metadata-IsValid}
use egress_apikey.StrategyService.Accepted.{validate-IsValid}
use egress_apikey.StrategyService.Edits.{
  next_generation, PlatformEdit, set_regions, set_subscriptions, set_manual_nodes, edit_refusal,
  edit_entry, new_entry, platform_name_of, Config, get, landed, checked, bumped, store, with_read,
  edit_platform, set_platform,
}
use egress_apikey.Orchestration.Floats.{Float}

keeps :
    (edit : PlatformEdit) (ps : PlatformStrategy)
    → platform_name_of (edit_entry edit ps) ≡ platform_name_of ps
keeps (set_regions l) ps = refl
keeps (set_subscriptions l) ps = refl
keeps (set_manual_nodes l) ps = refl

named : (name : String) (edit : PlatformEdit) → platform_name_of (new_entry name edit) ≡ name
named name (set_regions l) = refl
named name (set_subscriptions l) = refl
named name (set_manual_nodes l) = refl

module _ (F : Float) where
  module _ (load : Result (Option (Config F))) (save : Config F → Result Unit) (now : ℕ) where
    landed-ok :
        (config : Config F) (r : Result Unit) {after : Config F}
        → landed F load save now config r ≡ ok after
        → (after ≡ config) × (r ≡ ok tt)
    landed-ok config (ok tt) h = (cc, refl)
    landed-ok config (err e) h = cc

    pub checked-ok :
        (config : Config F) (refusal : Option String) (next : Config F) {after : Config F}
        → checked F load save now config refusal next ≡ ok after
        → (refusal ≡ none) × (after ≡ next) × (save next ≡ ok tt)
    checked-ok config (some message) next h = cc
    checked-ok config none next h =
        let (same, done) = landed-ok next (save next) h in (refl, same, done)

    pub with_read-ok :
        (r : Result (Config F)) (f : Config F → Result (Config F)) {after : Config F}
        → with_read F load save now r f ≡ ok after
        → (config : Config F) × (r ≡ ok config) × (f config ≡ ok after)
    with_read-ok (ok config) f h = (config, refl, h)
    with_read-ok (err e) f h = cc

    -- A write of the desired state that succeeds landed a valid document, one generation on.
    pub store-ok :
        (config : Config F) {after : Config F}
        → store F load save now config ≡ ok after
        → (after ≡ bumped F load save now config) × (save after ≡ ok tt) × IsValid F after
    unfolding store
    store-ok config {after} h =
        let (accepted, same, done) =
          checked-ok config (validate F config) (bumped F load save now config) h in
        (
          same,
          ap save same ∙ done,
          subst (IsValid F) (sym same) (
              metadata-IsValid F config (next_generation F config) config.applied_generation
                config.last_apply_at (some now) config.last_apply_error
                ((validate-IsValid F config).0 accepted)),
        )

    edit_platform-ok :
        (refusal : Option String) (name : String) (edit : PlatformEdit) {after : Config F}
        → edit_platform F load save now refusal name edit ≡ ok after
        → (before : Config F) × (get F load save now ≡ ok before)
          × (store F load save now (record before {
            platforms =
                upsert platform_name_of name
                  (edit_entry edit)
                  (new_entry name edit)
                  before.platforms;
          })
              ≡ ok after)
    edit_platform-ok (some message) name edit h = cc
    edit_platform-ok none name edit h = with_read-ok (get F load save now) _ h

    -- An edit of the canvas that succeeds landed, through the store, the document that it read with
    -- one change: the entry of `name` is edited, a new entry where there was none. Every other entry,
    -- the version, the applied generation, the time and the error of the last apply, the status rows,
    -- the acknowledgements and the orchestration section stay. The generation is one on, the time of
    -- the update is now, and the validator accepts the document.
    pub set_platform-entry :
        (name : String) (edit : PlatformEdit) (n : String) {after : Config F}
        → set_platform F load save now name edit ≡ ok after
        → (before : Config F) × (get F load save now ≡ ok before)
          × (save after ≡ ok tt)
          × (entry_of platform_name_of n after.platforms ≡ (
              if str_eq name n
              then some (
                  updated
                    (edit_entry edit)
                    (new_entry name edit)
                    (entry_of platform_name_of name before.platforms))
              else entry_of platform_name_of n before.platforms))
          × (after.version ≡ before.version)
          × (after.applied_generation ≡ before.applied_generation)
          × (after.last_apply_at ≡ before.last_apply_at)
          × (after.last_apply_error ≡ before.last_apply_error)
          × (after.updated_at ≡ some now)
          × (after.subscriptions ≡ before.subscriptions)
          × (after.acknowledged ≡ before.acknowledged)
          × (after.orchestration ≡ before.orchestration)
          × (after.generation ≡ (before.generation + 1) % 2 ^ 64)
          × IsValid F after
    unfolding set_platform
    set_platform-entry name edit n {after} h =
        let (before, read, stored) = edit_platform-ok (edit_refusal name edit) name edit h in
        let edited =
          upsert platform_name_of name (edit_entry edit) (new_entry name edit) before.platforms in
        let (same, done, valid) = store-ok (record before { platforms = edited }) stored in
        (
          before,
          read,
          done,
          ap (λ (c : Config F). entry_of platform_name_of n c.platforms) same
              ∙ entry_of-upsert platform_name_of name n (edit_entry edit) (new_entry name edit)
                  before.platforms (keeps edit) (named name edit),
          ap (λ (c : Config F). c.version) same,
          ap (λ (c : Config F). c.applied_generation) same,
          ap (λ (c : Config F). c.last_apply_at) same,
          ap (λ (c : Config F). c.last_apply_error) same,
          ap (λ (c : Config F). c.updated_at) same,
          ap (λ (c : Config F). c.subscriptions) same,
          ap (λ (c : Config F). c.acknowledged) same,
          ap (λ (c : Config F). c.orchestration) same,
          ap (λ (c : Config F). c.generation) same,
          valid,
        )

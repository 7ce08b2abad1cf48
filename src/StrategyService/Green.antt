-- ===== src/StrategyService/Green.antt =====
-- The write-back of `apply` in strategy_service.rs: what the document says after a pass.
use egress_apikey.Prelude.{
  ◌++◌, [], ℕ, ◌+◌, ◌%◌, ◌^◌, ◌≡◌, refl, sym, ap, Bool, true, false, none, some, List, ◌∷◌, all,
  if◌then◌else◌, Option-cases, Bool-cases, inl, inr,
}
use mathlib.Core.Path.{subst}
use egress_apikey.Prelude.Runs.{Run, pure, ◌>>=◌}
use egress_apikey.Prelude.Json.{Json}
use egress_apikey.Prelude.Results.{Result, ok, err}
use egress_apikey.StrategyService.Validation.{validate}
use egress_apikey.StrategyService.Bounds.{IsValid, metadata-IsValid}
use egress_apikey.StrategyService.Accepted.{validate-IsValid}
use egress_apikey.StrategyService.Edits.{Config, or_default, next_generation}
use egress_apikey.StrategyService.Drift.{listed_names}
use egress_apikey.StrategyService.Apply.{
  with_config, with_nodes, with_live, with_dangling, reported, landed, write_green, write_stale,
  green, stale, first_failure, store_run, Call, Env, Report, is_patched, or_fail, write_back,
  find_dangling, apply, apply_platforms, planned, clock, get_config, list_nodes, list_platforms,
  store_config,
}
use egress_apikey.Orchestration.Floats.{Float}

module _ (F : Float) (env : Env F) where
  open env use {api}

  -- What the document that was read becomes: its desired state stays. A pass that patched every
  -- platform leaves the two generations equal and no error, any other keeps the applied generation
  -- and the time of the last green pass, and has the reason of the first failure.
  abbrev pub Verdict : Bool → Report F → Config F → Config F → Type 0
  Verdict true rows before after =
      (after.applied_generation ≡ after.generation) × (after.last_apply_error ≡ none)
  Verdict false rows before after =
      (after.applied_generation ≡ before.applied_generation)
      × (after.last_apply_at ≡ before.last_apply_at)
      × (after.last_apply_error ≡ some (first_failure F rows))

  pub record Follows (rows : Report F) (before after : Config F) : Type 0 where
    pub platforms : after.platforms ≡ before.platforms
    pub statuses : after.subscriptions ≡ before.subscriptions
    pub section : after.orchestration ≡ before.orchestration
    pub generation : after.generation ≡ (before.generation + 1) % 2 ^ 64
    pub verdict : Verdict (all (is_patched F) rows) rows before after
    pub valid : IsValid F after

  -- The last call stored the document, and the store took it.
  abbrev pub Lands :
      (Report F → Config F → List (Call F) → Type 0) → Result (Report F) × List (Call F) → Type 0
  Lands P (err e, t) = Unit
  Lands P (ok rows, t) =
      (after : Config F) × (rest : List (Call F)) × (t ≡ store_config after ∷ rest)
      × (api.stored t ≡ ok tt)
      × P rows after rest

  or_fail-Lands :
      {A : Type 0} (P : Report F → Config F → List (Call F) → Type 0)
      (f : A → Run (Call F) (Result (Report F))) (r : Result A) (t : List (Call F))
      → ((a : A) → r ≡ ok a → Lands P (f a t))
      → Lands P (or_fail F env f r t)
  or_fail-Lands P f (ok a) t h = h a refl
  or_fail-Lands P f (err e) t h = tt

  landed-Lands :
      (P : Report F → Config F → List (Call F) → Type 0) (rows : Report F) (next : Config F)
      (r : Result Unit) (t : List (Call F))
      → api.stored (store_config next ∷ t) ≡ r
      → P rows next t
      → Lands P (reported F env rows (landed F env next r), store_config next ∷ t)
  landed-Lands P rows next (ok tt) t h p = (next, t, refl, h, p)
  landed-Lands P rows next (err e) t h p = tt

  store_run-Lands :
      (P : Report F → Config F → List (Call F) → Type 0) (rows : Report F) (config : Config F)
      (t : List (Call F))
      → ((now : ℕ)
          → let next = record config {
            generation = next_generation F config;
            updated_at = some now;
          } in
            IsValid F next → P rows next (clock ∷ t))
      → Lands P ((store_run F env config >>= λ stored. pure (reported F env rows stored)) t)
  store_run-Lands P rows config t h = elim (Option-cases (validate F config)) [
    | inl accepted ↦
        let now = api.now (clock ∷ t) in
        let next = record config { generation = next_generation F config; updated_at = some now } in
        rw accepted (
          landed-Lands P rows next (api.stored (store_config next ∷ clock ∷ t)) (clock ∷ t) refl (
            h now (
              metadata-IsValid F config (next_generation F config) config.applied_generation
                config.last_apply_at (some now) config.last_apply_error
                ((validate-IsValid F config).0 accepted))))
    | inr (message, refused) ↦ rw refused tt
  ]

  -- The clock readings between the read and the store.
  abbrev pub ticks : Bool → List (Call F)
  ticks true = clock ∷ clock ∷ []
  ticks false = clock ∷ []

  -- The document that the write-back reads, right before it stores what follows from it.
  abbrev pub WritesBack : Report F → Config F → List (Call F) → Type 0
  WritesBack rows after rest =
      (before : Config F) × (s : List (Call F)) × (rest
        ≡ ticks (all (is_patched F) rows) ++ get_config ∷ s)
      × (or_default F (api.config (get_config ∷ s)) ≡ ok before)
      × Follows rows before after

  write_green-Lands :
      (rows : Report F) (config : Config F) (s : List (Call F))
      → all (is_patched F) rows ≡ true
      → or_default F (api.config (get_config ∷ s)) ≡ ok config
      → Lands WritesBack (write_green F env rows config (get_config ∷ s))
  write_green-Lands rows config s patched read =
      let done = green F config (api.now (clock ∷ get_config ∷ s)) in
      store_run-Lands WritesBack rows done (clock ∷ get_config ∷ s) λ now valid. (
        config,
        s,
        ap (λ b. ticks b ++ get_config ∷ s) (sym patched),
        read,
        record {
          platforms = refl;
          statuses = refl;
          section = refl;
          generation = refl;
          verdict = rw patched (refl, refl);
          valid = valid;
        },
      )

  write_stale-Lands :
      (rows : Report F) (config : Config F) (s : List (Call F))
      → all (is_patched F) rows ≡ false
      → or_default F (api.config (get_config ∷ s)) ≡ ok config
      → Lands WritesBack (write_stale F env rows config (get_config ∷ s))
  write_stale-Lands rows config s failed read =
      store_run-Lands WritesBack rows (stale F config (first_failure F rows)) (get_config ∷ s)
        λ now valid. (
          config,
          s,
          ap (λ b. ticks b ++ get_config ∷ s) (sym failed),
          read,
          record {
            platforms = refl;
            statuses = refl;
            section = refl;
            generation = refl;
            verdict = rw failed (refl, refl, refl);
            valid = valid;
          },
        )

  write_back-Lands :
      (rows : Report F) (t : List (Call F)) → Lands WritesBack (write_back F env rows t)
  unfolding write_back
  write_back-Lands rows t =
      let found = or_default F (api.config (get_config ∷ t)) in
      let branch = λ (b : Bool). Lands WritesBack (
        or_fail F env (if b then write_green F env rows else write_stale F env rows) found
          (get_config ∷ t)) in
      elim (Bool-cases (all (is_patched F) rows)) [
        | inl patched ↦ subst branch (sym patched) (
            or_fail-Lands WritesBack (write_green F env rows) found (get_config ∷ t)
              λ config read. write_green-Lands rows config t patched read)
        | inr failed ↦ subst branch (sym failed) (
            or_fail-Lands WritesBack (write_stale F env rows) found (get_config ∷ t)
              λ config read. write_stale-Lands rows config t failed read)
      ]

  with_live-Lands :
      (config : Config F) (nodes live : Json F.Num) (t : List (Call F))
      → Lands WritesBack (with_live F env config nodes live t)
  with_live-Lands config nodes live t =
      let (dangling, u) = find_dangling F env config t in
      or_fail-Lands WritesBack (with_dangling F env config nodes live) dangling u λ by_platform _.
        let (rows, v) =
          apply_platforms F env config (listed_names live) by_platform (planned F env config nodes)
            u in
        or_fail-Lands WritesBack (write_back F env) rows v λ report _. write_back-Lands report v

  -- When `apply` returns a report, its last call stored a document that the validator accepts, and
  -- the store took it. It is the one that the file held at the last read of the pass, with nothing
  -- but the clock read in between, one generation on, with its platforms, status rows and
  -- orchestration section as they were. If every platform is patched, the applied generation is that
  -- of the document and no error is left; otherwise the applied generation and the time of the last
  -- green pass stay, and the reason of the first failure is recorded.
  pub apply-Lands : (t : List (Call F)) → Lands WritesBack (apply F env t)
  unfolding apply
  apply-Lands t =
      or_fail-Lands WritesBack (with_config F env) (or_default F (api.config (get_config ∷ t)))
        (get_config ∷ t)
        λ config _.
          let u = list_nodes ∷ get_config ∷ t in
          or_fail-Lands WritesBack (with_nodes F env config) (api.nodes u) u λ nodes _.
            or_fail-Lands WritesBack (with_live F env config nodes)
              (api.platforms (list_platforms ∷ u)) (list_platforms ∷ u)
              λ live _. with_live-Lands config nodes live (list_platforms ∷ u)

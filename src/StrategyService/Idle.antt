-- ===== src/StrategyService/Idle.antt =====
-- `apply` of strategy_service.rs on a Resin that already agrees with the document.
use egress_apikey.Prelude.{
  ◌≡◌, refl, sym, ◌∙◌, Bool, true, false, not, String, some, List, [], ◌∷◌, all, any, count, All,
  if◌then◌else◌, if_elim, Option-cases, inl, inr, arith,
}
use mathlib.Core.Path.{subst}
use egress_apikey.Prelude.Runs.{Run, pure, ask, Quiet, Quiet-bind, Quiet-ask}
use egress_apikey.Prelude.Results.{Result, ok, err}
use egress_apikey.Prelude.Maps.{Map}
use egress_apikey.Prelude.Json.{Json}
use egress_apikey.StrategyEngine.{PlatformStrategy}
use egress_apikey.StrategyEngine.Regions.{contains, is_empty}
use egress_apikey.StrategyService.Validation.{validate}
use egress_apikey.StrategyService.Edits.{Config, or_default}
use egress_apikey.StrategyService.Drift.{AppliedPlatform, listed_names}
use egress_apikey.StrategyService.Apply.{
  with_config, with_nodes, with_live, with_dangling, reported, read_config, write_green,
  write_stale, green, store_run, Call, Env, Report, is_patched, or_fail, on_id, patch_platform,
  apply_platform, apply_platforms, and_row, write_back, find_dangling, planned, apply, get_config,
  list_nodes, list_platforms, clock, create_platform_from_name, update_platform,
}
use egress_apikey.Orchestration.Floats.{Float}
use egress_apikey.StrategyService.InSync.{row_of-patched, InSync, drift-none, live_row-listed}

-- The calls that change Resin.
abbrev pub is_resin_write : {F : Float} → Call F → Bool
is_resin_write (create_platform_from_name name) = true
is_resin_write (update_platform id body) = true
is_resin_write _ = false

module _ (F : Float) (env : Env F) where
  open env use {api, platform_id_for_name}

  abbrev loud : Call F → Bool
  loud = is_resin_write

  -- What a result that is no error satisfies.
  abbrev IfOk : {A : Type 0} → (A → Type 0) → Result A → Type 0
  IfOk P (ok a) = P a
  IfOk P (err e) = Unit

  abbrev IsPatched : AppliedPlatform → Type 0
  IsPatched row = row.patched ≡ true

  abbrev AllPatched : Report F → Type 0
  AllPatched rows = all (is_patched F) rows ≡ true

  pure-Quiet : {A : Type 0} (P : A → Type 0) (a : A) → P a → Quiet loud P (pure a)
  pure-Quiet P a p t = (refl, p)

  or_fail-Quiet :
      {A B : Type 0} (P : B → Type 0) (f : A → Run (Call F) (Result B)) (r : Result A)
      → ((a : A) → r ≡ ok a → Quiet loud (IfOk P) (f a))
      → Quiet loud (IfOk P) (or_fail F env f r)
  or_fail-Quiet P f (ok a) h = h a refl
  or_fail-Quiet P f (err e) h = λ t. (refl, tt)

  patch_platform-Quiet :
      (config : Config F) (name : String) (regions dangling : List String)
      → ((s : List (Call F)) (v : Json F.Num)
          → api.platforms s ≡ ok v
          → InSync F env config v name regions)
      → Quiet loud (IfOk IsPatched) (patch_platform F env config name regions dangling)
  patch_platform-Quiet config name regions dangling agree =
      Quiet-bind loud (λ r. (s : List (Call F)) × (api.platforms s ≡ r)) (IfOk IsPatched)
        (ask list_platforms api.platforms) _ (Quiet-ask loud list_platforms api.platforms refl)
        λ r (s, answered).
          or_fail-Quiet IsPatched
            (λ v. on_id F env config v name regions dangling (platform_id_for_name v name)) r
            λ v is_v.
              let in_sync = agree s v (answered ∙ is_v) in
              rw in_sync.0.1 (
                rw (drift-none F env config v name regions in_sync)
                  (λ t. (refl, row_of-patched F name regions dangling true (some "in sync"))))

  apply_platform-Quiet :
      (config : Config F) (live_names : List String) (dangling : Map (List String)) (name : String)
      (regions : List String)
      → contains live_names name ≡ true
      → ((s : List (Call F)) (v : Json F.Num)
          → api.platforms s ≡ ok v
          → InSync F env config v name regions)
      → Quiet loud (IfOk IsPatched) (apply_platform F env config live_names dangling name regions)
  unfolding apply_platform
  apply_platform-Quiet config live_names dangling name regions listed agree =
      rw listed (patch_platform-Quiet config name regions _ agree)

  abbrev Agrees : Config F → List String → String × List String → Type 0
  Agrees config live_names entry =
      (contains live_names entry.0 ≡ true)
      × ((s : List (Call F)) (v : Json F.Num)
          → api.platforms s ≡ ok v
          → InSync F env config v entry.0 entry.1)

  and_row-AllPatched :
      (row : AppliedPlatform) (rows : Result (Report F))
      → IsPatched row
      → IfOk AllPatched rows
      → IfOk AllPatched (and_row F env row rows)
  and_row-AllPatched row (ok rows) h k = rw h k
  and_row-AllPatched row (err e) h k = tt

  apply_platforms-Quiet :
      (config : Config F) (live_names : List String) (dangling : Map (List String))
      (plan : List (String × List String))
      → All (Agrees config live_names) plan
      → Quiet loud (IfOk AllPatched) (apply_platforms F env config live_names dangling plan)
  unfolding apply_platforms
  apply_platforms-Quiet config live_names dangling [] agree = λ t. (refl, refl)
  apply_platforms-Quiet config live_names dangling ((name, regions) ∷ plan) (here, later) =
      Quiet-bind loud (IfOk IsPatched) (IfOk AllPatched)
        (apply_platform F env config live_names dangling name regions) _
        (apply_platform-Quiet config live_names dangling name regions here.0 here.1)
        λ r patched. or_fail-Quiet AllPatched _ r λ row is_row.
          Quiet-bind loud (IfOk AllPatched) (IfOk AllPatched)
            (apply_platforms F env config live_names dangling plan) _
            (apply_platforms-Quiet config live_names dangling plan later)
            λ rows all_patched.
              pure-Quiet (IfOk AllPatched) (and_row F env row rows)
                (and_row-AllPatched row rows (subst (IfOk IsPatched) is_row patched) all_patched)

  reported-AllPatched :
      (rows : Report F) (r : Result (Config F))
      → AllPatched rows
      → IfOk AllPatched (reported F env rows r)
  reported-AllPatched rows (ok c) h = h
  reported-AllPatched rows (err e) h = tt

  -- The write-back asks for the clock and stores a document: it does not touch Resin.
  store_run-Quiet : (config : Config F) → Quiet loud (λ _. Unit {0}) (store_run F env config)
  store_run-Quiet config t = elim (Option-cases (validate F config)) [
    | inl accepted ↦ rw accepted (omega arith, tt)
    | inr (message, refused) ↦ rw refused (refl, tt)
  ]

  write_back-Quiet :
      (rows : Report F) → AllPatched rows → Quiet loud (IfOk AllPatched) (write_back F env rows)
  unfolding write_back
  write_back-Quiet rows h =
      Quiet-bind loud (λ _. Unit {0}) (IfOk AllPatched) (read_config F env)
        (λ found.
          or_fail F env
            (if all (is_patched F) rows then write_green F env rows else write_stale F env rows)
            found)
        (λ t. (omega arith, tt))
        λ found _.
          subst
            (λ b.
              Quiet loud (IfOk AllPatched) (
                or_fail F env (if b then write_green F env rows else write_stale F env rows) found))
            (sym h)
            (or_fail-Quiet AllPatched (write_green F env rows) found λ config is_config.
              Quiet-bind loud (λ _. Unit {0}) (IfOk AllPatched) (ask clock api.now) _
                (λ t. (omega arith, tt))
                λ now _.
                  Quiet-bind loud (λ _. Unit {0}) (IfOk AllPatched)
                    (store_run F env (green F config now)) _ (store_run-Quiet (green F config now))
                    λ stored _.
                      pure-Quiet (IfOk AllPatched) (reported F env rows stored)
                        (reported-AllPatched rows stored h))

  -- Whatever the file holds when `apply` reads it and whatever nodes Resin lists, each planned
  -- platform is in sync in every list of platforms that Resin gives.
  abbrev pub Settled : Type 0
  Settled =
      (config : Config F) (nodes : Json F.Num) (t u : List (Call F))
      → or_default F (api.config t) ≡ ok config
      → api.nodes u ≡ ok nodes
      → All
          (λ (entry : String × List String).
            (s : List (Call F)) (v : Json F.Num)
            → api.platforms s ≡ ok v
            → InSync F env config v entry.0 entry.1)
          (planned F env config nodes)

  agrees :
      (config : Config F) (s : List (Call F)) (v : Json F.Num) (plan : List (String × List String))
      → api.platforms s ≡ ok v
      → All
          (λ (entry : String × List String).
            (s : List (Call F)) (v : Json F.Num)
            → api.platforms s ≡ ok v
            → InSync F env config v entry.0 entry.1)
          plan
      → All (Agrees config (listed_names v)) plan
  agrees config s v [] is_v all_in_sync = tt
  agrees config s v (entry ∷ plan) is_v (here, later) =
      let (id, rp, row, same_regions, same_policy) = here s v is_v in
      ((live_row-listed F env v entry.0 rp row, here), agrees config s v plan is_v later)

  find_dangling-Quiet :
      (config : Config F) → Quiet loud (λ _. Unit {0}) (find_dangling F env config)
  find_dangling-Quiet config =
      if_elim (Quiet loud (λ _. Unit {0}))
        (any (λ (ps : PlatformStrategy). not (is_empty ps.subscriptions)) config.platforms)
        (λ _ t. (omega arith, tt)) (λ _ t. (refl, tt))

  with_live-Quiet :
      (config : Config F) (nodes_v live_v : Json F.Num)
      → All (Agrees config (listed_names live_v)) (planned F env config nodes_v)
      → Quiet loud (IfOk AllPatched) (with_live F env config nodes_v live_v)
  with_live-Quiet config nodes_v live_v agree =
      Quiet-bind loud (λ _. Unit {0}) (IfOk AllPatched) (find_dangling F env config)
        (λ dangling. or_fail F env (with_dangling F env config nodes_v live_v) dangling)
        (find_dangling-Quiet config)
        λ dangling _.
          or_fail-Quiet AllPatched (with_dangling F env config nodes_v live_v) dangling
            λ by_platform is_map.
              Quiet-bind loud (IfOk AllPatched) (IfOk AllPatched)
                (apply_platforms F env config (listed_names live_v) by_platform
                  (planned F env config nodes_v))
                (λ rows. or_fail F env (write_back F env) rows)
                (apply_platforms-Quiet config (listed_names live_v) by_platform
                  (planned F env config nodes_v) agree)
                λ rows patched. or_fail-Quiet AllPatched (write_back F env) rows λ report is_report.
                  write_back-Quiet report (subst (IfOk AllPatched) is_report patched)

  with_config-Quiet :
      (config : Config F) (t : List (Call F))
      → Settled
      → or_default F (api.config t) ≡ ok config
      → Quiet loud (IfOk AllPatched) (with_config F env config)
  with_config-Quiet config t settled is_config =
      Quiet-bind loud (λ r. (s : List (Call F)) × (api.nodes s ≡ r)) (IfOk AllPatched)
        (ask list_nodes api.nodes) (λ nodes. or_fail F env (with_nodes F env config) nodes)
        (Quiet-ask loud list_nodes api.nodes refl)
        λ nodes (u, got_nodes).
          or_fail-Quiet AllPatched (with_nodes F env config) nodes λ nodes_v is_nodes.
            Quiet-bind loud (λ r. (s : List (Call F)) × (api.platforms s ≡ r)) (IfOk AllPatched)
              (ask list_platforms api.platforms)
              (λ live. or_fail F env (with_live F env config nodes_v) live)
              (Quiet-ask loud list_platforms api.platforms refl)
              λ live (s, got_live).
                or_fail-Quiet AllPatched (with_live F env config nodes_v) live λ live_v is_live.
                  with_live-Quiet config nodes_v live_v (
                    agrees config s live_v (planned F env config nodes_v) (got_live ∙ is_live)
                      (settled config nodes_v t u is_config (got_nodes ∙ is_nodes)))

  -- When Resin already agrees, `apply` changes nothing on it: whatever the file, the lists and the
  -- store answer, no create and no PATCH is sent, and if it returns a report, every row is patched.
  pub apply-idle :
      Settled
      → (t : List (Call F))
      → (count is_resin_write (apply F env t).1 ≡ count is_resin_write t)
        × ((rows : Report F) → (apply F env t).0 ≡ ok rows → all (is_patched F) rows ≡ true)
  unfolding apply
  apply-idle settled t =
      let (same, patched) =
        Quiet-bind loud (λ r. (s : List (Call F)) × (or_default F (api.config s) ≡ r))
          (IfOk AllPatched) (read_config F env) (λ found. or_fail F env (with_config F env) found)
          (λ s. (omega arith, (get_config ∷ s, refl)))
          (λ found (s, read).
            or_fail-Quiet AllPatched (with_config F env) found
              λ config is_config. with_config-Quiet config s settled (read ∙ is_config))
          t in
      (same, λ rows is_rows. subst (IfOk AllPatched) is_rows patched)

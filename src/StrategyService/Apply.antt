-- ===== src/StrategyService/Apply.antt =====
-- crates/resin-core/src/strategy_service.rs: `apply`. The Resin client, the file and the clock are
-- an environment that other tasks share: an answer may depend on every call made so far.
use egress_apikey.Prelude.{
  ℕ, Bool, true, false, not, String, Option, none, some, unwrap_or, List, [], ◌∷◌, any, all, find,
  str_eq, if◌then◌else◌,
}
use egress_apikey.Prelude.Runs.{Run, pure, ask, ◌>>=◌}
use egress_apikey.Prelude.Texts.{concat}
use egress_apikey.Prelude.Results.{Result, ok, err}
use egress_apikey.Prelude.Maps
use egress_apikey.Prelude.Maps.{Map}
use egress_apikey.Prelude.Json.{ℤ, Json}
use egress_apikey.StrategyEngine.{PlatformStrategy}
use egress_apikey.StrategyEngine.Regions.{parse_nodes, compute_plan, contains, is_empty}
use egress_apikey.StrategyService.Validation.{validate}
use egress_apikey.StrategyService.Edits.{Config, next_generation, or_default}
use egress_apikey.Snapshot.Merges.{
  ResinPlatformRuntime, parse_resin_platforms, same_region_set, same_allocation_policy,
}
use egress_apikey.Orchestration.Floats.{Float}
use egress_apikey.StrategyService.Drift.{
  AppliedPlatform, with_dangling_note, dangling_subscription_refs, collect, strategy_patch_body,
  listed_names, policy_of, live_regions, policy_in_sync,
}

module _ (F : Float) where
  open F use {Num, gt}

  pub data Call : Type 0 where
    get_config list_nodes list_platforms list_subscriptions clock : Call
    create_platform_from_name : String → Call
    update_platform : String → Json Num → Call
    store_config : Config F → Call

  -- The answer to the call that heads the trace.
  pub record Api : Type 0 where
    pub config : List Call → Result (Option (Config F))
    pub nodes : List Call → Result (Json Num)
    pub platforms : List Call → Result (Json Num)
    pub subscriptions : List Call → Result (Json Num)
    pub created : List Call → Result Unit
    pub updated : List Call → Result Unit
    pub stored : List Call → Result Unit
    pub now : List Call → ℕ

  abbrev pub Report : Type 0
  Report = List AppliedPlatform

  abbrev pub is_patched : AppliedPlatform → Bool
  is_patched p = p.patched

  -- The reason of the first row that is not patched.
  abbrev pub first_reason : Option AppliedPlatform → String
  first_reason none = "apply failed"
  first_reason (some p) = unwrap_or p.reason "apply failed"

  abbrev pub first_failure : Report → String
  first_failure rows = first_reason (find (λ (p : AppliedPlatform). not p.patched) rows)

  -- What the write-back changes, at a clock reading.
  abbrev pub green : Config F → ℕ → Config F
  green config now = record config {
    applied_generation = next_generation F config;
    last_apply_at = some now;
    last_apply_error = none;
  }

  abbrev pub stale : Config F → String → Config F
  stale config failed = record config { last_apply_error = some failed }

  abbrev pub row_of : String → List String → List String → Bool → Option String → AppliedPlatform
  row_of name regions dangling patched reason =
      with_dangling_note
        (record { platform = name; region_filters = regions; patched = patched; reason = reason })
        dangling

  -- What else `apply` is given: the caller's `platform_id_for_name`, the iteration order of the map
  -- of the plan, `str::to_lowercase`, the reading of an integer as an `f64`, and `f64::MAX`.
  pub record Env : Type 0 where
    pub api : Api
    pub platform_id_for_name : Json Num → String → Option String
    pub order : Map (List String) → List (String × List String)
    pub to_lowercase : String → String
    pub from_int : ℤ → Num
    pub num_max : Num

  module _ (env : Env) where
    open env use {api, platform_id_for_name, order, to_lowercase, from_int, num_max}

    abbrev pub or_fail : {A B : Type 0} → (A → Run Call (Result B)) → Result A → Run Call (Result B)
    or_fail f (err e) = pure (err e)
    or_fail f (ok a) = f a

    -- `self.get()`
    abbrev pub read_config : Run Call (Result (Config F))
    read_config = do found ← ask get_config api.config; pure (or_default F found)

    -- `self.store(config)`
    abbrev pub landed : Config F → Result Unit → Result (Config F)
    landed config (ok _) = ok config
    landed config (err e) = err e

    abbrev pub write_config : Config F → Option String → Run Call (Result (Config F))
    write_config config (some message) = pure (err message)
    write_config config none = do
      now ← ask clock api.now
      let next = record config { generation = next_generation F config; updated_at = some now }
      stored ← ask (store_config next) api.stored
      pure (landed next stored)

    abbrev pub store_run : Config F → Run Call (Result (Config F))
    store_run config = write_config config (validate F config)

    abbrev pub desired_policy : Config F → String → String
    desired_policy config name =
        policy_of (find (λ (ps : PlatformStrategy). str_eq ps.platform_name name) config.platforms)

    abbrev pub live_row : Json Num → String → Option ResinPlatformRuntime
    live_row v name =
        find (λ (rp : ResinPlatformRuntime). str_eq rp.name name) (parse_resin_platforms v)

    -- The decision to skip, and the body of the PATCH.
    unfoldable pub drift : Config F → Json Num → String → List String → Option (Json Num)
    unfolding parse_resin_platforms same_region_set same_allocation_policy strategy_patch_body
    drift config v name regions =
        let live = live_row v name in
        strategy_patch_body regions (same_region_set to_lowercase regions (live_regions live))
          (desired_policy config name) (policy_in_sync (desired_policy config name) live)

    abbrev pub patched_row : String → List String → List String → Result Unit → AppliedPlatform
    patched_row name regions dangling (ok _) = row_of name regions dangling true none
    patched_row name regions dangling (err e) =
        row_of name regions dangling false (some (concat ("PATCH failed: " ∷ e ∷ [])))

    abbrev pub on_drift :
        String
        → String
        → List String
        → List String
        → Option (Json Num)
        → Run Call (Result AppliedPlatform)
    on_drift id name regions dangling none =
        pure (ok (row_of name regions dangling true (some "in sync")))
    on_drift id name regions dangling (some body) = do
      updated ← ask (update_platform id body) api.updated
      pure (ok (patched_row name regions dangling updated))

    abbrev pub on_id :
        Config F
        → Json Num
        → String
        → List String
        → List String
        → Option String
        → Run Call (Result AppliedPlatform)
    on_id config v name regions dangling none =
        pure (ok (row_of name regions dangling false (some "platform not found")))
    on_id config v name regions dangling (some id) =
        on_drift id name regions dangling (drift config v name regions)

    abbrev pub patch_platform :
        Config F → String → List String → List String → Run Call (Result AppliedPlatform)
    patch_platform config name regions dangling = do
      live ← ask list_platforms api.platforms
      or_fail (λ v. on_id config v name regions dangling (platform_id_for_name v name)) live

    abbrev pub after_create :
        Config F
        → String
        → List String
        → List String
        → Result Unit
        → Run Call (Result AppliedPlatform)
    after_create config name regions dangling (ok _) = patch_platform config name regions dangling
    after_create config name regions dangling (err e) =
        pure (ok (row_of name regions dangling false (some (concat ("create failed: " ∷ e ∷ [])))))

    unfoldable pub apply_platform :
        Config F
        → List String
        → Map (List String)
        → String
        → List String
        → Run Call (Result AppliedPlatform)
    unfolding with_dangling_note Maps.get drift
    apply_platform config live_names dangling_by_platform name regions =
        let dangling = unwrap_or (Maps.get name dangling_by_platform) [] in
        if contains live_names name then patch_platform config name regions dangling else do
          created ← ask (create_platform_from_name name) api.created
          after_create config name regions dangling created

    abbrev pub and_row : AppliedPlatform → Result Report → Result Report
    and_row row (ok rows) = ok (row ∷ rows)
    and_row row (err e) = err e

    unfoldable pub apply_platforms :
        Config F
        → List String
        → Map (List String)
        → List (String × List String)
        → Run Call (Result Report)
    unfolding apply_platform
    apply_platforms config live_names dangling [] = pure (ok [])
    apply_platforms config live_names dangling ((name, regions) ∷ plan) =
        let others = apply_platforms config live_names dangling plan in
        do
          result ← apply_platform config live_names dangling name regions
          or_fail (λ row. do rows ← others; pure (and_row row rows)) result

    abbrev pub reported : Report → Result (Config F) → Result Report
    reported rows (ok _) = ok rows
    reported rows (err e) = err e

    abbrev pub write_green : Report → Config F → Run Call (Result Report)
    write_green rows config = do
      now ← ask clock api.now
      stored ← store_run (green config now)
      pure (reported rows stored)

    abbrev pub write_stale : Report → Config F → Run Call (Result Report)
    write_stale rows config = do
      stored ← store_run (stale config (first_failure rows))
      pure (reported rows stored)

    unfoldable pub write_back : Report → Run Call (Result Report)
    unfolding validate
    write_back rows = do
      found ← read_config
      or_fail (if all is_patched rows then write_green rows else write_stale rows) found

    abbrev pub dangling_from : Config F → Result (Json Num) → Result (Map (List String))
    dangling_from config (err e) = err e
    dangling_from config (ok v) =
        ok (collect (dangling_subscription_refs config (listed_names v)) [])

    abbrev pub find_dangling : Config F → Run Call (Result (Map (List String)))
    find_dangling config =
        if any (λ (ps : PlatformStrategy). not (is_empty ps.subscriptions)) config.platforms
        then (do live ← ask list_subscriptions api.subscriptions; pure (dangling_from config live))
        else pure (ok [])

    abbrev pub planned : Config F → Json Num → List (String × List String)
    planned config nodes =
        order (compute_plan (λ a b. gt b a) num_max config (parse_nodes from_int nodes))

    abbrev pub with_dangling :
        Config F → Json Num → Json Num → Map (List String) → Run Call (Result Report)
    with_dangling config nodes_v live_v dangling = do
      rows ← apply_platforms config (listed_names live_v) dangling (planned config nodes_v)
      or_fail write_back rows

    abbrev pub with_live : Config F → Json Num → Json Num → Run Call (Result Report)
    with_live config nodes_v live_v = do
      dangling ← find_dangling config
      or_fail (with_dangling config nodes_v live_v) dangling

    abbrev pub with_nodes : Config F → Json Num → Run Call (Result Report)
    with_nodes config nodes_v = do
      live ← ask list_platforms api.platforms
      or_fail (with_live config nodes_v) live

    abbrev pub with_config : Config F → Run Call (Result Report)
    with_config config = do nodes ← ask list_nodes api.nodes; or_fail (with_nodes config) nodes

    unfoldable pub apply : Run Call (Result Report)
    unfolding parse_nodes compute_plan listed_names dangling_subscription_refs collect
        apply_platforms write_back
    apply = do found ← read_config; or_fail with_config found

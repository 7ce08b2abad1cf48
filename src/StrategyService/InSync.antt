-- ===== src/StrategyService/InSync.antt =====
-- When a platform of Resin agrees with the strategy document: `apply` of strategy_service.rs finds
-- nothing to send.
use egress_apikey.Prelude.{
  ◌≡◌, refl, sym, ap, ◌∙◌, Bool, true, String, Option, none, some, List, [], ◌∷◌, str_eq,
  if◌then◌else◌, Bool-cases, filter_map, keep_some, find, eq_iff, ◌||◌, inl, inr, arith,
}
use mathlib.Core.Path.{subst}
use egress_apikey.Prelude.Json
use egress_apikey.Prelude.Json.{ℤ, Json, as_str, as_array}
use egress_apikey.Snapshot.Merges.{
  ResinPlatformRuntime, parse_platform, platform_items, parse_resin_platforms, same_region_set,
  same_allocation_policy,
}
use egress_apikey.StrategyEngine.Regions.{contains}
use egress_apikey.SubscriptionPipeline.Steps
use egress_apikey.StrategyService.Edits.{Config}
use egress_apikey.StrategyService.Drift.{strategy_patch_body, listed_names, with_dangling_note}
use egress_apikey.StrategyService.Apply.{Env, row_of, desired_policy, live_row, drift}
use egress_apikey.Orchestration.Floats.{Float}

patch_body-none :
    {Num : Type 0} (regions : List String) (desired : String)
    → strategy_patch_body {Num = Num} regions true desired true ≡ none
unfolding strategy_patch_body
patch_body-none regions desired = ground arith

pub row_of-patched :
    (F : Float) (name : String) (regions dangling : List String) (b : Bool) (reason : Option String)
    → (row_of F name regions dangling b reason).patched ≡ b
unfolding with_dangling_note
row_of-patched F name regions dangling b reason = ground arith

module _ (F : Float) (env : Env F) where
  open env use {api, platform_id_for_name, to_lowercase}

  -- Resin lists the platform with an id, the regions are the planned ones, and the policy is the one
  -- that the document asks for.
  abbrev pub InSync : Config F → Json F.Num → String → List String → Type 0
  InSync config v name regions =
      ((id : String) × (platform_id_for_name v name ≡ some id))
      × (rp : ResinPlatformRuntime) × (live_row F env v name ≡ some rp)
      × (same_region_set to_lowercase regions rp.region_filters ≡ true)
      × (same_allocation_policy (desired_policy F env config name) rp.allocation_policy ≡ true)

  pub drift-none :
      (config : Config F) (v : Json F.Num) (name : String) (regions : List String)
      → InSync config v name regions
      → drift F env config v name regions ≡ none
  unfolding drift
  drift-none config v name regions (id, rp, row, same_regions, same_policy) =
      rw row (rw same_regions (rw same_policy (patch_body-none regions _)))

  -- One item of the response, by the name that it has.
  named_step :
      (o : Option String) (row : String → ResinPlatformRuntime) (name : String)
      (rows : List ResinPlatformRuntime) (names : List String) (rp : ResinPlatformRuntime)
      → ((n : String) → (row n).name ≡ n)
      → (find (λ (r : ResinPlatformRuntime). str_eq r.name name) rows ≡ some rp
          → contains names name ≡ true)
      → find
          (λ (r : ResinPlatformRuntime). str_eq r.name name)
          (keep_some (Json.◌>>=◌ o (λ n. some (row n))) rows)
        ≡ some rp
      → contains (keep_some o names) name ≡ true
  named_step none row name rows names rp same later h = later h
  named_step (some n) row name rows names rp same later h =
      elim (Bool-cases (str_eq (row n).name name)) [
        | inl e ↦
            ap (λ b. b || contains names name)
              ((eq_iff name n).1 (sym ((eq_iff (row n).name name).0 e) ∙ same n))
        | inr e ↦
            let below = later (
              sym (
                ap
                  (λ b.
                    if b
                    then some (row n)
                    else find (λ (r : ResinPlatformRuntime). str_eq r.name name) rows)
                  e)
              ∙ h) in
            ground (arith, below)
      ]

  named_item :
      (name : String) (items : List (Json F.Num)) (rp : ResinPlatformRuntime)
      → find (λ (r : ResinPlatformRuntime). str_eq r.name name) (filter_map parse_platform items)
        ≡ some rp
      → contains (filter_map (λ (p : Json F.Num). Json.◌>>=◌ (Json.get "name" p) as_str) items) name
        ≡ true
  unfolding parse_platform
  named_item name [] rp h = cc
  named_item name (p ∷ items) rp h =
      named_step (Json.◌>>=◌ (Json.get "name" p) as_str) _ name (filter_map parse_platform items)
        (filter_map (λ (p : Json F.Num). Json.◌>>=◌ (Json.get "name" p) as_str) items) rp
        (λ n. refl) (named_item name items rp) h

  same_items :
      (o : Option (List (Json F.Num))) (v : Json F.Num) → platform_items o v ≡ Steps.rows o v
  same_items none v = refl
  same_items (some items) v = refl

  pub live_row-listed :
      (v : Json F.Num) (name : String) (rp : ResinPlatformRuntime)
      → live_row F env v name ≡ some rp
      → contains (listed_names v) name ≡ true
  unfolding listed_names parse_resin_platforms
  live_row-listed v name rp h =
      let o = Json.◌>>=◌ (Json.get "items" v) as_array in
      named_item name (Steps.rows o v) rp (
        subst
          (λ l.
            find (λ (r : ResinPlatformRuntime). str_eq r.name name) (filter_map parse_platform l)
            ≡ some rp)
          (same_items o v) h)

-- ===== src/SubscriptionPipeline/Compensation.antt =====
-- crates/resin-core/src/subscription_pipeline.rs: what a failed pass undoes, and its record.
use egress_apikey.Prelude.{
  Bool, true, false, ◌||◌, String, Option, none, some, unwrap_or, List, [], ◌∷◌, str_eq, ltb, ◌==◌,
  if◌then◌else◌,
}
use Prim.Native.Char.{code}
use Prim.Native.String
use egress_apikey.Prelude.Texts.{concat}
use egress_apikey.Prelude.Results.{Result, ok, err}
use egress_apikey.Prelude.Json
use egress_apikey.Prelude.Json.{Json, get, as_str}
use egress_apikey.SubscriptionPipeline.Calls.{
  Api, Run, pure, ask, ◌>>=◌, list_platforms, delete_platform,
}
use egress_apikey.SubscriptionPipeline.Steps.{items_arr}

-- Control characters become spaces.
unfoldable pub sanitize_action : String → String
sanitize_action String.[] = ""
sanitize_action (String.◌∷◌ c s) =
    let rest = sanitize_action s in
    String.◌++◌ (if ltb (code c) 0x20 || (code c == 0x7f) then " " else String.◌∷◌ c "") rest

module _ {Num : Type 0} where
  abbrev pub text_at : String → Json Num → String
  text_at key row = unwrap_or (Json.◌>>=◌ (get key row) as_str) ""

  unfoldable pub first_id : String → List (Json Num) → Option String
  first_id want [] = none
  first_id want (row ∷ rows) =
      let rest = first_id want rows in
      if str_eq (text_at "name" row) want
      then if str_eq (text_at "id" row) "" then rest else some (text_at "id" row)
      else rest

  -- `resin_client::resolve_id_in`
  unfoldable pub resolve_id_in : Json Num → String → Option String
  unfolding items_arr first_id
  resolve_id_in v want = first_id want (items_arr v)

abbrev pub deleted_action : Result Unit → String
deleted_action (ok _) = "plat: deleted on Resin (cascade-created, apply failed)"
deleted_action (err e) = sanitize_action (concat ("plat: delete failed (" ∷ e ∷ ")" ∷ []))

abbrev pub apply_action : Option String → String
apply_action (some owner) = sanitize_action (concat ("apply: failed on " ∷ owner ∷ []))
apply_action none = "apply: not reached"

-- The four entries, of which the second is computed.
abbrev pub actions : String → Option String → List String
actions plat failing_platform =
    "sub: kept (user data)" ∷ plat ∷ "port: none (not run)" ∷ apply_action failing_platform ∷ []

abbrev pub deletion : String → Result Unit → Result Unit
deletion name (ok _) = ok tt
deletion name (err e) = err (concat ("delete platform " ∷ name ∷ ": " ∷ e ∷ []))

module _ {Num Section : Type 0} (api : Api Num Section) where
  abbrev pub delete_found : String → Option String → Run Num Section (Result Unit)
  delete_found name none = pure (ok tt)
  delete_found name (some id) = do
    deleted ← ask (delete_platform id) api.platform_deleted
    pure (deletion name deleted)

  abbrev pub delete_listed : String → Result (Json Num) → Run Num Section (Result Unit)
  delete_listed name (err e) = pure (err (concat ("list platforms: " ∷ e ∷ [])))
  delete_listed name (ok live) = delete_found name (resolve_id_in live name)

  unfoldable pub delete_cascade_platform : String → Run Num Section (Result Unit)
  unfolding resolve_id_in
  delete_cascade_platform name = do live ← ask list_platforms api.platforms; delete_listed name live

  abbrev pub delete_owned : String → String → Bool → Run Num Section String
  delete_owned name owner true = do
    deleted ← delete_cascade_platform name
    pure (deleted_action deleted)
  delete_owned name owner false =
      pure (sanitize_action (concat ("plat: kept (apply failure owned by " ∷ owner ∷ ")" ∷ [])))

  abbrev pub plat_action : String → Bool → Option String → Run Num Section String
  plat_action name false failing_platform = pure "plat: none (not created this pass)"
  plat_action name true none = pure "plat: kept (apply failure not platform-scoped)"
  plat_action name true (some owner) = delete_owned name owner (str_eq owner name)

  unfoldable pub compensate_failed_cascade :
      String → Bool → Option String → Run Num Section (List String)
  unfolding sanitize_action concat delete_cascade_platform
  compensate_failed_cascade name platform_created_this_pass failing_platform = do
    plat ← plat_action name platform_created_this_pass failing_platform
    pure (actions plat failing_platform)

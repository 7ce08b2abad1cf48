-- ===== src/SubscriptionPipeline/Listed.antt =====
-- What `resolve_id_in` of crates/resin-core/src/resin_client.rs finds in a list of platforms.
use egress_apikey.Prelude.{
  ◌≡◌, refl, Bool, true, false, String, Option, some, List, [], ◌∷◌, str_eq, find, not, ◌&&◌,
  if◌then◌else◌,
}
use egress_apikey.Prelude.Json.{Json}
use egress_apikey.SubscriptionPipeline.Steps.{items_arr}
use egress_apikey.SubscriptionPipeline.Compensation.{resolve_id_in, first_id, text_at}

-- A row with the name `want` and with an id.
abbrev pub is_platform : {Num : Type 0} → String → Json Num → Bool
is_platform want row = str_eq (text_at "name" row) want && not (str_eq (text_at "id" row) "")

module _ {Num : Type 0} where
  -- The row found has this id.
  abbrev pub HasId : String → Option (Json Num) → Type 0
  HasId id o = (row : Json Num) × (o ≡ some row) × (text_at "id" row ≡ id)

  first_id-find :
      (want : String) (rows : List (Json Num)) {id : String}
      → first_id want rows ≡ some id
      → HasId id (find (is_platform want) rows)
  unfolding first_id
  first_id-find want [] h = cc
  first_id-find want (row ∷ rows) {id} h =
      by_tests (str_eq (text_at "name" row) want) (str_eq (text_at "id" row) "") h
        (first_id-find want rows)
    where
      by_tests :
          (named blank : Bool) {rest : Option String} {later : Option (Json Num)}
          → (if named then (if blank then rest else some (text_at "id" row)) else rest) ≡ some id
          → (rest ≡ some id → HasId id later)
          → HasId id (if named && not blank then some row else later)
      by_tests true true h k = k h
      by_tests true false h k = (row, refl, cc)
      by_tests false true h k = k h
      by_tests false false h k = k h

  pub resolve_id_in-find :
      (live : Json Num) (name : String) {id : String}
      → resolve_id_in live name ≡ some id
      → HasId id (find (is_platform name) (items_arr live))
  unfolding resolve_id_in
  resolve_id_in-find live name h = first_id-find name (items_arr live) h

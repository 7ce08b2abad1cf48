-- ===== src/DefaultPort/Targets.antt =====
-- The endpoints that the reverse tail of crates/resin-core/src/subscription_pipeline.rs deletes.
use egress_apikey.Prelude.{
  ℕ, ◌≡◌, refl, ap, ◌∙◌, ◌&&◌, ◌||◌, str_eq, keep_some, Bool-cases, none, Bool, false, inl, inr,
  String, Option, some, List, [], ◌∷◌, any, filter, filter_map, ◌==◌,
}
use egress_apikey.Prelude.Json
use egress_apikey.Prelude.Json.{Json, get, as_str, as_u64}
use egress_apikey.SubscriptionPipeline.Steps.{items_arr}
use egress_apikey.DefaultPort.{is_custom, to_u16}

abbrev pub is_released : List ℕ → String × ℕ → Bool
is_released bound (id, p) = any (λ q. q == p) bound

module _ {Num : Type 0} where
  -- A custom endpoint with an id and a port.
  abbrev pub id_and_port : Json Num → Option (String × ℕ)
  id_and_port ep =
      Json.◌>>=◌ (Json.◌>>=◌ (get "id" ep) as_str)
        λ id. Json.◌>>=◌ (Json.◌>>=◌ (Json.◌>>=◌ (get "port" ep) as_u64) to_u16) λ p. some (id, p)

  unfoldable pub targets : List ℕ → Json Num → List (String × ℕ)
  unfolding items_arr
  targets bound live =
      filter (is_released bound) (filter_map id_and_port (filter is_custom (items_arr live)))

-- Whether an id and a port are those of an endpoint to delete.
abbrev pub is_hit : List ℕ → String → Option (String × ℕ) → Bool
is_hit bound id none = false
is_hit bound id (some (i, p)) = any (λ q. q == p) bound && str_eq i id

-- The deletions hit an id exactly if the list has it for an endpoint on one of the ports, other
-- than the default one.
abbrev pub Hits : {Num : Type 0} → List ℕ → Json Num → List (String × ℕ) → Type 0
Hits bound live l =
    (id : String)
    → any (λ (e : String × ℕ). str_eq e.0 id) l
      ≡ any (λ ep. is_custom ep && is_hit bound id (id_and_port ep)) (items_arr live)

module _ {Num : Type 0} where
  kept_hits :
      (bound : List ℕ) (id : String) (o : Option (String × ℕ)) (eps : List (Json Num))
      → any
          (λ (e : String × ℕ). str_eq e.0 id)
          (filter (is_released bound) (keep_some o (filter_map id_and_port eps)))
        ≡ (is_hit bound id o
            || any
                (λ (e : String × ℕ). str_eq e.0 id)
                (filter (is_released bound) (filter_map id_and_port eps)))
  kept_hits bound id none eps = refl
  kept_hits bound id (some (i, p)) eps = elim (Bool-cases (any (λ q. q == p) bound)) [
    | inl h ↦ rw h refl
    | inr h ↦ rw h refl
  ]

  pub targets-Hits :
      (bound : List ℕ) (live : Json Num) (id : String)
      → any (λ (e : String × ℕ). str_eq e.0 id) (targets bound live)
        ≡ any (λ ep. is_custom ep && is_hit bound id (id_and_port ep)) (items_arr live)
  unfolding targets
  targets-Hits bound live id = over (items_arr live)
    where
      over :
          (eps : List (Json Num))
          → any
              (λ (e : String × ℕ). str_eq e.0 id)
              (filter (is_released bound) (filter_map id_and_port (filter is_custom eps)))
            ≡ any (λ ep. is_custom ep && is_hit bound id (id_and_port ep)) eps
      over [] = refl
      over (ep ∷ eps) = elim (Bool-cases (is_custom ep)) [
        | inl h ↦ rw h (
            kept_hits bound id (id_and_port ep) (filter is_custom eps)
            ∙ ap (λ b. is_hit bound id (id_and_port ep) || b) (over eps))
        | inr h ↦ rw h (over eps)
      ]

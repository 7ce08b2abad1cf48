-- ===== src/StrategyEngine/Migration.antt =====
-- crates/resin-core/src/strategy_engine.rs: the one-time rewriting of legacy B-class tokens.
use mathlib.Core.Path.{ap₂}
use mathlib.Core.Bool.{true≢false}
use egress_apikey.Prelude.{
  ◌≡◌, refl, ap, Bool, true, false, ◌||◌, String, Option, none, some, str_eq, if◌then◌else◌,
  Bool-cases, inl, inr, arith,
}
use egress_apikey.Strategy.Parsing.{parse-as_str}
use egress_apikey.Prelude.Json.{
  Json, null, bool, uint, neg_int, float, str, arr, obj, Items, nil, cons, Fields, end, field,
}
use egress_apikey.Strategy
use egress_apikey.Strategy.{StrategyId, is_legacy_token, parse}

-- The document with a place rewritten, and whether it was.
abbrev pub Rewrite : Type 0 → Type 0
Rewrite A = A × Bool

module _ {Num : Type 0} where
  abbrev pub migrate_token : String → Bool → Option StrategyId → Rewrite (Json Num)
  migrate_token token true (some id) = (str (Strategy.as_str id), true)
  migrate_token token _ _ = (str token, false)

  -- The body of the loop on `b_class`: anything but a legacy token is left alone.
  unfoldable pub migrate_slot : Json Num → Rewrite (Json Num)
  unfolding is_legacy_token parse
  migrate_slot (str token) = migrate_token token (is_legacy_token token) (parse token)
  migrate_slot v = (v, false)

  -- The value at key `k` rewritten in place.
  unfoldable pub at_field :
      String → (Json Num → Rewrite (Json Num)) → Fields Num → Rewrite (Fields Num)
  at_field k f end = (end, false)
  at_field k f (field j v fs) =
      if str_eq j k
      then (field j (f v).0 fs, (f v).1)
      else (field j v (at_field k f fs).0, (at_field k f fs).1)

  unfoldable pub at_key : String → (Json Num → Rewrite (Json Num)) → Json Num → Rewrite (Json Num)
  unfolding at_field
  at_key k f (obj fs) = (obj (at_field k f fs).0, (at_field k f fs).1)
  at_key k f v = (v, false)

  unfoldable pub each_item : (Json Num → Rewrite (Json Num)) → Items Num → Rewrite (Items Num)
  each_item f nil = (nil, false)
  each_item f (cons v vs) = (cons (f v).0 (each_item f vs).0, (f v).1 || (each_item f vs).1)

  unfoldable pub migrate_entries : Json Num → Rewrite (Json Num)
  unfolding each_item at_key migrate_slot
  migrate_entries (arr vs) = (
    arr (each_item (at_key "b_class" migrate_slot) vs).0,
    (each_item (at_key "b_class" migrate_slot) vs).1,
  )
  migrate_entries v = (v, false)

  unfoldable pub migrate_b_class_values : Json Num → Rewrite (Json Num)
  unfolding at_key migrate_entries
  migrate_b_class_values raw = at_key "platforms" migrate_entries raw

or-false_left : (a b : Bool) → (a || b) ≡ false → a ≡ false
or-false_left a b h = ground arith

or-false_right : (a b : Bool) → (a || b) ≡ false → b ≡ false
or-false_right a b h = ground arith

-- A second pass finds nothing left, and an unset flag means that nothing was written.
abbrev Settles : {A : Type 0} → (A → Rewrite A) → Type 0
Settles {A} f = (v : A) → (f (f v).0 ≡ ((f v).0, false)) × ((f v).1 ≡ false → (f v).0 ≡ v)

module _ {Num : Type 0} where
  canonical-settled :
      (id : StrategyId)
      → migrate_slot {Num = Num} (str (Strategy.as_str id)) ≡ (str (Strategy.as_str id), false)
  unfolding migrate_slot
  canonical-settled id = rw (parse-as_str id).1

  token_settles :
      (token : String) (legacy : Bool) (id : Option StrategyId)
      → is_legacy_token token ≡ legacy
      → parse token ≡ id
      → (migrate_slot {Num = Num} (migrate_token token legacy id).0
          ≡ ((migrate_token token legacy id).0, false))
        × ((migrate_token {Num = Num} token legacy id).1 ≡ false
            → (migrate_token {Num = Num} token legacy id).0 ≡ str token)
  unfolding migrate_slot
  token_settles token true (some id) h k = (canonical-settled id, λ e. absurd (true≢false e))
  token_settles token true none h k = (rw h (rw k), λ _. refl)
  token_settles token false (some id) h k = (rw h, λ _. refl)
  token_settles token false none h k = (rw h, λ _. refl)

  migrate_slot-Settles : Settles (migrate_slot {Num = Num})
  unfolding migrate_slot
  migrate_slot-Settles (str token) =
      token_settles token (is_legacy_token token) (parse token) refl refl
  migrate_slot-Settles null = (refl, λ _. refl)
  migrate_slot-Settles (bool b) = (refl, λ _. refl)
  migrate_slot-Settles (uint n) = (refl, λ _. refl)
  migrate_slot-Settles (neg_int n) = (refl, λ _. refl)
  migrate_slot-Settles (float x) = (refl, λ _. refl)
  migrate_slot-Settles (arr vs) = (refl, λ _. refl)
  migrate_slot-Settles (obj fs) = (refl, λ _. refl)

  at_field-Settles :
      (k : String) (f : Json Num → Rewrite (Json Num)) → Settles f → Settles (at_field k f)
  unfolding at_field
  at_field-Settles k f h end = (refl, λ _. refl)
  at_field-Settles k f h (field j v fs) =
      let rest = at_field-Settles k f h fs in
      elim (Bool-cases (str_eq j k)) [
        | inl e ↦ rw e (
          rw e (ap (λ r. (field j r.0 fs, r.1)) (h v).0),
          λ q. ap (λ w. field j w fs) ((h v).1 q),
        )
        | inr e ↦
            rw e (rw e (ap (λ r. (field j v r.0, r.1)) rest.0), λ q. ap (field j v) (rest.1 q))
      ]

  at_key-Settles :
      (k : String) (f : Json Num → Rewrite (Json Num)) → Settles f → Settles (at_key k f)
  unfolding at_key
  at_key-Settles k f h (obj fs) =
      let rest = at_field-Settles k f h fs in
      (ap (λ r. (obj r.0, r.1)) rest.0, λ q. ap obj (rest.1 q))
  at_key-Settles k f h null = (refl, λ _. refl)
  at_key-Settles k f h (bool b) = (refl, λ _. refl)
  at_key-Settles k f h (uint n) = (refl, λ _. refl)
  at_key-Settles k f h (neg_int n) = (refl, λ _. refl)
  at_key-Settles k f h (float x) = (refl, λ _. refl)
  at_key-Settles k f h (str s) = (refl, λ _. refl)
  at_key-Settles k f h (arr vs) = (refl, λ _. refl)

  each_item-Settles : (f : Json Num → Rewrite (Json Num)) → Settles f → Settles (each_item f)
  unfolding each_item
  each_item-Settles f h nil = (refl, λ _. refl)
  each_item-Settles f h (cons v vs) =
      let rest = each_item-Settles f h vs in
      (
        ap₂ (λ a r. (cons a.0 r.0, a.1 || r.1)) (h v).0 rest.0,
        λ q. ap₂ cons ((h v).1 (or-false_left (f v).1 _ q)) (rest.1 (or-false_right (f v).1 _ q)),
      )

  migrate_entries-Settles : Settles (migrate_entries {Num = Num})
  unfolding migrate_entries
  migrate_entries-Settles (arr vs) =
      let rest =
        each_item-Settles _ (at_key-Settles "b_class" migrate_slot migrate_slot-Settles) vs in
      (ap (λ r. (arr r.0, r.1)) rest.0, λ q. ap arr (rest.1 q))
  migrate_entries-Settles null = (refl, λ _. refl)
  migrate_entries-Settles (bool b) = (refl, λ _. refl)
  migrate_entries-Settles (uint n) = (refl, λ _. refl)
  migrate_entries-Settles (neg_int n) = (refl, λ _. refl)
  migrate_entries-Settles (float x) = (refl, λ _. refl)
  migrate_entries-Settles (str s) = (refl, λ _. refl)
  migrate_entries-Settles (obj fs) = (refl, λ _. refl)

  -- Migrating twice is migrating once: the second pass changes nothing and reports `false`.
  pub migrate_b_class_values_idempotent :
      (raw : Json Num)
      → migrate_b_class_values (migrate_b_class_values raw).0
        ≡ ((migrate_b_class_values raw).0, false)
  unfolding migrate_b_class_values
  migrate_b_class_values_idempotent raw =
      (at_key-Settles "platforms" migrate_entries migrate_entries-Settles raw).0

  -- A migration that reports `false` leaves the document as it is.
  pub migrate_b_class_values_silent :
      (raw : Json Num)
      → (migrate_b_class_values raw).1 ≡ false
      → (migrate_b_class_values raw).0 ≡ raw
  unfolding migrate_b_class_values
  migrate_b_class_values_silent raw h =
      (at_key-Settles "platforms" migrate_entries migrate_entries-Settles raw).1 h

-- ===== src/Prelude/Json.antt =====
-- `serde_json::Value`: numbers are the unsigned, the negative and the floating ones that the
-- parser keeps apart; an object is in its own (sorted) order, one entry to a key.
use Prim.Native.Nat.{ℕ, ◌^◌, ◌-◌}
use Prim.Native.String.{String}
use mathlib.Core.Bool.{Bool}
use mathlib.Core.List.{List, [], ◌∷◌}
use mathlib.Core.Option.{Option, none, some}
use egress_apikey.Prelude.Tests.{str_eq, leb, if◌then◌else◌}

-- `negsuc n` is -(n + 1).
pub data ℤ : Type 0 where
  pos : ℕ → ℤ
  negsuc : ℕ → ℤ

abbrev pub is_zero : ℤ → Bool
is_zero (pos n) = leb n 0
is_zero (negsuc n) = leb 1 0

mutual
  pub data Json (Num : Type 0) : Type 0 where
    null : Json Num
    bool : Bool → Json Num
    uint : ℕ → Json Num
    neg_int : ℕ → Json Num
    float : Num → Json Num
    str : String → Json Num
    arr : Items Num → Json Num
    obj : Fields Num → Json Num

  pub data Items (Num : Type 0) : Type 0 where
    nil : Items Num
    cons : Json Num → Items Num → Items Num

  pub data Fields (Num : Type 0) : Type 0 where
    end : Fields Num
    field : String → Json Num → Fields Num → Fields Num

-- `a?.b` on options.
infixl 5 ◌>>=◌
abbrev pub ◌>>=◌ {ℓ κ} : {A : Type ℓ} {B : Type κ} → Option A → (A → Option B) → Option B
none >>= f = none
some a >>= f = f a

module _ {Num : Type 0} where
  abbrev pub to_list : Items Num → List (Json Num)
  to_list nil = []
  to_list (cons v vs) = v ∷ to_list vs

  abbrev pub find_field : String → Fields Num → Option (Json Num)
  find_field k end = none
  find_field k (field j v fs) = if str_eq j k then some v else find_field k fs

  -- `v.get(k)`
  abbrev pub get : String → Json Num → Option (Json Num)
  get k (obj fs) = find_field k fs
  get k _ = none

  abbrev pub as_array : Json Num → Option (List (Json Num))
  as_array (arr vs) = some (to_list vs)
  as_array _ = none

  abbrev pub as_str : Json Num → Option String
  as_str (str s) = some s
  as_str _ = none

  abbrev pub as_bool : Json Num → Option Bool
  as_bool (bool b) = some b
  as_bool _ = none

  abbrev pub as_u64 : Json Num → Option ℕ
  as_u64 (uint n) = some n
  as_u64 _ = none

  abbrev pub as_i64 : Json Num → Option ℤ
  as_i64 (uint n) = if leb n (2 ^ 63 - 1) then some (pos n) else none
  as_i64 (neg_int n) = some (negsuc n)
  as_i64 _ = none

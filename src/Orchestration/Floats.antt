-- ===== src/Orchestration/Floats.antt =====
-- The `f64` operations that orchestration.rs uses, as a parameter: no law of them is assumed.
use egress_apikey.Prelude.{ℕ, ◌+◌, ◌*◌, ◌/◌, Bool, String, max, ltb, leb}

pub record Float : Type 1 where
  pub Num : Type 0
  pub of_ℕ : ℕ → Num  -- `n as f64`
  pub percent_literal : ℕ → Num  -- the literals, in hundredths: 0.5, 1.2, 2.0, 0.34
  pub add : Num → Num → Num
  pub mul : Num → Num → Num
  pub div : Num → Num → Num
  pub ge : Num → Num → Bool  -- `a >= b`
  pub gt : Num → Num → Bool  -- `a > b`
  pub floor_max_one : Num → ℕ  -- `x.floor().max(1.0) as usize`
  pub percent : Num → String  -- `{:.0}` of `x * 100.0`

-- Hundredths, rounded down: a concrete choice for tests and witnesses.
abbrev pub hundredths : Float
hundredths = record {
  Num = ℕ;
  of_ℕ = λ n. n * 100;
  percent_literal = λ n. n;
  add = λ a b. a + b;
  mul = λ a b. a * b / 100;
  div = λ a b. a * 100 / b;
  ge = λ a b. leb b a;
  gt = λ a b. ltb b a;
  floor_max_one = λ x. max (x / 100) 1;
  percent = λ x. "";
}

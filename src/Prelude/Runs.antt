-- ===== src/Prelude/Runs.antt =====
-- Code that makes calls to a shared environment: a run extends the trace of calls, the last one
-- first, and an answer may depend on all calls made so far.
use egress_apikey.Prelude.Lists.{count}
use mathlib.Core.Path.{◌≡◌, refl, ◌∙◌}
use mathlib.Core.Bool.{Bool, false}
use mathlib.Core.List.{List, ◌∷◌}
use native.Mathlib.Omega.{arith}

abbrev pub Run : Type 0 → Type 0 → Type 0
Run Call A = List Call → A × List Call

abbrev pub pure : {Call A : Type 0} → A → Run Call A
pure a t = (a, t)

-- Make a call and read its answer.
abbrev pub ask : {Call A : Type 0} → Call → (List Call → A) → Run Call A
ask c answer t = (answer (c ∷ t), c ∷ t)

infixl 5 ◌>>=◌
abbrev pub ◌>>=◌ : {Call A B : Type 0} → Run Call A → (A → Run Call B) → Run Call B
(m >>= f) t = f (m t).0 (m t).1

-- Of the calls that `loud` picks a run makes none, whatever was called before, and its result has `P`.
module _ {Call : Type 0} (loud : Call → Bool) where
  abbrev pub Quiet : {A : Type 0} → (A → Type 0) → Run Call A → Type 0
  Quiet P m = (t : List Call) → (count loud (m t).1 ≡ count loud t) × P (m t).0

  pub Quiet-bind :
      {A B : Type 0} (P : A → Type 0) (Q : B → Type 0) (m : Run Call A) (f : A → Run Call B)
      → Quiet P m
      → ((a : A) → P a → Quiet Q (f a))
      → Quiet Q (m >>= f)
  Quiet-bind P Q m f first then_rest t =
      let (same, p) = first t in let (same', q) = then_rest (m t).0 p (m t).1 in (same' ∙ same, q)

  -- A call that is not loud answers what the environment may answer.
  pub Quiet-ask :
      {A : Type 0} (c : Call) (answer : List Call → A)
      → loud c ≡ false
      → Quiet (λ a. (s : List Call) × (answer s ≡ a)) (ask c answer)
  Quiet-ask c answer h t = (rw h (omega arith), (c ∷ t, refl))

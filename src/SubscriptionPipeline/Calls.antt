-- ===== src/SubscriptionPipeline/Calls.antt =====
-- What a cascade asks of its environment: the Resin client and the strategy service, both shared
-- with other tasks. An answer may depend on every call made so far.
use egress_apikey.Prelude.{Bool, String, Option, List, ◌∷◌}
use egress_apikey.Prelude.Results.{Result}
use egress_apikey.Prelude.Json.{Json}
use egress_apikey.StrategyEngine.{StrategyConfig, SubscriptionPhase, EstablishStep}

pub data Call (Num Section : Type 0) : Type 0 where
  list_subscriptions list_platforms get_config strategy_apply : Call Num Section
  create_subscription : Json Num → Call Num Section
  create_platform_from_name : String → Call Num Section
  delete_platform : String → Call Num Section
  store_config : StrategyConfig Section → Call Num Section
  record_subscription_phase :
      String → SubscriptionPhase → Option EstablishStep → Option String → Call Num Section
  record_cascade_failure : String → EstablishStep → String → List String → Call Num Section

-- The calls made so far, the last one first.
abbrev pub Trace : Type 0 → Type 0 → Type 0
Trace Num Section = List (Call Num Section)

-- `strategy_service::AppliedPlatform`, as far as the cascade reads it.
pub record AppliedPlatform : Type 0 where
  pub platform : String
  pub patched : Bool
  pub reason : Option String

-- The answer to the call that heads the trace. The results of the two status writes are dropped.
pub record Api (Num Section : Type 0) : Type 0 where
  pub subscriptions : Trace Num Section → Result (Json Num)
  pub platforms : Trace Num Section → Result (Json Num)
  pub config : Trace Num Section → Result (StrategyConfig Section)
  pub applied : Trace Num Section → Result (List AppliedPlatform)
  pub subscription_created : Trace Num Section → Result Unit
  pub platform_created : Trace Num Section → Result Unit
  pub platform_deleted : Trace Num Section → Result Unit
  pub config_stored : Trace Num Section → Result Unit

-- Running against the environment: the calls grow.
abbrev pub Run : Type 0 → Type 0 → Type 0 → Type 0
Run Num Section A = Trace Num Section → A × Trace Num Section

module _ {Num Section A : Type 0} where
  abbrev pub pure : A → Run Num Section A
  pure a t = (a, t)

  -- Make a call and read its answer.
  abbrev pub ask : Call Num Section → (Trace Num Section → A) → Run Num Section A
  ask c answer t = (answer (c ∷ t), c ∷ t)

-- A status write, whose result is dropped.
abbrev pub tell : {Num Section : Type 0} → Call Num Section → Run Num Section Unit
tell c t = (tt, c ∷ t)

infixl 5 ◌>>=◌ ◌>>◌
abbrev pub ◌>>=◌ :
    {Num Section A B : Type 0} → Run Num Section A → (A → Run Num Section B) → Run Num Section B
(m >>= f) t = f (m t).0 (m t).1

abbrev pub ◌>>◌ :
    {Num Section A B : Type 0} → Run Num Section A → Run Num Section B → Run Num Section B
(m >> n) t = n (m t).1

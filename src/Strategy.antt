-- ===== src/Strategy.antt =====
-- crates/resin-core/src/strategy.rs: the egress-selection vocabulary and its tolerant reading.
pub mod Parsing
mod Tests
use egress_apikey.Prelude.{
  Bool, true, false, String, Option, none, some, List, [], ◌∷◌, map, any, if◌then◌else◌,
}
use egress_apikey.Prelude.Texts.{Text, codes, trim, text_eq, to_ascii_lowercase, to_ascii_uppercase}

pub data StrategyId : Type 0 where
  balanced prefer_low_latency prefer_idle_ip : StrategyId

abbrev pub legacy_b_class_tokens : List String
legacy_b_class_tokens =
    "random" ∷ "sequential" ∷ "latency" ∷ "quality" ∷ "bandwidth" ∷ "protocol_weight" ∷ []

abbrev pub as_str : StrategyId → String
as_str balanced = "BALANCED"
as_str prefer_low_latency = "PREFER_LOW_LATENCY"
as_str prefer_idle_ip = "PREFER_IDLE_IP"

-- The convergence table on a trimmed, upper-cased token.
unfoldable pub converge : Text → Option StrategyId
unfolding text_eq
converge t =
    if text_eq t (codes "BALANCED")
    then some balanced
    else if text_eq t (codes "PREFER_LOW_LATENCY")
    then some prefer_low_latency
    else if text_eq t (codes "PREFER_IDLE_IP")
    then some prefer_idle_ip
    else if any (text_eq t) (codes "RANDOM" ∷ codes "BANDWIDTH" ∷ codes "PROTOCOL_WEIGHT" ∷ [])
    then some balanced
    else if text_eq t (codes "LATENCY")
    then some prefer_low_latency
    else if any (text_eq t) (codes "SEQUENTIAL" ∷ codes "QUALITY" ∷ [])
    then some prefer_idle_ip
    else none

unfoldable pub parse : String → Option StrategyId
unfolding converge trim
parse raw = converge (map to_ascii_uppercase (trim (codes raw)))

unfoldable pub is_legacy_token : String → Bool
unfolding trim text_eq
is_legacy_token raw =
    any (λ token. text_eq (codes token) (map to_ascii_lowercase (trim (codes raw))))
      legacy_b_class_tokens

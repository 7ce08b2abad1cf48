-- ===== src/Throttle.antt =====
-- crates/resin-core/src/throttle.rs: the one place of the "how long until the next fire" arithmetic.
-- A `Duration` keeps its seconds and nanoseconds; `as_secs` drops the latter. The floating-point
-- logarithm of `adaptive_interval` is the argument `scaled_log`.
pub mod Bounds
mod Tests
use egress_apikey.Prelude.{
  ℕ, ◌+◌, ◌*◌, ◌^◌, min, max, Option, none, some, ◌==◌, if◌then◌else◌, u64_max, sat_mul_u64,
}

pub record Duration : Type 0 where
  pub secs : ℕ
  pub nanos : ℕ

-- `Duration::from_secs`
abbrev pub from_secs : ℕ → Duration
from_secs s = record { secs = s; nanos = 0 }

pub record ThrottleParams : Type 0 where
  pub floor_secs : ℕ
  pub cap_secs : Option ℕ

-- `ThrottleParams::new`
abbrev pub new : ℕ → ThrottleParams
new floor_secs = record { floor_secs = floor_secs; cap_secs = none }

abbrev pub bounded : ℕ → ℕ → ThrottleParams
bounded floor_secs cap_secs = record { floor_secs = floor_secs; cap_secs = some cap_secs }

abbrev pub capped : Option ℕ → ℕ → ℕ
capped (some cap) secs = min secs cap
capped none secs = secs

unfoldable pub clamp_delay : ThrottleParams → Duration → Duration
clamp_delay self delay = from_secs (max (capped self.cap_secs delay.secs) self.floor_secs)

-- `scaled_log n` is `(k * (1.0 + n).ln()).ceil() as u64` at the caller's k.
unfoldable pub adaptive_interval : (ℕ → ℕ) → ThrottleParams → ℕ → Duration
adaptive_interval scaled_log params port_count =
    let secs = if port_count == 0 then 0 else scaled_log port_count in
    clamp_delay params (from_secs secs)

-- `2u64.saturating_pow(n)`
abbrev pub saturating_pow_two : ℕ → ℕ
saturating_pow_two n = min (2 ^ n) u64_max

unfoldable pub backoff_interval : ThrottleParams → Duration → ℕ → ℕ → Duration
backoff_interval params base fails exponent_cap =
    let exp = saturating_pow_two (min fails exponent_cap) in
    clamp_delay params (from_secs (sat_mul_u64 base.secs exp))

-- `minutes` is a u32, so the product fits a u64.
unfoldable pub delay_minutes : ThrottleParams → ℕ → Duration
delay_minutes params minutes = clamp_delay params (from_secs (minutes * 60))

-- ===== src/Throttle/Tests.antt =====
-- The throttle at the parameters of its callers: port_health.rs (floor 5, cap 300) and
-- lightweight.rs (floor 60, no cap).
use egress_apikey.Prelude.{ℕ, ◌^◌, ◌≡◌, refl}
use egress_apikey.Throttle.{
  from_secs, ThrottleParams, new, bounded, clamp_delay, backoff_interval, delay_minutes,
}

abbrev poll : ThrottleParams
poll = bounded 5 300

-- ceil(2 * ln(1 + n)) at n = 10
abbrev log_at_ten : ℕ → ℕ
log_at_ten n = 5

backoff_steps : backoff_interval poll (from_secs 5) 3 5 ≡ from_secs 40
unfolding backoff_interval clamp_delay
backoff_steps = refl

huge_base_saturates : backoff_interval poll (from_secs (2 ^ 63)) 5 5 ≡ from_secs 300
unfolding backoff_interval clamp_delay
huge_base_saturates = refl

one_minute_floor : delay_minutes (new 60) 0 ≡ from_secs 60
unfolding delay_minutes clamp_delay
one_minute_floor = refl

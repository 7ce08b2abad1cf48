-- ===== src/Throttle/Bounds.antt =====
-- Bounds and monotonicity of the delays of throttle.rs.
use egress_apikey.Prelude.{
  ℕ, ◌*◌, ◌^◌, ◌≤◌, ◌<◌, min, max, ◌≡◌, arith, u64_max, sat_mul_u64, pow_mono, ap, ◌∙◌,
}
use egress_apikey.Throttle.{
  Duration, ThrottleParams, saturating_pow_two, clamp_delay, adaptive_interval, backoff_interval,
  delay_minutes, bounded,
}

pub clamp_delay-le :
    (p : ThrottleParams) (d e : Duration)
    → d.secs ≤ e.secs
    → (clamp_delay p d).secs ≤ (clamp_delay p e).secs
unfolding clamp_delay
clamp_delay-le p d e h = ground arith

-- With floor at most cap, every delay the module computes lies between the two, whatever the
-- failure count, the port count, the base interval and the logarithm are.
pub delays_in_band :
    (floor_secs cap_secs : ℕ) (base : Duration) (fails exponent_cap minutes ports : ℕ)
    (scaled_log : ℕ → ℕ)
    → floor_secs ≤ cap_secs
    → let p = bounded floor_secs cap_secs in
      (floor_secs ≤ (backoff_interval p base fails exponent_cap).secs)
      × ((backoff_interval p base fails exponent_cap).secs ≤ cap_secs)
      × (floor_secs ≤ (adaptive_interval scaled_log p ports).secs)
      × ((adaptive_interval scaled_log p ports).secs ≤ cap_secs)
      × (floor_secs ≤ (delay_minutes p minutes).secs)
      × ((delay_minutes p minutes).secs ≤ cap_secs)
unfolding backoff_interval adaptive_interval delay_minutes clamp_delay
delays_in_band floor_secs cap_secs base fails exponent_cap minutes ports scaled_log h =
    (omega arith, omega arith, omega arith, omega arith, omega arith, omega arith)

pub saturating_pow_two-le : (a b : ℕ) → a ≤ b → saturating_pow_two a ≤ saturating_pow_two b
saturating_pow_two-le a b h = omega (arith, pow_mono a b h)

mul_mono : (s a b : ℕ) → a ≤ b → s * a ≤ s * b
mul_mono s a b h = grind arith

-- More failures never shorten the backoff.
pub backoff_interval_mono :
    (p : ThrottleParams) (base : Duration) (fails more exponent_cap : ℕ)
    → fails ≤ more
    → (backoff_interval p base fails exponent_cap).secs
      ≤ (backoff_interval p base more exponent_cap).secs
unfolding backoff_interval
backoff_interval_mono p base fails more exponent_cap h = clamp_delay-le p _ _ (
    omega (
      arith,
      mul_mono base.secs (saturating_pow_two (min fails exponent_cap))
          (saturating_pow_two (min more exponent_cap))
          (saturating_pow_two-le (min fails exponent_cap) (min more exponent_cap) (omega arith)),
    ))

pow_below : (k : ℕ) → k < 64 → 2 ^ k ≤ u64_max
pow_below k h = omega (arith, pow_mono k 63 (omega arith))

-- Without saturation the backoff is exactly base * 2^min(fails, exponent_cap), cut to the band.
pub backoff_interval_exact :
    (floor_secs cap_secs : ℕ) (base : Duration) (fails exponent_cap : ℕ)
    → exponent_cap < 64
    → base.secs * 2 ^ min fails exponent_cap ≤ u64_max
    → (backoff_interval (bounded floor_secs cap_secs) base fails exponent_cap).secs
      ≡ max (min (base.secs * 2 ^ min fails exponent_cap) cap_secs) floor_secs
unfolding backoff_interval clamp_delay
backoff_interval_exact floor_secs cap_secs base fails exponent_cap small fits =
    let k = min fails exponent_cap in
    let unsaturated : saturating_pow_two k ≡ 2 ^ k = omega (arith, pow_below k (omega arith)) in
    ap (λ (e : ℕ). max (min (sat_mul_u64 base.secs e) cap_secs) floor_secs) unsaturated
    ∙ omega arith

-- ===== src/Prelude/Words.antt =====
-- Machine words as bounded naturals, with Rust's saturating operations written out.
use Prim.Native.Nat.{ℕ, zero, suc, ◌+◌, ◌-◌, ◌*◌, ◌^◌, ◌≤◌, min}
use mathlib.Core.Path.{◌≡◌}
use native.Mathlib.Omega.{arith}

abbrev pub u32_max : ℕ
u32_max = 2 ^ 32 - 1

abbrev pub u64_max : ℕ
u64_max = 2 ^ 64 - 1

-- `u64::saturating_add`, `saturating_mul`; `saturating_sub` is `-` on ℕ.
abbrev pub sat_add_u64 : ℕ → ℕ → ℕ
sat_add_u64 a b = min (a + b) u64_max

abbrev pub sat_mul_u64 : ℕ → ℕ → ℕ
sat_mul_u64 a b = min (a * b) u64_max

abbrev pub sat_add_u32 : ℕ → ℕ → ℕ
sat_add_u32 a b = min (a + b) u32_max

abbrev pub sat_mul_u32 : ℕ → ℕ → ℕ
sat_mul_u32 a b = min (a * b) u32_max

pub pow-suc_two : (k : ℕ) → 2 ^ suc k ≡ 2 * 2 ^ k
pow-suc_two k = omega arith

pub pow_pos : (k : ℕ) → 1 ≤ 2 ^ k
pow_pos zero = omega arith
pow_pos (suc k) = omega (arith, pow_pos k, pow-suc_two k)

-- Powers of two grow with the exponent.
pub pow_mono : (a b : ℕ) → a ≤ b → 2 ^ a ≤ 2 ^ b
pow_mono zero b h = pow_pos b
pow_mono (suc a) zero h = absurd (omega arith)
pow_mono (suc a) (suc b) h = omega (arith, pow_mono a b (omega arith), pow-suc_two a, pow-suc_two b)

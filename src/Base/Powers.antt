-- ===== src/Base/Powers.antt =====
-- Powers of two, for shifts.
use native.Mathlib.Nat.{pow-zero, pow-suc, add-zero, add-suc, one-le-pow, pow-le-pow_right}
use Prim.Native.Nat.{ℕ, zero, suc, ◌+◌, ◌*◌, ◌^◌, ◌≤◌, ◌<◌}
use mathlib.Core.Path.{◌≡◌}
use native.Mathlib.Omega.{arith}

pub two_pow_pos : (n : ℕ) → 0 < 2 ^ n
two_pow_pos n = one-le-pow n 2 (omega arith)

pub two_pow_mono : (m n : ℕ) → m ≤ n → 2 ^ m ≤ 2 ^ n
two_pow_mono m n h = pow-le-pow_right (omega arith) h

pub pow_add : (b m n : ℕ) → b ^ (m + n) ≡ b ^ m * b ^ n
pow_add b m zero = rw (add-zero, pow-zero) (omega arith)
pow_add b m (suc n) = rw (add-suc, pow-suc b n, pow-suc b (m + n), pow_add b m n) (omega arith)

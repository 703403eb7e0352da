-- ===== src/Prelude/Pow.antt =====
-- Powers of two, as `omega` can use them.
use Prim.Native.Nat.{ℕ, zero, suc, ◌+◌, ◌*◌, ◌^◌, ◌≤◌, ◌<◌}
use mathlib.Core.Path.{◌≡◌, ap}
use native.Mathlib.Omega.{arith}
use Prim.Native.Nat.add
use native.Mathlib.Nat.{pow-succ'}

pub pow-double : (k : ℕ) → 2 ^ suc k ≡ 2 * 2 ^ k
pow-double k = pow-succ' 2 k

pub pow-pos : (k : ℕ) → 1 ≤ 2 ^ k
pow-pos zero = omega arith
pow-pos (suc k) = omega (arith, pow-double k, pow-pos k)

pub lt-pow : (k : ℕ) → k < 2 ^ k
lt-pow zero = omega arith
lt-pow (suc k) = omega (arith, pow-double k, lt-pow k)

pub pow-add : (k h : ℕ) → 2 ^ (k + h) ≡ 2 ^ k * 2 ^ h
pow-add zero h = simp add.zero (omega arith)
pow-add (suc k) h =
    simp (add.suc, pow-double) (omega (arith, pow-add k h, ap (λ (t : ℕ). 2 * t) (pow-add k h)))

pub pow_mono : (k h : ℕ) → k ≤ h → 2 ^ k ≤ 2 ^ h
pow_mono zero h le = pow-pos h
pow_mono (suc k) zero le = absurd (omega arith)
pow_mono (suc k) (suc h) le = omega (arith, pow-double k, pow-double h, pow_mono k h (omega arith))

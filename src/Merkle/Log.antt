-- ===== src/Merkle/Log.antt =====
-- The height `logarithm2 n` is the least `h` with `n ≤ 2 ^ h`, and grows by one at a power of two.
use hinkal_go.Prelude.{ℕ, zero, suc, ◌-◌, ◌/◌, ◌^◌, ◌≤◌, ◌<◌, arith}
use hinkal_go.Prelude.Pow.{pow-double, pow-pos}
use hinkal_go.Merkle.{bit_len_fuel, logarithm2}

bit_len_fuel-lt-pow : (f n : ℕ) → n ≤ f → n < 2 ^ bit_len_fuel f n
unfolding bit_len_fuel
bit_len_fuel-lt-pow zero n h = omega arith
bit_len_fuel-lt-pow (suc f) n h =
    ground (arith, bit_len_fuel-lt-pow f (n / 2), pow-double (bit_len_fuel f (n / 2)))

bit_len_fuel-le : (f n k : ℕ) → n < 2 ^ k → bit_len_fuel f n ≤ k
unfolding bit_len_fuel
bit_len_fuel-le zero n k h = omega arith
bit_len_fuel-le (suc f) n zero h = ground arith
bit_len_fuel-le (suc f) n (suc k) h = ground (arith, bit_len_fuel-le f (n / 2) k, pow-double k)

pub le-pow-logarithm2 : (n : ℕ) → n ≤ 2 ^ logarithm2 n
unfolding logarithm2
le-pow-logarithm2 n =
    ground (arith, bit_len_fuel-lt-pow (n - 1) (n - 1), pow-pos (bit_len_fuel (n - 1) (n - 1)))

pub logarithm2-le : (n k : ℕ) → n ≤ 2 ^ k → logarithm2 n ≤ k
unfolding logarithm2
logarithm2-le n k h = ground (arith, bit_len_fuel-le (n - 1) (n - 1) k, pow-pos k)

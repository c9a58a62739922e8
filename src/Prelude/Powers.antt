-- ===== src/Prelude/Powers.antt =====
-- Powers of two, which the retry delays and the back-off use.
use Prim.Native.Nat.{ℕ, zero, suc, ◌+◌, ◌*◌, ◌^◌, ◌≤◌, ◌<◌}
use mathlib.Core.Path.{◌≡◌, ap}
use native.Mathlib.Nat.{pow-suc, pow-zero, zero-add, suc-add, one-le-pow, pow-le-pow_right}
use native.Mathlib.Omega.{arith}
use wax_rng_oracle.Prelude.Tests.{ltb}

pub pow-add : (m n : ℕ) → 2 ^ (m + n) ≡ 2 ^ m * 2 ^ n
pow-add zero n = rw (zero-add, pow-zero) (omega arith)
pow-add (suc m) n =
    rw (suc-add, pow-suc 2 (m + n), pow-suc 2 m)
      (omega (arith, ap (λ (t : ℕ). t * 2) (pow-add m n)))

pub pow-pos : (n : ℕ) → 1 ≤ 2 ^ n
pow-pos n = one-le-pow n 2 (omega arith)

pow-lt-pow : (m n : ℕ) → m < n → 2 ^ m < 2 ^ n
pow-lt-pow m n h =
    omega
      (arith, pow-suc 2 m, pow-pos m, pow-le-pow_right {n = 2} (omega arith) {i = suc m} {j = n} h)

pow-le-pow : (m n : ℕ) → m ≤ n → 2 ^ m ≤ 2 ^ n
pow-le-pow m n h = pow-le-pow_right {n = 2} (omega arith) h

-- The order of two delays is the order of their exponents.
pub ltb-delay : (m n : ℕ) → ltb (500 * 2 ^ m) (2 ^ n * 500) ≡ ltb m n
ltb-delay m n = grind (arith, pow-lt-pow, pow-le-pow)

-- ===== src/Shuffle/Random.antt =====
-- The states of `SeededRandom` stay in range.
use wax_rng_oracle.Prelude.{ℕ, ◌≤◌, arith}
use wax_rng_oracle.Shuffle.{seeded, advance}

pub seeded_bounds : (seed : ℕ) → (1 ≤ seeded seed) × (seeded seed ≤ 2147483646)
unfolding seeded
seeded_bounds seed = ground arith

-- 16807 has the inverse 1407677000 modulo 2^31 - 1, so no state in range leads to 0.
pub advance_bounds :
    (seed : ℕ) → 1 ≤ seed → seed ≤ 2147483646 → (1 ≤ advance seed) × (advance seed ≤ 2147483646)
unfolding advance
advance_bounds seed h k = (omega arith, omega arith)

-- ===== src/Shuffle/Seed.antt =====
-- The seeds of different members and workers on one day.
use wax_rng_oracle.Prelude.{ℕ, ◌+◌, ◌<◌, ◌≡◌, some, arith}
use wax_rng_oracle.Shuffle.{days_since_epoch, generate_daily_seed}

-- With at most 100 workers a member, two workers that have the same seed at two times of one day
-- are the same worker of the same member.
generate_daily_seed-injective :
    (now now' key key' m m' seed : ℕ)
    → m < 100
    → m' < 100
    → days_since_epoch now ≡ days_since_epoch now'
    → generate_daily_seed now key (some m) ≡ some seed
    → generate_daily_seed now' key' (some m') ≡ some seed
    → (key ≡ key') × (m ≡ m')
unfolding generate_daily_seed
generate_daily_seed-injective now now' key key' m m' seed h h' day e e' = ground arith

-- Worker 100 of one member has the seed of worker 0 of the next member.
generate_daily_seed-collides :
    (now key : ℕ)
    → generate_daily_seed now (key + 1) (some 100) ≡ generate_daily_seed now (key + 2) (some 0)
unfolding generate_daily_seed
generate_daily_seed-collides now key = ground arith

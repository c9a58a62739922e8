-- ===== src/Shuffle.antt =====
-- lib/utils/shuffle.js: the seeded generator, the Fisher-Yates shuffle and the daily seed.
-- Numbers below 2^53 are exact in JavaScript. `Math.floor(x * n)` for the float x = (state - 1) /
-- 2147483646 that `next` returns is the parameter `pick state n`, which is not computed here, since
-- floats are rounded; that it is below n is what the code relies on.
pub mod Random
pub mod Order
pub mod Seed
use wax_rng_oracle.Prelude.{
  ℕ, zero, suc, ◌+◌, ◌*◌, ◌/◌, ◌%◌, ◌≤◌, ◌<◌, Option, none, some, List, [], ◌∷◌, ◌==◌,
  if◌then◌else◌, length, get_elem?, set,
}

abbrev pub modulus : ℕ
modulus = 2147483647

-- `new SeededRandom(seed)`, for a seed that is not negative: the field `seed`.
unfoldable pub seeded : ℕ → ℕ
seeded seed = let s = seed % modulus in if s == 0 then s + 2147483646 else s

-- `next()`: the new field `seed`. The value returned is `(seed - 1) / 2147483646`.
unfoldable pub advance : ℕ → ℕ
advance seed = seed * 16807 % modulus

-- `[a[i], a[j]] = [a[j], a[i]]`. With an index out of range JavaScript would make a hole in the
-- array: `none`.
abbrev put_both {ℓ} : {A : Type ℓ} → List A → ℕ → ℕ → Option A → Option A → Option (List A)
put_both xs i j (some x) (some y) = some (set (set xs i y) j x)
put_both xs i j _ _ = none

unfoldable pub swap {ℓ} : {A : Type ℓ} → List A → ℕ → ℕ → Option (List A)
swap xs i j = put_both xs i j (get_elem? xs i) (get_elem? xs j)

abbrev pub then_shuffle {ℓ} :
    {A : Type ℓ} → Option (List A) → (List A → Option (List A)) → Option (List A)
then_shuffle none f = none
then_shuffle (some xs) f = f xs

-- What the code relies on of the float arithmetic.
abbrev pub PicksBelow : (ℕ → ℕ → ℕ) → Type 0
PicksBelow pick = (state n : ℕ) → 1 ≤ state → state ≤ 2147483646 → 0 < n → pick state n < n

module _ {ℓ} {A : Type ℓ} (pick : ℕ → ℕ → ℕ) where
  -- The rounds from `i` down to 1.
  pub rounds : ℕ → ℕ → List A → Option (List A)
  rounds zero seed xs = some xs
  rounds (suc i) seed xs =
      let state = advance seed in
      then_shuffle (swap xs (suc i) (pick state (suc i + 1))) (rounds i state)

  -- `shuffleArray(array, seed)` with a seed, as both callers have.
  unfoldable pub shuffle_array : List A → ℕ → Option (List A)
  unfolding rounds seeded advance swap
  shuffle_array [] seed = some []
  shuffle_array (x ∷ []) seed = some (x ∷ [])
  shuffle_array (x ∷ y ∷ xs) seed = rounds (length (y ∷ xs)) (seeded seed) (x ∷ y ∷ xs)

-- `daysSinceEpoch` for `Date.now()` in ms.
unfoldable pub days_since_epoch : ℕ → ℕ
days_since_epoch now = now / 86400000

abbrev or_zero : Option ℕ → ℕ
or_zero none = 0
or_zero (some m) = m

-- `generateDailySeed(keyIndex, processModulus)` at the time `now`, for a key index of at least 1;
-- with key index 0 it throws.
unfoldable pub generate_daily_seed : ℕ → ℕ → Option ℕ → Option ℕ
unfolding days_since_epoch
generate_daily_seed now key_index process_modulus =
    if key_index == 0
    then none
    else some (key_index * 1000000 + or_zero process_modulus * 10000 + days_since_epoch now)

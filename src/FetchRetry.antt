-- ===== src/FetchRetry.antt =====
-- lib/config/fetchRetry.js: a request that is tried again. What each attempt meets is a parameter, by
-- its number from 0; a pause is an entry of a list of delays in ms.
pub mod Ends
use wax_rng_oracle.Prelude.{
  ℕ, zero, suc, ◌+◌, ◌-◌, ◌*◌, String, Bool, true, false, not, ◌&&◌, ◌||◌, Option, none, some, List,
  [], ◌∷◌, ltb, leb, text_eq, any, if◌then◌else◌,
}

-- `baseFetch` under the timer: a response with its status, or an error with its code, if it has one,
-- and whether the timer had fired.
pub data Met : Type 0 where
  response : (status : ℕ) → Met
  failed : (error_code : Option String) (timed_out : Bool) → Met

-- `request <url> timeout`, the error of an attempt, or `undefined` where there was no attempt.
pub data Ended : Type 0 where
  returned : (status : ℕ) → Ended
  timeout_error undefined_error : Ended
  threw : (error_code : Option String) → Ended

abbrev pub retryable_codes : List String
retryable_codes = "ECONNRESET" ∷ "ETIMEDOUT" ∷ "ECONNREFUSED" ∷ "ENOTFOUND" ∷ []

unfoldable pub is_retryable : Option String → Bool
is_retryable none = false
is_retryable (some c) = any (text_eq c) retryable_codes

abbrev pub is_success : ℕ → Bool
is_success status = not (ltb status 200 || leb 300 status)

-- `latestError` and `latestTimedOut`
abbrev pub Latest : Type 0
Latest = Option (Option String × Bool)

abbrev pub give_up : Latest → Ended
give_up none = undefined_error
give_up (some (c, true)) = timeout_error
give_up (some (c, false)) = threw c

abbrev pub paused : ℕ → Ended × List ℕ → Ended × List ℕ
paused i (e, delays) = (e, 100 * i ∷ delays)

-- The attempt `i`; `next` is the rest of the loop.
abbrev pub attempt : ℕ → ℕ → Met → Latest → (Latest → Ended × List ℕ) → Ended × List ℕ
attempt max_try i (response status) latest next =
    let again = paused i (next latest) in
    if not (is_success status) && ltb i (max_try - 1) then again else (returned status, [])
attempt max_try i (failed c timed_out) latest next =
    let again = paused i (next (some (c, timed_out))) in
    if not timed_out && not (is_retryable c) then (threw c, []) else again

module _ (max_try : ℕ) (meets : ℕ → Met) where
  -- The loop with `left` attempts left, from the attempt `i` on.
  pub attempts : ℕ → ℕ → Latest → Ended × List ℕ
  unfolding is_retryable
  attempts zero i latest = (give_up latest, [])
  attempts (suc left) i latest = attempt max_try i (meets i) latest (attempts left (i + 1))

  -- The result, and the pauses.
  unfoldable pub fetch_with_retry : Ended × List ℕ
  unfolding attempts
  fetch_with_retry = attempts max_try 0 none

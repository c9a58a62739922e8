-- ===== src/FetchRetry/Ends.antt =====
-- How a request of lib/config/fetchRetry.js ends.
use wax_rng_oracle.Prelude.{
  ℕ, zero, suc, ◌+◌, ◌-◌, ◌*◌, ◌≤◌, ◌<◌, String, ◌≡◌, refl, ap, ◌⊎◌, Bool, true, false, not, ◌&&◌,
  Option, none, some, List, [], ◌∷◌, arith, ltb, Bool-cases, inl, inr,
}
use wax_rng_oracle.FetchRetry.{
  Met, response, failed, Ended, returned, timeout_error, undefined_error, threw, is_retryable,
  is_success, Latest, give_up, paused, attempt, attempts, fetch_with_retry,
}

-- The pauses after the attempts from `i` on.
abbrev pub steps : ℕ → ℕ → List ℕ
steps i zero = []
steps i (suc n) = 100 * i ∷ steps (i + 1) n

module _ (max_try : ℕ) (meets : ℕ → Met) where
  -- What the attempt `at` met, and why it was the last one.
  abbrev pub Cause : ℕ → Ended → Type 0
  Cause at (returned status) =
      (meets at ≡ response status) × ((is_success status ≡ true) ⊎ (at + 1 ≡ max_try))
  Cause at (threw c) = (meets at ≡ failed c false) × ((is_retryable c ≡ false) ⊎ (at + 1 ≡ max_try))
  Cause at timeout_error = (c : Option String) × (meets at ≡ failed c true) × (at + 1 ≡ max_try)
  Cause at undefined_error = ⊥

  pub record Explained (i : ℕ) (r : Ended × List ℕ) : Type 0 where
    pub at : ℕ
    pub within : at < max_try
    pub cause : Cause at r.0
    pub count : ℕ
    pub pauses : r.1 ≡ steps i count
    pub few : i + count ≤ max_try

  -- There is another attempt, or the last one met the error that is remembered.
  abbrev Known : ℕ → Latest → Type 0
  Known i latest =
      (i < max_try)
      ⊎ ((at : ℕ) × (c : Option String) × (t : Bool) × (at + 1 ≡ max_try)
          × (meets at ≡ failed c t)
          × (latest ≡ some (c, t))
          × (i ≡ max_try))

  paused-Explained : (i : ℕ) (r : Ended × List ℕ) → Explained (i + 1) r → Explained i (paused i r)
  paused-Explained i r x = record {
    at = x.at;
    within = x.within;
    cause = x.cause;
    count = suc x.count;
    pauses = ap (λ (l : List ℕ). 100 * i ∷ l) x.pauses;
    few = omega (arith, x.few);
  }

  given_up :
      (at : ℕ) (c : Option String) (t : Bool)
      → at + 1 ≡ max_try
      → meets at ≡ failed c t
      → Explained max_try (give_up (some (c, t)), [])
  given_up at c true last met = record {
    at = at;
    within = omega arith;
    cause = (c, met, last);
    count = 0;
    pauses = refl;
    few = omega arith;
  }
  given_up at c false last met = record {
    at = at;
    within = omega arith;
    cause = (met, inr last);
    count = 0;
    pauses = refl;
    few = omega arith;
  }

  next-Known :
      (i : ℕ) (c : Option String) (t : Bool) (met : meets i ≡ failed c t)
      → i < max_try
      → Known (i + 1) (some (c, t))
  next-Known i c t met h = elim (Bool-cases (ltb (i + 1) max_try)) [
    | inl more ↦ inl (ground (arith, more))
    | inr last ↦ inr (i, c, t, ground (arith, last, h), met, refl, ground (arith, last, h))
  ]

  attempt-Explained :
      (i : ℕ) (met : Met) (latest : Latest) (next : Latest → Ended × List ℕ)
      → meets i ≡ met
      → i < max_try
      → ((l : Latest) → Known (i + 1) l → Explained (i + 1) (next l))
      → Explained i (attempt max_try i met latest next)
  attempt-Explained i (response status) latest next met h go =
      elim (Bool-cases (not (is_success status) && ltb i (max_try - 1))) [
        | inl again ↦
            rw again (paused-Explained i (next latest) (go latest (inl (ground (arith, again)))))
        | inr last ↦ rw last (record {
          at = i;
          within = h;
          cause = (met, ground (arith, last, h));
          count = 0;
          pauses = refl;
          few = omega arith;
        })
      ]
  attempt-Explained i (failed c true) latest next met h go =
      paused-Explained i (next (some (c, true))) (go (some (c, true)) (next-Known i c true met h))
  attempt-Explained i (failed c false) latest next met h go = elim (Bool-cases (is_retryable c)) [
    | inl again ↦ rw again (
        paused-Explained i (next (some (c, false)))
          (go (some (c, false)) (next-Known i c false met h)))
    | inr fatal ↦ rw fatal (record {
      at = i;
      within = h;
      cause = (met, inl fatal);
      count = 0;
      pauses = refl;
      few = omega arith;
    })
  ]

  attempts-Explained :
      (left i : ℕ) (latest : Latest)
      → i + left ≡ max_try
      → Known i latest
      → Explained i (attempts max_try meets left i latest)
  unfolding attempts
  attempts-Explained zero i latest e (inl more) = ground (arith, more, e)
  attempts-Explained zero i latest e (inr (at, c, t, last, met, l, same)) =
      rw (l, same) (given_up at c t last met)
  attempts-Explained (suc left) i latest e k =
      attempt-Explained i (meets i) latest (attempts max_try meets left (i + 1)) refl (omega arith)
        (λ l k'. attempts-Explained left (i + 1) l (omega arith) k')

-- With at least one attempt, a request ends as one of its attempts did. A response is a success or
-- that of the last attempt; an error that is thrown is not to be retried or is that of the last; the
-- timeout error is that of the last. There is a pause after at most each attempt, of 100 ms more than
-- the one before, starting with none.
pub fetch_with_retry-Explained :
    (max_try : ℕ) (meets : ℕ → Met)
    → 0 < max_try
    → Explained max_try meets 0 (fetch_with_retry max_try meets)
unfolding fetch_with_retry
fetch_with_retry-Explained max_try meets h =
    attempts-Explained max_try meets max_try 0 none (omega arith) (inl h)

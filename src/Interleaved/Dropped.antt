-- ===== src/Interleaved/Dropped.antt =====
-- What a step of `clearResolvedFailures` of lib/jobService.js drops.
use wax_rng_oracle.Prelude.{
  ℕ, ◌≡◌, ◌⊎◌, refl, Bool, true, false, Option, none, List, [], ◌∷◌, ◌++◌, arith, Bool-cases, inl,
  inr, any, ◌==◌, if◌then◌else◌,
}
use wax_rng_oracle.Dict.{lookup, lookup-remove_all}
use wax_rng_oracle.Model.{Job}
use wax_rng_oracle.Storage.{Failure, clear_failed_jobs, get_all_failed_jobs}
use wax_rng_oracle.JobService.{is_resolved}
use wax_rng_oracle.Poller.{State}
use wax_rng_oracle.Interleaved.Clearing.{
  ClearPc, reading, next_read, judged, ClearMove, starts, has_read, not_read, writes,
}

abbrev holds : ℕ → List ℕ → Bool
holds id ids = any (λ k. k == id) ids

holds-last :
    (id k : ℕ) (ids : List ℕ) → holds id (ids ++ k ∷ []) ≡ true → (holds id ids ≡ true) ⊎ (k ≡ id)
holds-last id k [] e = inr (ground (arith, e))
holds-last id k (j ∷ ids) e = elim (Bool-cases (j == id)) [
  | inl here ↦ inl (rw here refl)
  | inr there ↦
      let h : holds id (ids ++ k ∷ []) ≡ true = ground (arith, e, there) in
      elim (holds-last id k ids h) [
        | inl before ↦ inl (ground (arith, before, there))
        | inr last ↦ inr last
      ]
]

-- In this step a record of the id is read again, and its job is gone from the chain, or is there with
-- another seed.
abbrev pub ReadsGone :
    {s : State} {p : ClearPc} {r : ClearPc × State} → ClearMove s p r → ℕ → Type 0
ReadsGone (has_read {f} row) id = (f.id ≡ id) × (is_resolved f row ≡ true)
ReadsGone _ id = ⊥

holds-judged :
    (id : ℕ) (f : Failure) (row : Option Job) (ids : List ℕ)
    → holds id (judged f row ids) ≡ true
    → (holds id ids ≡ true) ⊎ ((f.id ≡ id) × (is_resolved f row ≡ true))
holds-judged id f row ids e = split (is_resolved f row) refl e
  where
    split :
        (b : Bool)
        → is_resolved f row ≡ b
        → holds id (if b then ids ++ f.id ∷ [] else ids) ≡ true
        → (holds id ids ≡ true) ⊎ ((f.id ≡ id) × (is_resolved f row ≡ true))
    split true gone h = elim (holds-last id f.id ids h) [
      | inl before ↦ inl before
      | inr same ↦ inr (same, gone)
    ]
    split false there h = inl h

-- What `next_read` drops are the ids that it holds.
next_read-lost :
    (fs : List Failure) (ids : List ℕ) (s : State) (id : ℕ)
    → lookup id (next_read fs ids s).1.db.failures ≡ none
    → (lookup id s.db.failures ≡ none) ⊎ (holds id ids ≡ true)
unfolding clear_failed_jobs
next_read-lost [] ids s id e = elim (Bool-cases (holds id ids)) [
  | inl dropped ↦ inr dropped
  | inr kept ↦ inl (ground (arith, lookup-remove_all ids id s.db.failures, kept, e))
]
next_read-lost (f ∷ fs) ids s id e = inl e

module _ (W : ℕ → Type 0) where
  -- Every id that the poll holds has the property.
  abbrev pub ClearOk : ClearPc → Type 0
  ClearOk (reading f fs ids) = (id : ℕ) → holds id ids ≡ true → W id
  ClearOk _ = Unit

  next_read-Ok :
      (fs : List Failure) (ids : List ℕ) (s : State)
      → ((id : ℕ) → holds id ids ≡ true → W id)
      → ClearOk (next_read fs ids s).0
  next_read-Ok [] ids s h = tt
  next_read-Ok (f ∷ fs) ids s h = h

-- From a property of the ids without a record before the step to one of those after it.
module _ (W W' : ℕ → Type 0) (s : State)
    (none_before : (id : ℕ) → lookup id s.db.failures ≡ none → W id)
    (keeps : (id : ℕ) → W id → W' id) where
  dropped :
      (fs : List Failure) (ids : List ℕ)
      → ((id : ℕ) → holds id ids ≡ true → W' id)
      → (id : ℕ) → lookup id (next_read fs ids s).1.db.failures ≡ none
      → W' id
  dropped fs ids h id e = elim (next_read-lost fs ids s id e) [
    | inl before ↦ keeps id (none_before id before)
    | inr held ↦ h id held
  ]

  -- A step of `clearResolvedFailures`.
  pub ClearMove-Ok :
      {p : ClearPc} {r : ClearPc × State} (mv : ClearMove s p r)
      → ((id : ℕ) → ReadsGone mv id → W' id)
      → ClearOk W p
      → ClearOk W' r.0 × ((id : ℕ) → lookup id r.1.db.failures ≡ none → W' id)
  ClearMove-Ok starts gone ok =
      let held : (id : ℕ) → holds id [] ≡ true → W' id = λ id e. absurd (ground arith) in
      (
        next_read-Ok W' (get_all_failed_jobs s.db) [] s held,
        dropped (get_all_failed_jobs s.db) [] held,
      )
  ClearMove-Ok (has_read {f} {fs} {ids} row) gone ok =
      let held : (id : ℕ) → holds id (judged f row ids) ≡ true → W' id = λ id e.
        elim (holds-judged id f row ids e) [
          | inl before ↦ keeps id (ok id before)
          | inr now ↦ gone id now
        ] in
      (next_read-Ok W' fs (judged f row ids) s held, dropped fs (judged f row ids) held)
  ClearMove-Ok (not_read e) gone ok = (tt, λ id x. keeps id (none_before id x))
  ClearMove-Ok writes gone ok = (tt, λ id x. keeps id (none_before id x))

-- ===== src/JobService/Resolved.antt =====
-- Which failure records `clearResolvedFailures` drops.
use wax_rng_oracle.Prelude.{
  ℕ, ◌≡◌, refl, ap, Option, none, some, List, [], ◌∷◌, map, arith, keep, ok, if◌then◌else◌,
}
use wax_rng_oracle.Dict.{lookup, lookup-remove_all, values}
use wax_rng_oracle.Dict.Table.{any-keep-values, test}
use wax_rng_oracle.Model.{Job}
use wax_rng_oracle.Storage.{Storage, Failure, clear_failed_jobs, get_all_failed_jobs}
use wax_rng_oracle.Storage.Cleared.{IsValid}
use wax_rng_oracle.JobService.{
  Finder, first, row_of, is_resolved, resolved_ids, clear_resolved_failures,
}

-- A failure record is kept while the chain has the job with the seed that the record has.
abbrev pub still_failed : (ℕ → List Job) → Option Failure → Option Failure
still_failed rows none = none
still_failed rows (some f) = if is_resolved f (first (rows f.id)) then none else some f

module _ (find : Finder Job) (rows : ℕ → List Job) (reads : (id : ℕ) → find id ≡ ok (rows id)) where
  resolved_ids-keep :
      (fs : List Failure)
      → resolved_ids find fs
        ≡ ok (map (λ f. f.id) (keep (λ f. is_resolved f (first (rows f.id))) fs))
  unfolding resolved_ids row_of
  resolved_ids-keep [] = refl
  resolved_ids-keep (f ∷ fs) = rw (reads f.id, resolved_ids-keep fs) (ap ok (ground arith))

  drop_resolved :
      (o : Option Failure)
      → (if test (λ (f : Failure). is_resolved f (first (rows f.id))) o then none else o)
        ≡ still_failed rows o
  drop_resolved none = refl
  drop_resolved (some f) = refl

  -- If every read succeeds, `clearResolvedFailures` on a valid storage drops exactly the records of
  -- jobs that the chain no longer has, or has with another seed.
  pub clear_resolved_failures_lem :
      (s : Storage)
      → IsValid s
      → (s' : Storage) × (clear_resolved_failures find s ≡ ok s')
        × ((id : ℕ) → lookup id s'.failures ≡ still_failed rows (lookup id s.failures))
  unfolding clear_resolved_failures clear_failed_jobs get_all_failed_jobs
  clear_resolved_failures_lem s v = (
    clear_failed_jobs
        (map (λ f. f.id) (keep (λ f. is_resolved f (first (rows f.id))) (values s.failures))) s,
    rw (resolved_ids-keep (values s.failures)),
    λ id.
        rw
          (
            lookup-remove_all,
            any-keep-values (λ (f : Failure). f.id) (λ f. is_resolved f (first (rows f.id))) id
                s.failures v.failures,
          )
          (drop_resolved (lookup id s.failures)),
  )

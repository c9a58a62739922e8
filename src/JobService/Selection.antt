-- ===== src/JobService/Selection.antt =====
-- What the selections of lib/jobService.js return on a table of the chain.
use mathlib.Core.List.{Perm}
use wax_rng_oracle.Prelude.{
  ℕ, ◌≤◌, ◌<◌, String, ◌≡◌, ◌≢◌, ap, sym, subst, ◌∙◌, ◌⊎◌, inl, inr, Bool, Option, some, none, List,
  [], ◌++◌, arith, length, keep, ok, Option-cases,
}
use wax_rng_oracle.Model.{Job, Undelivered}
use wax_rng_oracle.Storage.{Storage, should_retry_delivery}
use wax_rng_oracle.Shuffle.{PicksBelow, shuffle_array, generate_daily_seed}
use wax_rng_oracle.Shuffle.Order.{shuffle_array-perm}
use wax_rng_oracle.JobService.{
  shuffled, Reader, should_try_job, should_execute_job, get_process_modulus, found_shuffled,
  get_jobs_to_process, get_jobs_to_execute, get_pending_job_number, get_jobs_to_retry_deliver,
}
use wax_rng_oracle.JobService.Paging.{IsReaderOf, from-zero, count_pages-table, collect-table}

abbrev pub id_of : Job → ℕ
id_of job = job.id

-- On a table of which the RPC node gives the rows page by page, with more fuel than rows, the
-- number of pending jobs is the number of rows.
pub get_pending_job_number-table :
    (table : List Job) (reqs : Reader Job) (fuel : ℕ)
    → IsReaderOf id_of table reqs
    → length table < fuel
    → get_pending_job_number reqs fuel ≡ ok (length table)
unfolding get_pending_job_number
get_pending_job_number-table table reqs fuel reads h =
    count_pages-table id_of table reqs reads fuel 1000 0 0 (rw (from-zero id_of) h)
    ∙ ap ok (rw (from-zero id_of) (omega arith))

-- `ys` are the rows that pass the test, in some order, of a first part of the table; this is the
-- whole table, or at least 100 rows of it pass.
pub record Selected {ℓ} {R : Type ℓ} (table : List R) (should : R → Bool) (ys : List R)
    : Type ℓ where
  pub scanned : List R
  pub rest : List R
  pub split : table ≡ scanned ++ rest
  pub order : Perm ys (keep should scanned)
  pub enough : (rest ≡ []) ⊎ (100 ≤ length (keep should scanned))

generate_daily_seed-ne-none :
    (now key : ℕ) (m : Option ℕ) → 1 ≤ key → generate_daily_seed now key m ≢ none
unfolding generate_daily_seed
generate_daily_seed-ne-none now key m h = ground arith

shuffled-some :
    (pick : ℕ → ℕ → ℕ) (seed : ℕ) (jobs ys : List Job)
    → shuffle_array pick jobs seed ≡ some ys
    → shuffled pick (some seed) jobs ≡ ok ys
shuffled-some pick seed jobs ys e = rw (e, shuffled)

module _ (pick : ℕ → ℕ → ℕ) (below : PicksBelow pick) (table : List Job) (reqs : Reader Job)
    (reads : IsReaderOf id_of table reqs) (fuel now key_index : ℕ) (s : Storage)
    (enough_fuel : length table < fuel) (one_based : 1 ≤ key_index) where
  found_shuffled-Selected :
      (should : Job → Bool)
      → (ys : List Job) × (found_shuffled reqs pick fuel now key_index s should ≡ ok ys)
        × Selected table should ys
  unfolding found_shuffled
  found_shuffled-Selected should =
      let (jobs, e, f) =
        collect-table id_of table reqs reads should fuel 100 0 []
          (rw (from-zero id_of) enough_fuel) in
      let keeps : jobs ≡ keep should f.scanned = f.found in
      let daily = generate_daily_seed now key_index (get_process_modulus s) in
      elim (Option-cases daily) [
        | inl e' ↦
            absurd (generate_daily_seed-ne-none now key_index (get_process_modulus s) one_based e')
        | inr (seed, e') ↦
            let (ys, e'', p) = shuffle_array-perm pick below jobs seed in
            (
              ys,
              rw (e, e') (shuffled-some pick seed jobs ys e''),
              record {
                scanned = f.scanned;
                rest = f.rest;
                split = sym (from-zero id_of table) ∙ f.split;
                order = subst (λ (l : List Job). Perm ys l) keeps p;
                enough = subst (λ (l : List Job). (f.rest ≡ []) ⊎ (100 ≤ length l)) keeps f.enough;
              },
            )
      ]

  -- For a member with an index of at least 1, `getJobsToProcess` returns, in some order, the jobs of
  -- this process that hold no part of the member, of a first part of the table: of the whole table,
  -- or of enough of it to find 100. The table is read page by page and there is more fuel than rows.
  pub get_jobs_to_process-Selected :
      (ys : List Job) × (get_jobs_to_process reqs pick fuel now key_index s ≡ ok ys)
      × Selected table (should_try_job key_index s) ys
  unfolding get_jobs_to_process
  get_jobs_to_process-Selected = found_shuffled-Selected (should_try_job key_index s)

  -- For a member with an index of at least 1, `getJobsToExecute` returns, in some order, the jobs that
  -- have enough parts and are not held back by a failure record, of a first part of the table: of the
  -- whole table, or of enough of it to find 100. The table is read page by page and there is more
  -- fuel than rows.
  pub get_jobs_to_execute-Selected :
      (threshold : ℕ) (sha256 : String → String)
      → (ys : List Job) × (get_jobs_to_execute reqs pick fuel now key_index s threshold sha256
          ≡ ok ys)
        × Selected table (should_execute_job threshold sha256 now s) ys
  unfolding get_jobs_to_execute
  get_jobs_to_execute-Selected threshold sha256 =
      found_shuffled-Selected (should_execute_job threshold sha256 now s)

-- `getJobsToRetryDeliver` returns, in the table's order, the undelivered results whose retry is due,
-- of a first part of the table: of the whole table, or of enough of it to find 100. The table is read
-- page by page and there is more fuel than rows.
pub get_jobs_to_retry_deliver-table :
    (table : List Undelivered) (undelivered : Reader Undelivered) (fuel now : ℕ) (s : Storage)
    → IsReaderOf (λ (u : Undelivered). u.request_id) table undelivered
    → length table < fuel
    → (scanned rest : List Undelivered) × (table ≡ scanned ++ rest)
      × (get_jobs_to_retry_deliver undelivered fuel now s
          ≡ ok (keep (should_retry_delivery now s) scanned))
      × ((rest ≡ []) ⊎ (100 ≤ length (keep (should_retry_delivery now s) scanned)))
unfolding get_jobs_to_retry_deliver
get_jobs_to_retry_deliver-table table undelivered fuel now s reads h =
    let key = λ (u : Undelivered). u.request_id in
    let (ys, e, f) =
      collect-table key table undelivered reads (should_retry_delivery now s) fuel 100 0 []
        (rw (from-zero key) h) in
    (
      f.scanned,
      f.rest,
      sym (from-zero key table) ∙ f.split,
      e ∙ ap ok f.found,
      subst (λ (l : List Undelivered). (f.rest ≡ []) ⊎ (100 ≤ length l)) f.found f.enough,
    )

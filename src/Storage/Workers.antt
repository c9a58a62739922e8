-- ===== src/Storage/Workers.antt =====
-- How the workers of cluster mode share the jobs (lib/storage.js, `init` and `isJobOfThisProcess`).
use wax_rng_oracle.Prelude.{ℕ, ◌%◌, ◌<◌, ◌≡◌, ◌↔◌, ◌⊎◌, true, some, arith}
use wax_rng_oracle.Model.{Job}
use wax_rng_oracle.Storage.{DbFile, init, is_job_of_this_process}

-- Worker `modulus` of `total` works on a job exactly when its id has that residue, or when it is
-- worker 0, which works on every job. There is at least one worker.
pub is_job_of_this_process_iff :
    (max_retries : ℕ) (file : DbFile) (modulus total : ℕ) (job : Job)
    → 0 < total
    → (is_job_of_this_process (init max_retries file (some modulus) (some total)) job ≡ true)
      ↔ ((modulus ≡ 0) ⊎ (job.id % total ≡ modulus))
unfolding is_job_of_this_process init
is_job_of_this_process_iff max_retries file modulus total job h =
    (λ e. ground arith, λ e. ground arith)

-- Two workers of one number of workers, neither of them worker 0, never work on the same job.
is_job_of_this_process_once :
    (max_retries max_retries' : ℕ) (file file' : DbFile) (m m' total : ℕ) (job : Job)
    → 0 < m
    → 0 < m'
    → 0 < total
    → is_job_of_this_process (init max_retries file (some m) (some total)) job ≡ true
    → is_job_of_this_process (init max_retries' file' (some m') (some total)) job ≡ true
    → m ≡ m'
unfolding is_job_of_this_process init
is_job_of_this_process_once max_retries max_retries' file file' m m' total job h h' ht e e' =
    ground arith

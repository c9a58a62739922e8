-- ===== src/Startup/Forked.antt =====
-- The workers that index.js forks, the jobs that each would sign by lib/jobService.js and lib/storage.js,
-- and those that each would execute.
use Prim.Native.String.{◌++◌}
use text.Mathlib.TextLemmas.{append_cancel_left, append_cancel_right}
use wax_rng_oracle.Prelude.{
  ◌↔◌, ◌⊎◌, sym, ap, ◌∙◌, get_elem?, decimal, decimal-injective, ℕ, zero, suc, ◌+◌, ◌==◌, false,
  ◌%◌, ◌≤◌, ◌<◌, ◌≡◌, refl, true, Bool, ◌||◌, some, arith, any, inr, String, false,
}
use wax_rng_oracle.Model.{Job}
use wax_rng_oracle.Storage.{DbFile, Storage, init, is_job_of_this_process}
use wax_rng_oracle.Storage
use wax_rng_oracle.JobService.{should_try_job, should_execute_job, has_index}
use wax_rng_oracle.Storage.Workers.{is_job_of_this_process_iff}
use wax_rng_oracle.Startup.{db_name, Worker, forked, forked_from}

abbrev worker_at : ℕ → ℕ → Worker
worker_at total i = record { db = db_name i; process_modulus = i; total_process = total }

-- The storage of the forked worker, from what its own file holds.
abbrev storage_of : ℕ → DbFile → Worker → Storage
storage_of max_retries file x =
    init max_retries file (some x.process_modulus) (some x.total_process)

-- The forked worker takes the job up to sign it: `shouldTryJob`.
abbrev signs : ℕ → ℕ → DbFile → Job → Worker → Bool
signs key_index max_retries file job x =
    should_try_job key_index (storage_of max_retries file x) job

-- The job has a part of the member already.
abbrev has_own_part : ℕ → Job → Bool
has_own_part key_index job = any (has_index key_index) job.parts

signs_iff :
    (key_index max_retries : ℕ) (file : DbFile) (i total : ℕ) (job : Job)
    → 0 < total
    → (signs key_index max_retries file job (worker_at total i) ≡ true)
      ↔ ((has_own_part key_index job ≡ false) × ((i ≡ 0) ⊎ (job.id % total ≡ i)))
unfolding should_try_job
signs_iff key_index max_retries file i total job t =
    let k = is_job_of_this_process_iff max_retries file i total job t in
    (
      λ e.
          let mine : is_job_of_this_process (storage_of max_retries file (worker_at total i)) job
              ≡ true =
            ground (arith, e) in
          (ground (arith, e, mine), k.0 mine),
      λ h. let mine = k.1 h.1 in ground (arith, mine, h.0),
    )

first_true : (a b : Bool) → a ≡ true → (a || b) ≡ true
first_true a b h = rw h refl

second_true : (a b : Bool) → b ≡ true → (a || b) ≡ true
second_true a b h = ground (arith, h)

from-covers :
    (key_index max_retries : ℕ) (file : DbFile) (job : Job) (total left i : ℕ)
    → has_own_part key_index job ≡ false
    → 0 < total
    → i ≤ job.id % total
    → job.id % total < i + left
    → any (signs key_index max_retries file job) (forked_from left i total) ≡ true
unfolding forked_from
from-covers key_index max_retries file job total zero i new t lo hi = absurd (omega (arith, lo, hi))
from-covers key_index max_retries file job total (suc left) i new t lo hi =
    go (i == job.id % total) refl (λ next.
      from-covers key_index max_retries file job total left (i + 1) new t next (omega (arith, hi)))
  where
    here : Bool
    here = signs key_index max_retries file job (worker_at total i)

    rest : Bool
    rest = any (signs key_index max_retries file job) (forked_from left (i + 1) total)

    go :
        (b : Bool)
        → (i == job.id % total) ≡ b
        → (i + 1 ≤ job.id % total → rest ≡ true)
        → (here || rest) ≡ true
    go true e later =
        first_true here rest
          ((signs_iff key_index max_retries file i total job t).1 (new, inr (ground (arith, e))))
    go false e later = second_true here rest (later (ground (arith, e, lo)))

forked-covers :
    (key_index max_retries : ℕ) (file : DbFile) (job : Job) (cpus : ℕ)
    → has_own_part key_index job ≡ false
    → 1 ≤ cpus
    → any (signs key_index max_retries file job) (forked cpus) ≡ true
unfolding forked
forked-covers key_index max_retries file job cpus new h =
    from-covers key_index max_retries file job cpus cpus 0 new (omega arith) (omega arith)
      (omega arith)

get_elem?-forked_from :
    (total left i k : ℕ) (w : Worker)
    → get_elem? (forked_from left i total) k ≡ some w
    → w ≡ worker_at total (i + k)
unfolding forked_from
get_elem?-forked_from total zero i k w e = absurd (cc)
get_elem?-forked_from total (suc left) i zero w e =
    let first : w ≡ worker_at total i = cc in first ∙ ap (worker_at total) (omega arith)
get_elem?-forked_from total (suc left) i (suc k) w e =
    get_elem?-forked_from total left (i + 1) k w e ∙ ap (worker_at total) (omega arith)

forked_at : (cpus i : ℕ) (w : Worker) → get_elem? (forked cpus) i ≡ some w → w ≡ worker_at cpus i
unfolding forked
forked_at cpus i w e = get_elem?-forked_from cpus cpus 0 i w e ∙ ap (worker_at cpus) (omega arith)

db_name-injective : (i j : ℕ) → db_name i ≡ db_name j → i ≡ j
db_name-injective i j e = decimal-injective i j (
    append_cancel_right (decimal i) (decimal j) ".json"
      (append_cancel_left "db-" (decimal i ++ ".json") (decimal j ++ ".json") e))

-- How the workers of a member share the jobs and the files.
pub record Divides (key_index max_retries : ℕ) (file : DbFile) (cpus : ℕ) : Type 0 where
  pub covered :
      (job : Job)
      → has_own_part key_index job ≡ false
      → any (signs key_index max_retries file job) (forked cpus) ≡ true
  pub shared :
      (i : ℕ) (w : Worker)
      → get_elem? (forked cpus) i ≡ some w
      → (job : Job)
      → (signs key_index max_retries file job w ≡ true)
        ↔ ((has_own_part key_index job ≡ false) × ((i ≡ 0) ⊎ (job.id % cpus ≡ i)))
  pub undivided :
      (i j : ℕ) (v w : Worker)
      → get_elem? (forked cpus) i ≡ some v
      → get_elem? (forked cpus) j ≡ some w
      → (threshold now : ℕ) (sha256 : String → String) (job : Job)
      → should_execute_job threshold sha256 now (storage_of max_retries file v) job
        ≡ should_execute_job threshold sha256 now (storage_of max_retries file w) job
  pub own_file :
      (i j : ℕ) (v w : Worker)
      → get_elem? (forked cpus) i ≡ some v
      → get_elem? (forked cpus) j ≡ some w
      → v.db ≡ w.db
      → i ≡ j

-- If there is at least one CPU: every job without a part of the member is one that some forked worker
-- would sign, by `shouldTryJob`; worker `i` would sign exactly those of them with the residue `i`, or all
-- of them if it is worker 0; which jobs are executed is not divided, since with the same records
-- `shouldExecuteJob` is the same for all workers; and no two workers keep their failures in one file.
pub forked-Divides :
    (key_index max_retries : ℕ) (file : DbFile) (cpus : ℕ)
    → 1 ≤ cpus
    → Divides key_index max_retries file cpus
unfolding should_execute_job Storage.should_execute_job init
forked-Divides key_index max_retries file cpus h = record {
  covered = λ job new. forked-covers key_index max_retries file job cpus new h;
  shared = λ i w e job.
      rw (forked_at cpus i w e)
        (signs_iff key_index max_retries file i cpus job (omega (arith, h)));
  undivided = λ i j v w e e' threshold now sha256 job. refl;
  own_file = λ i j v w e e' same. db_name-injective i j (
      sym (ap (λ (x : Worker). x.db) (forked_at cpus i v e))
      ∙ same
      ∙ ap (λ (x : Worker). x.db) (forked_at cpus j w e'));
}

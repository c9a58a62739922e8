-- ===== src/JobService.antt =====
-- lib/jobService.js: which jobs a member works on, read from the chain's tables page by page.
-- `eosRpc.get_table_rows` is a parameter: `reqs lower limit` and `undelivered lower limit` are its
-- answers for the tables `reqs` and `undelivered1`, and an answer is an `EosError` if the call
-- failed. Metrics and log lines are left out.
pub mod Paging
pub mod Selection
pub mod Resolved
pub mod Delivered
use wax_rng_oracle.Prelude.{
  ℕ, zero, suc, ◌+◌, String, Bool, true, false, not, ◌&&◌, ◌||◌, Option, none, some, List, [], ◌∷◌,
  ◌++◌, map, ltb, ◌==◌, text_eq, if◌then◌else◌, length, keep, any, Result, ok, threw, out_of_fuel,
  bad_index, ◌>>=◌, type_error,
}
use wax_rng_oracle.Model.{Value, integer, Part, Job, Undelivered}
use wax_rng_oracle.Storage.{
  Storage, Failure, DeliveryFailure, Process, is_job_of_this_process, get_all_failed_jobs,
  clear_failed_jobs, get_all_failed_deliveries, clear_delivery_failures, should_retry_delivery,
}
use wax_rng_oracle.Storage
use wax_rng_oracle.Shuffle.{shuffle_array, generate_daily_seed}

-- `{ rows, more, next_key }`
pub record Page {ℓ} (R : Type ℓ) : Type ℓ where
  pub rows : List R
  pub more : Bool
  pub next_key : ℕ

-- `get_table_rows` of one table, by lower bound and limit.
abbrev pub Reader {ℓ} : Type ℓ → Type ℓ
Reader R = ℕ → ℕ → Result (Page R)

module _ {ℓ} {R : Type ℓ} (read : Reader R) where
  -- The loop of `getPendingJobNumber`.
  pub count_pages : ℕ → ℕ → ℕ → ℕ → Result ℕ
  count_pages zero limit next_key count = out_of_fuel
  count_pages (suc fuel) limit next_key count = do
    page ← read next_key limit
    let total = count + length page.rows
    let rest = count_pages fuel limit page.next_key total
    if page.more then rest else ok total

  -- The loop of `getJobsToProcess`, `getJobsToExecute` and `getJobsToRetryDeliver`.
  pub collect : ℕ → (R → Bool) → ℕ → ℕ → List R → Result (List R)
  collect zero should limit next_key results = out_of_fuel
  collect (suc fuel) should limit next_key results = do
    page ← read next_key limit
    let found = results ++ keep should page.rows
    let rest = collect fuel should limit page.next_key found
    if ltb (length found) limit && page.more then rest else ok found

-- `part.idx === shareIndex`
abbrev pub has_index : ℕ → Part → Bool
has_index key_index part = elim part.idx [ integer n ↦ n == key_index | _ ↦ false ]

unfoldable pub should_try_job : ℕ → Storage → Job → Bool
should_try_job key_index s job =
    if is_job_of_this_process s job then not (any (has_index key_index) job.parts) else false

-- `config.get('shareKey.threshold')` is `threshold`.
unfoldable pub should_execute_job : ℕ → (String → String) → ℕ → Storage → Job → Bool
should_execute_job threshold sha256 now s job =
    if ltb (length job.parts) threshold then false else Storage.should_execute_job sha256 now s job

abbrev modulus_of : Option Process → Option ℕ
modulus_of none = none
modulus_of (some p) = some p.modulus

unfoldable pub get_process_modulus : Storage → Option ℕ
get_process_modulus s = modulus_of s.process

-- A thrown `TypeError` of `generateDailySeed`, and the shuffle of the jobs found.
abbrev shuffled : (ℕ → ℕ → ℕ) → Option ℕ → List Job → Result (List Job)
shuffled pick none jobs = threw type_error
shuffled pick (some seed) jobs = elim (shuffle_array pick jobs seed) [
  | none ↦ threw bad_index
  | some ys ↦ ok ys
]

module _ (reqs : Reader Job) (pick : ℕ → ℕ → ℕ) (fuel now key_index : ℕ) (s : Storage) where
  -- The end that `getJobsToProcess` and `getJobsToExecute` have in common.
  unfoldable pub found_shuffled : (Job → Bool) → Result (List Job)
  unfolding get_process_modulus
  found_shuffled should = do
    jobs ← collect reqs fuel should 100 0 []
    shuffled pick (generate_daily_seed now key_index (get_process_modulus s)) jobs

  unfoldable pub get_jobs_to_process : Result (List Job)
  unfolding found_shuffled
  get_jobs_to_process = found_shuffled (should_try_job key_index s)

  unfoldable pub get_jobs_to_execute : ℕ → (String → String) → Result (List Job)
  unfolding found_shuffled
  get_jobs_to_execute threshold sha256 = found_shuffled (should_execute_job threshold sha256 now s)

unfoldable pub get_pending_job_number : Reader Job → ℕ → Result ℕ
get_pending_job_number reqs fuel = count_pages reqs fuel 1000 0 0

unfoldable pub get_jobs_to_retry_deliver :
    Reader Undelivered → ℕ → ℕ → Storage → Result (List Undelivered)
get_jobs_to_retry_deliver undelivered fuel now s =
    collect undelivered fuel (should_retry_delivery now s) 100 0 []

unfoldable pub get_jobs_paged : Reader Job → ℕ → ℕ → Result (List Job)
get_jobs_paged reqs from limit = do page ← reqs from limit; ok page.rows

-- The rows of one key, as a read with `lower_bound` and `upper_bound` equal to it returns them.
abbrev pub Finder {ℓ} : Type ℓ → Type ℓ
Finder R = ℕ → Result (List R)

abbrev pub first {ℓ} : {R : Type ℓ} → List R → Option R
first [] = none
first (r ∷ rs) = some r

-- `getJobById` and `getUndeliveredJobByRequestId`
unfoldable pub row_of {ℓ} : {R : Type ℓ} → Finder R → ℕ → Result (Option R)
row_of find id = do rows ← find id; ok (first rows)

-- `!job || job.seed !== failedJob.seed`
abbrev pub is_resolved : Failure → Option Job → Bool
is_resolved f none = true
is_resolved f (some job) = not (text_eq job.seed f.seed)

-- The loop of `clearResolvedFailures`.
pub resolved_ids : Finder Job → List Failure → Result (List ℕ)
resolved_ids find [] = ok []
resolved_ids find (f ∷ fs) = do
  job ← row_of find f.id
  ids ← resolved_ids find fs
  ok (if is_resolved f job then f.id ∷ ids else ids)

unfoldable pub clear_resolved_failures : Finder Job → Storage → Result Storage
clear_resolved_failures find s = do
  ids ← resolved_ids find (get_all_failed_jobs s)
  ok (clear_failed_jobs ids s)

abbrev pub is_delivered : Option Undelivered → Bool
is_delivered none = true
is_delivered (some u) = false

-- The loop of `clearResolvedDeliveryFailures`.
pub delivered_ids : Finder Undelivered → List DeliveryFailure → Result (List ℕ)
delivered_ids find [] = ok []
delivered_ids find (f ∷ fs) = do
  row ← row_of find f.request_id
  ids ← delivered_ids find fs
  ok (if is_delivered row then f.request_id ∷ ids else ids)

unfoldable pub clear_resolved_delivery_failures : Finder Undelivered → Storage → Result Storage
clear_resolved_delivery_failures find s = do
  ids ← delivered_ids find (get_all_failed_deliveries s)
  ok (clear_delivery_failures ids s)

-- ===== src/Storage.antt =====
-- lib/storage.js: the failure records that a process keeps between polls.
-- A method that changes `db` returns the new storage. `now` is `Date.now()`, and `sha256` the hex
-- digest of node's crypto module. Writing the file behind `db` is left out.
pub mod Fingerprint
pub mod Backoff
pub mod Pinned
pub mod Cleared
pub mod Workers
pub mod History
pub mod Abstract
use wax_rng_oracle.Prelude.{
  ℕ, ◌+◌, ◌*◌, ◌%◌, ◌^◌, String, Bool, true, false, ◌&&◌, not, Option, none, some, List, [], ◌∷◌,
  map, leb, ltb, ◌==◌, text_eq, if◌then◌else◌, keep,
}
use wax_rng_oracle.Dict.{Dict, lookup, put, remove_all, values}
use wax_rng_oracle.Model.{Job, Part, Undelivered}
use Fingerprint.{parts_fingerprint}

-- A record of `db.failures`.
pub record Failure : Type 0 where
  pub id : ℕ
  pub nonce : Option ℕ
  pub ver : ℕ
  pub seed : String
  pub dapp : String
  pub created_at : ℕ
  pub next_retry : ℕ
  pub parts_fingerprint : Option String

-- A record of `db.delivery_failures`.
pub record DeliveryFailure : Type 0 where
  pub request_id : ℕ
  pub dapp : String
  pub assoc_id : ℕ
  pub error_message : String
  pub created_at : ℕ
  pub next_retry : ℕ

-- `db.process`: the residue of the job ids that this process works on.
pub record Process : Type 0 where
  pub modulus : ℕ
  pub total : ℕ

-- What the file holds. An old file may have no `delivery_failures`.
pub record DbFile : Type 0 where
  pub failures : Dict Failure
  pub delivery_failures : Option (Dict DeliveryFailure)
  pub process : Option Process

-- The storage after `init`, which puts `delivery_failures` in place; the guards against its
-- absence in the methods never fire then.
pub record Storage : Type 0 where
  pub max_retry_duration : ℕ
  pub failures : Dict Failure
  pub delivery_failures : Dict DeliveryFailure
  pub process : Option Process

abbrev present : Option (Dict DeliveryFailure) → Dict DeliveryFailure
present none = []
present (some d) = d

-- An environment variable that is not set gives NaN, here `none`.
abbrev given : Option ℕ → Option ℕ → Option Process → Option Process
given (some modulus) (some total) old = some (record { modulus = modulus; total = total })
given _ _ old = old

-- The constructor and `init`.
unfoldable pub init : ℕ → DbFile → Option ℕ → Option ℕ → Storage
init max_retries file modulus total = record {
  max_retry_duration = 2 ^ max_retries * 500;
  failures = file.failures;
  delivery_failures = present file.delivery_failures;
  process = given modulus total file.process;
}

-- `process && process.modulus && process.total`: a zero counts as unset.
abbrev in_process : Option Process → ℕ → Bool
in_process none id = true
in_process (some p) id =
    if not (p.modulus == 0) && not (p.total == 0) then id % p.total == p.modulus else true

unfoldable pub is_job_of_this_process : Storage → Job → Bool
is_job_of_this_process s job = in_process s.process job.id

-- `_shouldRetry` and `_shouldRetryDelivery`, the same test of the two kinds of record.
unfoldable pub retry_due : ℕ → ℕ → ℕ → ℕ → Bool
retry_due max_retry_duration now created_at next_retry =
    leb (created_at + next_retry) now && ltb next_retry max_retry_duration

-- `failedJob.partsFingerprint && failedJob.partsFingerprint === partsFingerprint(job.parts)`
abbrev pinned_to : Option String → String → Bool
pinned_to none current = false
pinned_to (some fp) current = not (text_eq fp "") && text_eq fp current

abbrev execute_test : ℕ → ℕ → String → Option Failure → Bool
execute_test max_retry_duration now current none = true
execute_test max_retry_duration now current (some f) =
    if pinned_to f.parts_fingerprint current
    then false
    else retry_due max_retry_duration now f.created_at f.next_retry

unfoldable pub should_execute_job : (String → String) → ℕ → Storage → Job → Bool
should_execute_job sha256 now s job =
    execute_test s.max_retry_duration now (parts_fingerprint sha256 job.parts)
      (lookup job.id s.failures)

-- `_newFailure`
abbrev pub new_failure : ℕ → Job → Failure
new_failure now job = record {
  id = job.id;
  nonce = job.nonce;
  ver = job.ver;
  seed = job.seed;
  dapp = job.dapp;
  created_at = now;
  next_retry = 500;
  parts_fingerprint = none;
}

-- The record that a further failure leaves: the old one with its delay doubled, or a new one.
abbrev again : ℕ → Job → Option Failure → Failure
again now job none = new_failure now job
again now job (some f) = record f { next_retry = f.next_retry * 2 }

-- An absent or empty `meta.partsFingerprint` deletes the field.
abbrev pub pin : Option String → Option String
pin none = none
pin (some fp) = if text_eq fp "" then none else some fp

abbrev pub failure_after : ℕ → Job → Option String → Option Failure → Failure
failure_after now job meta old = record (again now job old) { parts_fingerprint = pin meta }

-- Returns the storage and the record, which the poller puts in place of the job.
unfoldable pub job_failed : ℕ → Storage → Job → Option String → Storage × Failure
job_failed now s job meta =
    let f = failure_after now job meta (lookup job.id s.failures) in
    (record s { failures = put job.id f s.failures }, f)

unfoldable pub clear_failed_jobs : List ℕ → Storage → Storage
clear_failed_jobs ids s = record s { failures = remove_all ids s.failures }

unfoldable pub is_timed_out : Storage → Failure → Bool
is_timed_out s f = leb s.max_retry_duration f.next_retry

unfoldable pub get_timed_out_job_ids : Storage → List ℕ
unfolding is_timed_out
get_timed_out_job_ids s = map (λ f. f.id) (keep (is_timed_out s) (values s.failures))

unfoldable pub get_all_failed_jobs : Storage → List Failure
get_all_failed_jobs s = values s.failures

abbrev delivery_test : ℕ → ℕ → Option DeliveryFailure → Bool
delivery_test max_retry_duration now none = true
delivery_test max_retry_duration now (some f) =
    retry_due max_retry_duration now f.created_at f.next_retry

unfoldable pub should_retry_delivery : ℕ → Storage → Undelivered → Bool
should_retry_delivery now s u =
    delivery_test s.max_retry_duration now (lookup u.request_id s.delivery_failures)

-- `_newDeliveryFailure`
abbrev pub new_delivery_failure : ℕ → Undelivered → DeliveryFailure
new_delivery_failure now u = record {
  request_id = u.request_id;
  dapp = u.dapp;
  assoc_id = u.assoc_id;
  error_message = u.error_message;
  created_at = now;
  next_retry = 500;
}

abbrev pub delivery_after : ℕ → Undelivered → Option DeliveryFailure → DeliveryFailure
delivery_after now u none = new_delivery_failure now u
delivery_after now u (some f) = record f { next_retry = f.next_retry * 2 }

unfoldable pub job_deliver_fail : ℕ → Storage → Undelivered → Storage × DeliveryFailure
job_deliver_fail now s u =
    let f = delivery_after now u (lookup u.request_id s.delivery_failures) in
    (record s { delivery_failures = put u.request_id f s.delivery_failures }, f)

unfoldable pub clear_delivery_failures : List ℕ → Storage → Storage
clear_delivery_failures ids s = record s { delivery_failures = remove_all ids s.delivery_failures }

unfoldable pub get_timed_out_delivery_job_ids : Storage → List ℕ
get_timed_out_delivery_job_ids s =
    map (λ f. f.request_id)
      (keep (λ f. leb s.max_retry_duration f.next_retry) (values s.delivery_failures))

unfoldable pub get_all_failed_deliveries : Storage → List DeliveryFailure
get_all_failed_deliveries s = values s.delivery_failures

-- The methods that only the repository's tests call.
unfoldable pub get_failed_job_by_id : ℕ → Storage → Option Failure
get_failed_job_by_id id s = lookup id s.failures

unfoldable pub set_failed_job : Failure → Storage → Storage
set_failed_job f s = record s { failures = put f.id f s.failures }

-- Every key that `for … in` gives is deleted.
unfoldable pub clear_all_failed_jobs : Storage → Storage
clear_all_failed_jobs s = record s { failures = remove_all (map (λ e. e.0) s.failures) s.failures }

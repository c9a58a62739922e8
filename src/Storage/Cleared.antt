-- ===== src/Storage/Cleared.antt =====
-- The records under their keys, and what clearing leaves (lib/storage.js).
use wax_rng_oracle.Prelude.{
  ℕ, String, ◌≡◌, refl, Option, none, some, map, List, [], ◌∷◌, leb, if◌then◌else◌,
}
use wax_rng_oracle.Dict.{lookup, lookup-remove_all}
use wax_rng_oracle.Dict.Table.{
  IsTable, put-IsTable, remove_all-IsTable, any-keep-values, key-lookup, test,
}
use wax_rng_oracle.Model.{Job, Undelivered}
use wax_rng_oracle.Storage.{
  Storage, Failure, DeliveryFailure, set_failed_job, clear_all_failed_jobs, job_failed,
  clear_failed_jobs, job_deliver_fail, clear_delivery_failures, failure_after, delivery_after,
  get_timed_out_job_ids, is_timed_out,
}

-- Every record stands under its own id, and the ids ascend.
pub record IsValid (s : Storage) : Type 0 where
  pub failures : IsTable (λ (f : Failure). f.id) s.failures
  pub deliveries : IsTable (λ (f : DeliveryFailure). f.request_id) s.delivery_failures

-- The methods that change the storage.
pub data Call : Type 0 where
  job_failed_call : ℕ → Job → Option String → Call
  clear_failed_call : List ℕ → Call
  deliver_fail_call : ℕ → Undelivered → Call
  clear_deliveries_call : List ℕ → Call
  set_failed_call : Failure → Call
  clear_all_call : Call

unfoldable pub perform : Call → Storage → Storage
perform (job_failed_call now job meta) s = (job_failed now s job meta).0
perform (clear_failed_call ids) s = clear_failed_jobs ids s
perform (deliver_fail_call now u) s = (job_deliver_fail now s u).0
perform (clear_deliveries_call ids) s = clear_delivery_failures ids s
perform (set_failed_call f) s = set_failed_job f s
perform clear_all_call s = clear_all_failed_jobs s

id-failure_after :
    (now : ℕ) (job : Job) (meta : Option String) (old : Option Failure)
    → ((f : Failure) → old ≡ some f → f.id ≡ job.id)
    → (failure_after now job meta old).id ≡ job.id
id-failure_after now job meta none h = refl
id-failure_after now job meta (some f) h = h f refl

request_id-delivery_after :
    (now : ℕ) (u : Undelivered) (old : Option DeliveryFailure)
    → ((f : DeliveryFailure) → old ≡ some f → f.request_id ≡ u.request_id)
    → (delivery_after now u old).request_id ≡ u.request_id
request_id-delivery_after now u none h = refl
request_id-delivery_after now u (some f) h = h f refl

pub perform-IsValid : (c : Call) (s : Storage) → IsValid s → IsValid (perform c s)
unfolding perform job_failed clear_failed_jobs job_deliver_fail clear_delivery_failures
    set_failed_job clear_all_failed_jobs
perform-IsValid (job_failed_call now job meta) s v = record {
  failures =
      put-IsTable _ job.id _ s.failures
        (id-failure_after now job meta (lookup job.id s.failures)
          (λ f e. key-lookup (λ (x : Failure). x.id) job.id s.failures v.failures e))
        v.failures;
  deliveries = v.deliveries;
}
perform-IsValid (clear_failed_call ids) s v = record {
  failures = remove_all-IsTable _ ids s.failures v.failures;
  deliveries = v.deliveries;
}
perform-IsValid (deliver_fail_call now u) s v = record {
  failures = v.failures;
  deliveries =
      put-IsTable _ u.request_id _ s.delivery_failures
        (request_id-delivery_after now u (lookup u.request_id s.delivery_failures) (λ f e.
          key-lookup (λ (x : DeliveryFailure). x.request_id) u.request_id s.delivery_failures
            v.deliveries e))
        v.deliveries;
}
perform-IsValid (clear_deliveries_call ids) s v = record {
  failures = v.failures;
  deliveries = remove_all-IsTable _ ids s.delivery_failures v.deliveries;
}
perform-IsValid (set_failed_call f) s v = record {
  failures = put-IsTable _ f.id f s.failures refl v.failures;
  deliveries = v.deliveries;
}
perform-IsValid clear_all_call s v = record {
  failures = remove_all-IsTable _ (map (λ e. e.0) s.failures) s.failures v.failures;
  deliveries = v.deliveries;
}

pub job_deliver_fail-IsValid :
    (now : ℕ) (s : Storage) (u : Undelivered) → IsValid s → IsValid (job_deliver_fail now s u).0
unfolding perform
job_deliver_fail-IsValid now s u v = perform-IsValid (deliver_fail_call now u) s v

-- `jobFailed` keeps the storage valid, and the record that it returns has the job's id.
pub job_failed-IsValid :
    (now : ℕ) (s : Storage) (job : Job) (meta : Option String)
    → IsValid s
    → IsValid (job_failed now s job meta).0 × ((job_failed now s job meta).1.id ≡ job.id)
unfolding perform job_failed
job_failed-IsValid now s job meta v = (
  perform-IsValid (job_failed_call now job meta) s v,
  id-failure_after now job meta (lookup job.id s.failures)
      (λ f e. key-lookup (λ (x : Failure). x.id) job.id s.failures v.failures e),
)

unfoldable pub perform_all : List Call → Storage → Storage
perform_all [] s = s
perform_all (c ∷ cs) s = perform_all cs (perform c s)

-- From a valid storage, after any sequence of the methods that change it every record stands under
-- its own id, and the ids ascend.
pub perform_all-IsValid : (cs : List Call) (s : Storage) → IsValid s → IsValid (perform_all cs s)
unfolding perform_all
perform_all-IsValid [] s v = v
perform_all-IsValid (c ∷ cs) s v = perform_all-IsValid cs (perform c s) (perform-IsValid c s v)

abbrev pub unless_timed_out : Storage → Option Failure → Option Failure
unless_timed_out s none = none
unless_timed_out s (some f) = if leb s.max_retry_duration f.next_retry then none else some f

drop_found :
    (s : Storage) (o : Option Failure)
    → (if test (is_timed_out s) o then none else o) ≡ unless_timed_out s o
unfolding is_timed_out
drop_found s none = refl
drop_found s (some f) = refl

-- In a valid storage, clearing the timed-out ids removes exactly the records whose delay has
-- reached the maximum, and keeps every other record.
pub clear_failed_jobs-timed_out :
    (s : Storage) (id : ℕ)
    → IsValid s
    → lookup id (clear_failed_jobs (get_timed_out_job_ids s) s).failures
      ≡ unless_timed_out s (lookup id s.failures)
unfolding clear_failed_jobs get_timed_out_job_ids
clear_failed_jobs-timed_out s id v =
    rw
      (
        lookup-remove_all,
        any-keep-values (λ (f : Failure). f.id) (is_timed_out s) id s.failures v.failures,
      )
      (drop_found s (lookup id s.failures))

-- ===== src/Interleaved/Calls.antt =====
-- Which method of lib/storage.js each step of the interleaved polls performs, and with what.
pub mod Steps
use wax_rng_oracle.Prelude.{
  ℕ, ◌≡◌, refl, Bool, true, false, not, Option, none, some, List, [], ◌∷◌, ◌++◌, includes,
  if◌then◌else◌, Bool-cases, inl, inr, arith,
}
use wax_rng_oracle.Dict.{lookup}
use wax_rng_oracle.Model.{Job, Undelivered}
use wax_rng_oracle.RngPusher.{
  no_error, no_detail, detail, Thrown, rpc, type_error, other, Pushed, sent, refused, silent, threw,
  refuse, setrand_refusals, markfailed_refusals, retrydeliver_refusals, cleanup_refusals,
}
use wax_rng_oracle.Storage.{
  Storage, Failure, DeliveryFailure, get_all_failed_jobs, get_all_failed_deliveries, job_failed,
  job_deliver_fail,
}
use wax_rng_oracle.Storage.Cleared.{
  Call, job_failed_call, clear_failed_call, deliver_fail_call, clear_deliveries_call, perform,
}
use wax_rng_oracle.Poller.{State, Member, Outside, count, retry_deliver_success}
use wax_rng_oracle.Poller.Deliver.{after_cleanup, catch_cleanup}
use wax_rng_oracle.Interleaved.Results.{
  Trouble, ResultPc, ResultMove, meta_of, recalled, loaded, not_loaded, answers, reads, writes,
  is_marked, mark_is_posted, is_posted,
}
use wax_rng_oracle.Interleaved.Results.Kept.{Fits, ResultOk}
use wax_rng_oracle.Interleaved.Added.{
  next_result-Still, after_send-Still, written-Still, after_marking-Still,
}
use wax_rng_oracle.Interleaved.Deliveries.{
  DeliveryPc, next_delivery, catch_delivery, after_retry, DeliveryMove, CleanupPc, CleanupMove,
}
use wax_rng_oracle.Interleaved.Clearing.{
  ClearPc, next_read, judged, ClearMove, DeliveredPc, next_row, with_row, DeliveredMove,
}

-- The storage after the call, if there is one.
abbrev pub after_call : Option Call → Storage → Storage
after_call none d = d
after_call (some c) d = perform c d

-- `jobFailed` works on the record that it read: if that was dropped while the poll waited, the call has no
-- effect.
abbrev pub recorded : (found current : Option Failure) → Call → Option Call
recorded (some f) none c = none
recorded _ _ c = some c

-- `pollJobsToExecute` calls `jobFailed` for the job that failed, when it has read its record.
abbrev pub result_call :
    {m : Member} {o : Outside} {listed : List Job} {s : State} {p : ResultPc} {r : ResultPc × State}
    → ResultMove m o listed s p r
    → Option Call
result_call {o} {s} (reads {t} {job} {jobs} {found} now) =
    recorded found (lookup job.id s.db.failures) (job_failed_call now job (meta_of o job t))
result_call _ = none

-- Which errors of `retrydeliver` count as a failed delivery.
abbrev pub delivery_fails : Thrown → Bool
delivery_fails (rpc no_error) = false
delivery_fails (rpc (detail text)) = not (includes text "No undelivered result found")
delivery_fails _ = true

abbrev pub lost_delivery : ℕ → Undelivered → Pushed → Option Call
lost_delivery now u (threw e) = if delivery_fails e then some (deliver_fail_call now u) else none
lost_delivery now u _ = none

-- `pollJobToRetryDeliver` calls `jobDeliverFail` for the row whose delivery failed.
abbrev pub delivery_call :
    {m : Member} {s : State} {p : DeliveryPc} {r : DeliveryPc × State}
    → DeliveryMove m s p r
    → Option Call
delivery_call (DeliveryMove.answers {u} now a) =
    lost_delivery now u (refuse retrydeliver_refusals a)
delivery_call _ = none

abbrev pub end_of_reads : List Failure → List ℕ → Option Call
end_of_reads [] ids = some (clear_failed_call ids)
end_of_reads (f ∷ fs) ids = none

-- `clearResolvedFailures` calls `clearFailedJobs` once it has read the rows of all the records.
abbrev pub clear_call :
    {s : State} {p : ClearPc} {r : ClearPc × State} → ClearMove s p r → Option Call
clear_call {s} ClearMove.starts = end_of_reads (get_all_failed_jobs s.db) []
clear_call (ClearMove.has_read {f} {fs} {ids} row) = end_of_reads fs (judged f row ids)
clear_call _ = none

abbrev pub end_of_rows : List DeliveryFailure → List ℕ → Option Call
end_of_rows [] ids = some (clear_deliveries_call ids)
end_of_rows (f ∷ fs) ids = none

-- So `clearResolvedDeliveryFailures` calls `clearDeliveryFailures`.
abbrev pub delivered_call :
    {s : State} {p : DeliveredPc} {r : DeliveredPc × State} → DeliveredMove s p r → Option Call
delivered_call {s} DeliveredMove.starts = end_of_rows (get_all_failed_deliveries s.db) []
delivered_call (DeliveredMove.has_read {f} {fs} {ids} row) = end_of_rows fs (with_row f row ids)
delivered_call _ = none

recalled-call :
    (m : Member) (o : Outside) (listed : List Job) (now : ℕ) (t : Trouble) (job : Job)
    (jobs : List Job) (found : Option Failure) (s : State)
    → Fits m o listed s.db job found
    → (recalled o now t job jobs found s).1.db
      ≡ after_call
          (recorded found (lookup job.id s.db.failures) (job_failed_call now job (meta_of o job t)))
          s.db
unfolding perform job_failed
recalled-call m o listed now t job jobs none s fits = rw fits refl
recalled-call m o listed now t job jobs (some f) s fits = split (lookup job.id s.db.failures) refl
  where
    split :
        (current : Option Failure)
        → lookup job.id s.db.failures ≡ current
        → (recalled o now t job jobs (some f) s).1.db
          ≡ after_call (recorded (some f) current (job_failed_call now job (meta_of o job t))) s.db
    split none e = rw e refl
    split (some g) e = rw e refl

-- What a step of `pollJobsToExecute` does to the storage.
pub ResultMove-call :
    {m : Member} {o : Outside} {listed : List Job} {s : State} {p : ResultPc} {r : ResultPc × State}
    (mv : ResultMove m o listed s p r)
    → ResultOk m o listed s.db p
    → r.1.db ≡ after_call (result_call mv) s.db
ResultMove-call {m} {o} {listed} {s} (loaded jobs h) ok = next_result-Still m o listed jobs s
ResultMove-call (not_loaded e) ok = refl
ResultMove-call {m} {o} {listed} {s} (answers {signature} {job} {jobs} a) ok =
    after_send-Still m o listed signature job jobs (refuse setrand_refusals a) s
ResultMove-call {m} {o} {listed} {s} (reads {t} {job} {jobs} {found} now) ok =
    recalled-call m o listed now t job jobs found s ok.3
ResultMove-call {m} {o} {listed} {s} (writes {t} {job} {jobs} now) ok =
    written-Still m o listed now t jobs (lookup job.id s.db.failures) s
ResultMove-call {m} {o} {listed} {s} (is_marked {jobs} a) ok =
    after_marking-Still m o listed jobs (refuse markfailed_refusals a) s
ResultMove-call mark_is_posted ok = refl
ResultMove-call {m} {o} {listed} {s} (is_posted {jobs}) ok = next_result-Still m o listed jobs s

db-next_delivery :
    (m : Member) (us : List Undelivered) (s : State) → (next_delivery m us s).1.db ≡ s.db
db-next_delivery m [] s = refl
db-next_delivery m (u ∷ us) s = refl

catch_delivery-call :
    (m : Member) (now : ℕ) (u : Undelivered) (us : List Undelivered) (e : Thrown) (s : State)
    → (catch_delivery m now u us e s).1.db ≡ after_call (lost_delivery now u (threw e)) s.db
unfolding catch_delivery perform
catch_delivery-call m now u us (rpc no_error) s = refl
catch_delivery-call m now u us (rpc no_detail) s = refl
catch_delivery-call m now u us (rpc (detail text)) s =
    elim (Bool-cases (includes text "No undelivered result found")) [
      | inl gone ↦ rw gone (db-next_delivery m us s)
      | inr there ↦ rw there refl
    ]
catch_delivery-call m now u us type_error s = refl
catch_delivery-call m now u us (other e) s = refl

pub DeliveryMove-call :
    {m : Member} {s : State} {p : DeliveryPc} {r : DeliveryPc × State} (mv : DeliveryMove m s p r)
    → r.1.db ≡ after_call (delivery_call mv) s.db
DeliveryMove-call {m} {s} (DeliveryMove.loaded us) = db-next_delivery m us s
DeliveryMove-call (DeliveryMove.not_loaded e) = refl
DeliveryMove-call {m} {s} (DeliveryMove.answers {u} {us} now a) =
    answered (refuse retrydeliver_refusals a)
  where
    answered :
        (p : Pushed) → (after_retry m now u us p s).1.db ≡ after_call (lost_delivery now u p) s.db
    answered (threw e) = catch_delivery-call m now u us e s
    answered (sent id) = db-next_delivery m us (count retry_deliver_success s)
    answered refused = db-next_delivery m us (count retry_deliver_success s)
    answered silent = db-next_delivery m us (count retry_deliver_success s)
DeliveryMove-call DeliveryMove.writes = refl
DeliveryMove-call {m} {s} (DeliveryMove.is_posted {us}) = db-next_delivery m us s

db-caught : (e : Thrown) (s : State) → (catch_cleanup e s).0.db ≡ s.db
unfolding catch_cleanup
db-caught e s = ground arith

pub CleanupMove-call :
    {m : Member} {s : State} {p : CleanupPc} {r : CleanupPc × State}
    → CleanupMove m s p r
    → r.1.db ≡ s.db
CleanupMove-call CleanupMove.starts = refl
CleanupMove-call {s} (CleanupMove.answers a) = answered (refuse cleanup_refusals a)
  where
    answered : (p : Pushed) → (after_cleanup p s).0.db ≡ s.db
    answered (threw e) = db-caught e s
    answered (sent id) = refl
    answered refused = refl
    answered silent = refl

next_read-call :
    (fs : List Failure) (ids : List ℕ) (s : State)
    → (next_read fs ids s).1.db ≡ after_call (end_of_reads fs ids) s.db
unfolding perform
next_read-call [] ids s = refl
next_read-call (f ∷ fs) ids s = refl

pub ClearMove-call :
    {s : State} {p : ClearPc} {r : ClearPc × State} (mv : ClearMove s p r)
    → r.1.db ≡ after_call (clear_call mv) s.db
ClearMove-call {s} ClearMove.starts = next_read-call (get_all_failed_jobs s.db) [] s
ClearMove-call {s} (ClearMove.has_read {f} {fs} {ids} row) = next_read-call fs (judged f row ids) s
ClearMove-call (ClearMove.not_read e) = refl
ClearMove-call ClearMove.writes = refl

next_row-call :
    (fs : List DeliveryFailure) (ids : List ℕ) (s : State)
    → (next_row fs ids s).1.db ≡ after_call (end_of_rows fs ids) s.db
unfolding perform
next_row-call [] ids s = refl
next_row-call (f ∷ fs) ids s = refl

pub DeliveredMove-call :
    {s : State} {p : DeliveredPc} {r : DeliveredPc × State} (mv : DeliveredMove s p r)
    → r.1.db ≡ after_call (delivered_call mv) s.db
DeliveredMove-call {s} DeliveredMove.starts = next_row-call (get_all_failed_deliveries s.db) [] s
DeliveredMove-call {s} (DeliveredMove.has_read {f} {fs} {ids} row) =
    next_row-call fs (with_row f row ids) s
DeliveredMove-call (DeliveredMove.not_read e) = refl
DeliveredMove-call DeliveredMove.writes = refl

-- ===== src/Interleaved/Calls/Steps.antt =====
-- The calls of the methods of lib/storage.js that steps of the interleaved polls make.
use wax_rng_oracle.Prelude.{
  ℕ, Bool-cases, inl, inr, ◌≡◌, sym, ap, ◌∙◌, Option, none, some, List, [], ◌∷◌, ◌++◌, arith,
}
use wax_rng_oracle.Dict.{lookup}
use wax_rng_oracle.Model.{Job}
use wax_rng_oracle.Storage.{
  Storage, Failure, DeliveryFailure, get_all_failed_jobs, get_all_failed_deliveries,
}
use wax_rng_oracle.Storage.Cleared.{Call, job_failed_call, perform_all}
use wax_rng_oracle.Poller.{State, Member, Outside}
use wax_rng_oracle.RngPusher.{Pushed, sent, refused, silent, threw, refuse, retrydeliver_refusals}
use wax_rng_oracle.Interleaved.Effect.{perform_all-append}
use wax_rng_oracle.Interleaved.Parts.Kept.{PartOk, PartMove-PartKept}
use wax_rng_oracle.Interleaved.Results.{ResultPc, ResultMove, reads, meta_of}
use wax_rng_oracle.Interleaved.Results.Kept.{ResultOk}
use wax_rng_oracle.Interleaved.Deliveries.{DeliveryPc, DeliveryMove}
use wax_rng_oracle.Interleaved.Clearing.{
  ClearPc, ClearMove, judged, DeliveredPc, with_row, DeliveredMove,
}
use wax_rng_oracle.Interleaved.System.{
  System, Step, part, result, delivery, cleans, clears, clears_delivered, monitors, Runs, done,
  later,
}
use wax_rng_oracle.Interleaved.Versions.{CallOk}
use wax_rng_oracle.Interleaved.Calls.{
  after_call, recorded, delivery_fails, lost_delivery, end_of_reads, end_of_rows, result_call,
  delivery_call, clear_call, delivered_call, ResultMove-call, DeliveryMove-call, CleanupMove-call,
  ClearMove-call, DeliveredMove-call,
}

-- The call that a step makes, if it makes one.
abbrev pub call_of :
    {m : Member} {o : Outside} {listed : List Job} {t u : System}
    → Step m o listed t u
    → Option Call
call_of (part mv) = none
call_of (result mv) = result_call mv
call_of (delivery mv) = delivery_call mv
call_of (cleans mv) = none
call_of (clears mv) = clear_call mv
call_of (clears_delivered mv) = delivered_call mv
call_of (monitors max_job_pending pending) = none

abbrev listed_call : Option Call → List Call
listed_call none = []
listed_call (some c) = c ∷ []

-- The calls of the steps of a run, in their order.
unfoldable pub calls_of :
    {m : Member} {o : Outside} {listed : List Job} {t u : System} → Runs m o listed t u → List Call
calls_of done = []
calls_of (later r st) = calls_of r ++ listed_call (call_of st)

-- A step changes the storage as its call does.
pub Step-call :
    (m : Member) (o : Outside) (listed : List Job) (t u : System) (st : Step m o listed t u)
    → PartOk m o listed t.parts
    → ResultOk m o listed t.shared.db t.results
    → u.shared.db ≡ after_call (call_of st) t.shared.db
Step-call m o listed t u (part mv) parts results = (PartMove-PartKept m o listed mv parts).1
Step-call m o listed t u (result mv) parts results = ResultMove-call mv results
Step-call m o listed t u (delivery mv) parts results = DeliveryMove-call mv
Step-call m o listed t u (cleans mv) parts results = CleanupMove-call mv
Step-call m o listed t u (clears mv) parts results = ClearMove-call mv
Step-call m o listed t u (clears_delivered mv) parts results = DeliveredMove-call mv
Step-call m o listed t u (monitors max_job_pending pending) parts results = ground arith

pub perform_all-later :
    (cs : List Call) (c : Option Call) (d e f : Storage)
    → e ≡ perform_all cs d
    → f ≡ after_call c e
    → f ≡ perform_all (cs ++ listed_call c) d
unfolding perform_all
perform_all-later cs none d e f p q = q ∙ p ∙ sym (perform_all-append cs [] d)
perform_all-later cs (some c) d e f p q =
    q ∙ ap (λ x. after_call (some c) x) p ∙ sym (perform_all-append cs (c ∷ []) d)

-- Every failure that a step records is one of a listed job that the member acts on.
module _ (m : Member) (o : Outside) (listed : List Job) (origin : Storage) where
  abbrev Ok : Option Call → Type 0
  Ok = CallOk m listed origin

  result_call-Ok :
      {s : State} {p : ResultPc} {r : ResultPc × State} (mv : ResultMove m o listed s p r)
      → ResultOk m o listed s.db p
      → Ok (result_call mv)
  result_call-Ok {s} (reads {t} {job} {jobs} {found} now) ok =
      split found (lookup job.id s.db.failures)
    where
      split :
          (found current : Option Failure)
          → Ok (recorded found current (job_failed_call now job (meta_of o job t)))
      split none current = ok.0
      split (some f) none = tt
      split (some f) (some g) = ok.0
  result_call-Ok (ResultMove.loaded jobs h) ok = tt
  result_call-Ok (ResultMove.not_loaded e) ok = tt
  result_call-Ok (ResultMove.answers a) ok = tt
  result_call-Ok (ResultMove.writes now) ok = tt
  result_call-Ok (ResultMove.is_marked a) ok = tt
  result_call-Ok ResultMove.mark_is_posted ok = tt
  result_call-Ok ResultMove.is_posted ok = tt

  delivery_call-Ok :
      {s : State} {p : DeliveryPc} {r : DeliveryPc × State} (mv : DeliveryMove m s p r)
      → Ok (delivery_call mv)
  delivery_call-Ok (DeliveryMove.answers {u} now a) = split (refuse retrydeliver_refusals a)
    where
      split : (p : Pushed) → Ok (lost_delivery now u p)
      split (threw e) = elim (Bool-cases (delivery_fails e)) [
        | inl fails ↦ rw fails tt
        | inr passes ↦ rw passes tt
      ]
      split (sent id) = tt
      split refused = tt
      split silent = tt
  delivery_call-Ok (DeliveryMove.loaded us) = tt
  delivery_call-Ok (DeliveryMove.not_loaded e) = tt
  delivery_call-Ok DeliveryMove.writes = tt
  delivery_call-Ok DeliveryMove.is_posted = tt

  end_of_reads-Ok : (fs : List Failure) (ids : List ℕ) → Ok (end_of_reads fs ids)
  end_of_reads-Ok [] ids = tt
  end_of_reads-Ok (f ∷ fs) ids = tt

  clear_call-Ok :
      {s : State} {p : ClearPc} {r : ClearPc × State} (mv : ClearMove s p r) → Ok (clear_call mv)
  clear_call-Ok {s} ClearMove.starts = end_of_reads-Ok (get_all_failed_jobs s.db) []
  clear_call-Ok (ClearMove.has_read {f} {fs} {ids} row) = end_of_reads-Ok fs (judged f row ids)
  clear_call-Ok (ClearMove.not_read e) = tt
  clear_call-Ok ClearMove.writes = tt

  end_of_rows-Ok : (fs : List DeliveryFailure) (ids : List ℕ) → Ok (end_of_rows fs ids)
  end_of_rows-Ok [] ids = tt
  end_of_rows-Ok (f ∷ fs) ids = tt

  delivered_call-Ok :
      {s : State} {p : DeliveredPc} {r : DeliveredPc × State} (mv : DeliveredMove s p r)
      → Ok (delivered_call mv)
  delivered_call-Ok {s} DeliveredMove.starts = end_of_rows-Ok (get_all_failed_deliveries s.db) []
  delivered_call-Ok (DeliveredMove.has_read {f} {fs} {ids} row) =
      end_of_rows-Ok fs (with_row f row ids)
  delivered_call-Ok (DeliveredMove.not_read e) = tt
  delivered_call-Ok DeliveredMove.writes = tt

  pub call_of-Ok :
      {t u : System} (st : Step m o listed t u)
      → ResultOk m o listed t.shared.db t.results
      → CallOk m listed origin (call_of st)
  call_of-Ok (part mv) ok = tt
  call_of-Ok (result mv) ok = result_call-Ok mv ok
  call_of-Ok (delivery mv) ok = delivery_call-Ok mv
  call_of-Ok (cleans mv) ok = tt
  call_of-Ok (clears mv) ok = clear_call-Ok mv
  call_of-Ok (clears_delivered mv) ok = delivered_call-Ok mv
  call_of-Ok (monitors max_job_pending pending) ok = tt

-- ===== src/Interleaved/Undisturbed.antt =====
-- When a round of `pollJobsToExecute` ends with an error.
use wax_rng_oracle.Prelude.{
  ◌≡◌, ◌≢◌, refl, ap, sym, subst, none, some, List, [], ◌∷◌, arith, Bool-cases, inl, inr, leb,
  includes,
}
use wax_rng_oracle.Dict.{Dict}
use wax_rng_oracle.Model.{Job, Undelivered}
use wax_rng_oracle.RngPusher.{
  no_error, no_detail, detail, Thrown, rpc, type_error, other, Pushed, sent, refused, silent, threw,
  refuse, retrydeliver_refusals, cleanup_refusals,
}
use wax_rng_oracle.Storage.{
  Storage, Failure, DeliveryFailure, job_deliver_fail, clear_delivery_failures,
}
use wax_rng_oracle.Poller.{State, Member, Outside}
use wax_rng_oracle.Poller.Deliver.{catch_cleanup, after_cleanup}
use wax_rng_oracle.Interleaved.Parts.Kept.{PartOk, PartMove-PartKept}
use wax_rng_oracle.Interleaved.Deliveries.{
  DeliveryPc, next_delivery, catch_delivery, after_retry, DeliveryMove, CleanupPc, CleanupMove,
}
use wax_rng_oracle.Interleaved.Clearing.{DeliveredPc, next_row, with_row, DeliveredMove}
use wax_rng_oracle.Interleaved.Results.{
  ResultPc, resting, sending, recalling, writing, marking, mark_posting, posting,
}
use wax_rng_oracle.Interleaved.Unbroken.{Unbroken, Loads, ResultMove-Unbroken}
use wax_rng_oracle.Interleaved.System.{
  System, part, result, delivery, cleans, clears, clears_delivered, monitors, Runs, done, later,
  Reach,
}

-- The deliveries change no failure record of a job.
abbrev pub Same : State → State → Type 0
Same s t = t.db.failures ≡ s.db.failures

module _ (m : Member) where
  next_delivery-Same : (us : List Undelivered) (s : State) → Same s (next_delivery m us s).1
  next_delivery-Same [] s = refl
  next_delivery-Same (u ∷ us) s = refl

  catch_delivery-Same :
      (now : _) (u : Undelivered) (us : List Undelivered) (e : Thrown) (s : State)
      → Same s (catch_delivery m now u us e s).1
  unfolding catch_delivery job_deliver_fail
  catch_delivery-Same now u us (rpc no_error) s = refl
  catch_delivery-Same now u us (rpc no_detail) s = refl
  catch_delivery-Same now u us (rpc (detail text)) s =
      elim (Bool-cases (includes text "No undelivered result found")) [
        | inl gone ↦ rw gone (next_delivery-Same us s)
        | inr there ↦ rw there refl
      ]
  catch_delivery-Same now u us type_error s = refl
  catch_delivery-Same now u us (other e) s = refl

  after_retry-Same :
      (now : _) (u : Undelivered) (us : List Undelivered) (p : Pushed) (s : State)
      → Same s (after_retry m now u us p s).1
  after_retry-Same now u us (threw e) s = catch_delivery-Same now u us e s
  after_retry-Same now u us (sent id) s = next_delivery-Same us _
  after_retry-Same now u us refused s = next_delivery-Same us _
  after_retry-Same now u us silent s = next_delivery-Same us _

  pub DeliveryMove-Same :
      {s : State} {p : DeliveryPc} {r : DeliveryPc × State} → DeliveryMove m s p r → Same s r.1
  DeliveryMove-Same {s} (DeliveryMove.loaded us) = next_delivery-Same us s
  DeliveryMove-Same (DeliveryMove.not_loaded e) = refl
  DeliveryMove-Same {s} (DeliveryMove.answers {u} {us} now a) =
      after_retry-Same now u us (refuse retrydeliver_refusals a) s
  DeliveryMove-Same DeliveryMove.writes = refl
  DeliveryMove-Same {s} (DeliveryMove.is_posted {us}) = next_delivery-Same us s

catch_cleanup-Same : (e : Thrown) (s : State) → Same s (catch_cleanup e s).0
unfolding catch_cleanup
catch_cleanup-Same e s = ground arith

after_cleanup-Same : (p : Pushed) (s : State) → Same s (after_cleanup p s).0
after_cleanup-Same (threw e) s = catch_cleanup-Same e s
after_cleanup-Same (sent id) s = refl
after_cleanup-Same refused s = refl
after_cleanup-Same silent s = refl

pub CleanupMove-Same :
    {m : Member} {s : State} {p : CleanupPc} {r : CleanupPc × State}
    → CleanupMove m s p r
    → Same s r.1
CleanupMove-Same CleanupMove.starts = refl
CleanupMove-Same {s} (CleanupMove.answers a) = after_cleanup-Same (refuse cleanup_refusals a) s

next_row-Same :
    (fs : List DeliveryFailure) (ids : List _) (s : State) → Same s (next_row fs ids s).1
unfolding clear_delivery_failures
next_row-Same [] ids s = refl
next_row-Same (f ∷ fs) ids s = refl

pub DeliveredMove-Same :
    {s : State} {p : DeliveredPc} {r : DeliveredPc × State} → DeliveredMove s p r → Same s r.1
DeliveredMove-Same {s} DeliveredMove.starts = next_row-Same _ [] s
DeliveredMove-Same {s} (DeliveredMove.has_read {f} {fs} {ids} row) =
    next_row-Same fs (with_row f row ids) s
DeliveredMove-Same (DeliveredMove.not_read e) = refl
DeliveredMove-Same DeliveredMove.writes = refl

-- `jobFailed` does not wait for its read or its write.
abbrev pub NotRecording : ResultPc → Type 0
NotRecording (recalling t job jobs found) = ⊥
NotRecording (writing t job jobs) = ⊥
NotRecording _ = Unit

-- Where `jobFailed` does not wait, nothing is asked of the storage.
anywhere : (d d' : Dict Failure) (p : ResultPc) → NotRecording p → Unbroken d p → Unbroken d' p
anywhere d d' (resting none) h ok = tt
anywhere d d' (resting (some e)) h ok = ok
anywhere d d' (sending signature job jobs) h ok = tt
anywhere d d' (recalling t job jobs found) h ok = absurd h
anywhere d d' (writing t job jobs) h ok = absurd h
anywhere d d' (marking jobs) h ok = tt
anywhere d d' (mark_posting jobs) h ok = tt
anywhere d d' (posting jobs) h ok = tt

with_same : (d d' : Dict Failure) (p : ResultPc) → d' ≡ d → Unbroken d p → Unbroken d' p
with_same d d' p e ok = subst (λ x. Unbroken x p) (sym e) ok

module _ (m : Member) (o : Outside) (listed : List Job) where
  -- No step of `clearResolvedFailures` comes while `jobFailed` waits, and every load of jobs to
  -- execute returns.
  unfoldable pub Undisturbed : {t u : System} → Runs m o listed t u → Type 0
  Undisturbed done = Unit
  Undisturbed (later {u} r (clears mv)) = NotRecording u.results × Undisturbed r
  Undisturbed (later r (result mv)) = Loads m o mv × Undisturbed r
  Undisturbed (later r (part mv)) = Undisturbed r
  Undisturbed (later r (delivery mv)) = Undisturbed r
  Undisturbed (later r (cleans mv)) = Undisturbed r
  Undisturbed (later r (clears_delivered mv)) = Undisturbed r
  Undisturbed (later r (monitors max_job_pending pending)) = Undisturbed r

  abbrev Whole : System → Type 0
  Whole t = PartOk m o listed t.parts × Unbroken t.shared.db.failures t.results

  Runs-Whole : {t u : System} (r : Runs m o listed t u) → Undisturbed r → Whole t → Whole u
  unfolding Undisturbed
  Runs-Whole done h ok = ok
  Runs-Whole (later {u} r (clears mv)) h ok =
      let (parts, whole) = Runs-Whole r h.1 ok in
      (parts, anywhere u.shared.db.failures _ u.results h.0 whole)
  Runs-Whole (later r (result mv)) h ok =
      let (parts, whole) = Runs-Whole r h.1 ok in (parts, ResultMove-Unbroken m o mv h.0 whole)
  Runs-Whole (later {u} r (part mv)) h ok =
      let (parts, whole) = Runs-Whole r h ok in
      let (p, same, next) = PartMove-PartKept m o listed mv parts in
      (
        next,
        with_same u.shared.db.failures _ u.results (ap (λ (d : Storage). d.failures) same) whole,
      )
  Runs-Whole (later {u} r (delivery mv)) h ok =
      let (parts, whole) = Runs-Whole r h ok in
      (parts, with_same u.shared.db.failures _ u.results (DeliveryMove-Same m mv) whole)
  Runs-Whole (later {u} r (cleans mv)) h ok =
      let (parts, whole) = Runs-Whole r h ok in
      (parts, with_same u.shared.db.failures _ u.results (CleanupMove-Same mv) whole)
  Runs-Whole (later {u} r (clears_delivered mv)) h ok =
      let (parts, whole) = Runs-Whole r h ok in
      (parts, with_same u.shared.db.failures _ u.results (DeliveredMove-Same mv) whole)
  Runs-Whole (later r (monitors max_job_pending pending)) h ok =
      elim (Bool-cases (leb max_job_pending pending)) [
        | inl many ↦ rw many (Runs-Whole r h ok)
        | inr few ↦ rw few (Runs-Whole r h ok)
      ]

  -- Whatever the chain answers and however the polls interleave, if no step of `clearResolvedFailures`
  -- comes while `jobFailed` waits for its read or its write, and every load of jobs to execute returns,
  -- no round of `pollJobsToExecute` ends with an error.
  pub Undisturbed-returns :
      (s : State) (t : System) (e : Thrown) (r : Reach m o listed s t)
      → Undisturbed r
      → t.results ≢ resting (some e)
  Undisturbed-returns s t e r h at_end =
      subst (Unbroken t.shared.db.failures) at_end (Runs-Whole r h (tt, tt)).1

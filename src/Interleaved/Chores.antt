-- ===== src/Interleaved/Chores.antt =====
-- What the polls that clear and deliver keep (lib/poller.js, lib/jobService.js).
use wax_rng_oracle.Prelude.{
  ℕ, ◌≡◌, ◌⊎◌, inl, inr, refl, none, List, [], ◌∷◌, arith, Bool-cases, includes,
}
use wax_rng_oracle.Dict.{lookup, lookup-remove_all}
use wax_rng_oracle.Model.{Undelivered}
use wax_rng_oracle.Contract.{Action, retrydeliver, cleanup}
use wax_rng_oracle.RngPusher.{
  no_error, no_detail, detail, Thrown, rpc, type_error, other, Pushed, sent, refused, silent, threw,
  refuse, retrydeliver_refusals, cleanup_refusals,
}
use wax_rng_oracle.Storage.{
  Storage, Failure, DeliveryFailure, clear_failed_jobs, clear_delivery_failures, job_deliver_fail,
  get_all_failed_jobs, get_all_failed_deliveries,
}
use wax_rng_oracle.Storage.Cleared.{
  perform, clear_failed_call, clear_deliveries_call, deliver_fail_call,
}
use wax_rng_oracle.Poller.{State, Member, count, retry_deliver_success}
use wax_rng_oracle.Poller.Pushing.{Pushes, Pushes-none, Pushes-one, Pushes-trans}
use wax_rng_oracle.Poller.Deliver.{after_cleanup, catch_cleanup}
use wax_rng_oracle.Interleaved.Effect.{Serial, Serial-none, Serial-one, Serial-trans}
use wax_rng_oracle.Interleaved.Deliveries.{
  DeliveryPc, next_delivery, delivery_lost, catch_delivery, after_retry, DeliveryMove, CleanupPc,
  CleanupMove,
}
use wax_rng_oracle.Interleaved.Clearing.{
  ClearPc, next_read, judged, ClearMove, DeliveredPc, next_row, with_row, DeliveredMove,
}

-- Deliveries of results, and cleaning, in the member's name.
abbrev pub ChoreOf : Member → Action → Type 0
ChoreOf m a = ((id : ℕ) × (a ≡ retrydeliver m.owner id)) ⊎ (a ≡ cleanup m.owner 10)

-- A job without a failure record has none later.
abbrev pub AddsNoFailure : Storage → Storage → Type 0
AddsNoFailure d d' = (id : ℕ) → lookup id d.failures ≡ none → lookup id d'.failures ≡ none

-- Only such actions are pushed, the storage is changed as its methods do, and no failure is added.
abbrev pub ChoreKept : Member → State → State → Type 0
ChoreKept m s t = Pushes (ChoreOf m) s t × Serial s.db t.db × AddsNoFailure s.db t.db

module _ (m : Member) where
  idle-ChoreKept : (s t : State) → t.pushed ≡ s.pushed → t.db ≡ s.db → ChoreKept m s t
  idle-ChoreKept s t e f =
      (Pushes-none s t e, Serial-none s.db t.db f, λ id none_there. rw f none_there)

  ChoreKept-trans : {s t u : State} → ChoreKept m s t → ChoreKept m t u → ChoreKept m s u
  ChoreKept-trans p q = (Pushes-trans p.0 q.0, Serial-trans p.1 q.1, λ id e. q.2 id (p.2 id e))

  next_delivery-ChoreKept :
      (us : List Undelivered) (s : State) → ChoreKept m s (next_delivery m us s).1
  next_delivery-ChoreKept [] s = idle-ChoreKept s s refl refl
  next_delivery-ChoreKept (u ∷ us) s = (
    Pushes-one s _ (retrydeliver m.owner u.request_id) refl (inl (u.request_id, refl)),
    Serial-none s.db s.db refl,
    λ id e. e,
  )

  delivery_lost-ChoreKept :
      (now : ℕ) (u : Undelivered) (us : List Undelivered) (s : State)
      → ChoreKept m s (delivery_lost now u us s).1
  unfolding perform job_deliver_fail
  delivery_lost-ChoreKept now u us s =
      (Pushes-none s _ refl, Serial-one s.db _ (deliver_fail_call now u) tt refl, λ id e. e)

  catch_delivery-ChoreKept :
      (now : ℕ) (u : Undelivered) (us : List Undelivered) (e : Thrown) (s : State)
      → ChoreKept m s (catch_delivery m now u us e s).1
  unfolding catch_delivery
  catch_delivery-ChoreKept now u us (rpc no_error) s = idle-ChoreKept s s refl refl
  catch_delivery-ChoreKept now u us (rpc no_detail) s = delivery_lost-ChoreKept now u us s
  catch_delivery-ChoreKept now u us (rpc (detail text)) s =
      elim (Bool-cases (includes text "No undelivered result found")) [
        | inl gone ↦ rw gone (next_delivery-ChoreKept us s)
        | inr there ↦ rw there (delivery_lost-ChoreKept now u us s)
      ]
  catch_delivery-ChoreKept now u us type_error s = delivery_lost-ChoreKept now u us s
  catch_delivery-ChoreKept now u us (other e) s = delivery_lost-ChoreKept now u us s

  retried :
      (us : List Undelivered) (s : State)
      → ChoreKept m s (next_delivery m us (count retry_deliver_success s)).1
  retried us s =
      ChoreKept-trans (idle-ChoreKept s (count retry_deliver_success s) refl refl)
        (next_delivery-ChoreKept us (count retry_deliver_success s))

  after_retry-ChoreKept :
      (now : ℕ) (u : Undelivered) (us : List Undelivered) (p : Pushed) (s : State)
      → ChoreKept m s (after_retry m now u us p s).1
  after_retry-ChoreKept now u us (threw e) s = catch_delivery-ChoreKept now u us e s
  after_retry-ChoreKept now u us (sent id) s = retried us s
  after_retry-ChoreKept now u us refused s = retried us s
  after_retry-ChoreKept now u us silent s = retried us s

  pub DeliveryMove-ChoreKept :
      {s : State} {p : DeliveryPc} {r : DeliveryPc × State}
      → DeliveryMove m s p r
      → ChoreKept m s r.1
  DeliveryMove-ChoreKept {s} (DeliveryMove.loaded us) = next_delivery-ChoreKept us s
  DeliveryMove-ChoreKept {s} (DeliveryMove.not_loaded e) = idle-ChoreKept s s refl refl
  DeliveryMove-ChoreKept {s} (DeliveryMove.answers {u} {us} now a) =
      after_retry-ChoreKept now u us (refuse retrydeliver_refusals a) s
  DeliveryMove-ChoreKept {s} DeliveryMove.writes = idle-ChoreKept s _ refl refl
  DeliveryMove-ChoreKept {s} (DeliveryMove.is_posted {us}) = next_delivery-ChoreKept us s

  pushed-cleanup : (e : Thrown) (s : State) → (catch_cleanup e s).0.pushed ≡ s.pushed
  unfolding catch_cleanup
  pushed-cleanup e s = ground arith

  db-cleanup : (e : Thrown) (s : State) → (catch_cleanup e s).0.db ≡ s.db
  unfolding catch_cleanup
  db-cleanup e s = ground arith

  after_cleanup-ChoreKept : (p : Pushed) (s : State) → ChoreKept m s (after_cleanup p s).0
  after_cleanup-ChoreKept (threw e) s =
      idle-ChoreKept s (catch_cleanup e s).0 (pushed-cleanup e s) (db-cleanup e s)
  after_cleanup-ChoreKept (sent id) s = idle-ChoreKept s _ refl refl
  after_cleanup-ChoreKept refused s = idle-ChoreKept s _ refl refl
  after_cleanup-ChoreKept silent s = idle-ChoreKept s _ refl refl

  pub CleanupMove-ChoreKept :
      {s : State} {p : CleanupPc} {r : CleanupPc × State} → CleanupMove m s p r → ChoreKept m s r.1
  CleanupMove-ChoreKept {s} CleanupMove.starts =
      (Pushes-one s _ (cleanup m.owner 10) refl (inr refl), Serial-none s.db s.db refl, λ id e. e)
  CleanupMove-ChoreKept {s} (CleanupMove.answers a) =
      after_cleanup-ChoreKept (refuse cleanup_refusals a) s

  still_none : (ids : List ℕ) (d : Storage) → AddsNoFailure d (clear_failed_jobs ids d)
  unfolding clear_failed_jobs
  still_none ids d id e = rw (lookup-remove_all, e) (ground arith)

  next_read-ChoreKept :
      (fs : List Failure) (ids : List ℕ) (s : State) → ChoreKept m s (next_read fs ids s).1
  unfolding perform
  next_read-ChoreKept [] ids s =
      (Pushes-none s _ refl, Serial-one s.db _ (clear_failed_call ids) tt refl, still_none ids s.db)
  next_read-ChoreKept (f ∷ fs) ids s = idle-ChoreKept s s refl refl

  pub ClearMove-ChoreKept :
      {s : State} {p : ClearPc} {r : ClearPc × State} → ClearMove s p r → ChoreKept m s r.1
  ClearMove-ChoreKept {s} ClearMove.starts = next_read-ChoreKept (get_all_failed_jobs s.db) [] s
  ClearMove-ChoreKept {s} (ClearMove.has_read {f} {fs} {ids} row) =
      next_read-ChoreKept fs (judged f row ids) s
  ClearMove-ChoreKept {s} (ClearMove.not_read e) = idle-ChoreKept s s refl refl
  ClearMove-ChoreKept {s} ClearMove.writes = idle-ChoreKept s s refl refl

  next_row-ChoreKept :
      (fs : List DeliveryFailure) (ids : List ℕ) (s : State) → ChoreKept m s (next_row fs ids s).1
  unfolding perform clear_delivery_failures
  next_row-ChoreKept [] ids s =
      (Pushes-none s _ refl, Serial-one s.db _ (clear_deliveries_call ids) tt refl, λ id e. e)
  next_row-ChoreKept (f ∷ fs) ids s = idle-ChoreKept s s refl refl

  pub DeliveredMove-ChoreKept :
      {s : State} {p : DeliveredPc} {r : DeliveredPc × State}
      → DeliveredMove s p r
      → ChoreKept m s r.1
  DeliveredMove-ChoreKept {s} DeliveredMove.starts =
      next_row-ChoreKept (get_all_failed_deliveries s.db) [] s
  DeliveredMove-ChoreKept {s} (DeliveredMove.has_read {f} {fs} {ids} row) =
      next_row-ChoreKept fs (with_row f row ids) s
  DeliveredMove-ChoreKept {s} (DeliveredMove.not_read e) = idle-ChoreKept s s refl refl
  DeliveredMove-ChoreKept {s} DeliveredMove.writes = idle-ChoreKept s s refl refl

-- ===== src/Interleaved/Deliveries.antt =====
-- `pollJobToRetryDeliver` and `cleanupDelivered` of lib/poller.js from `await` to `await`.
use wax_rng_oracle.Prelude.{ℕ, Option, none, some, List, [], ◌∷◌, if◌then◌else◌, includes}
use wax_rng_oracle.Model.{Undelivered}
use wax_rng_oracle.Contract.{retrydeliver, cleanup}
use wax_rng_oracle.RngPusher.{
  no_error, no_detail, detail, Thrown, rpc, type_error, other, Answer, Pushed, threw, refuse,
  retrydeliver_refusals, cleanup_refusals,
}
use wax_rng_oracle.Storage.{job_deliver_fail}
use wax_rng_oracle.Poller.{
  State, Member, count, post, push, retry_deliver_success, retry_deliver_failed,
}
use wax_rng_oracle.Poller.Deliver.{after_cleanup}

-- What the poll waits for, with the rows that are left.
pub data DeliveryPc : Type 0 where
  resting : Option Thrown → DeliveryPc
  -- the answer to `retrydeliver` for this row
  sending : Undelivered → List Undelivered → DeliveryPc
  -- the write of `jobDeliverFail`
  writing : List Undelivered → DeliveryPc
  posting : List Undelivered → DeliveryPc

-- The loop, to its next wait.
abbrev pub next_delivery : Member → List Undelivered → State → DeliveryPc × State
next_delivery m [] s = (resting none, s)
next_delivery m (u ∷ us) s = (sending u us, push (retrydeliver m.owner u.request_id) s)

-- `jobDeliverFail` changes the record before its wait.
abbrev pub delivery_lost : ℕ → Undelivered → List Undelivered → State → DeliveryPc × State
delivery_lost now u us s = (writing us, record s { db = (job_deliver_fail now s.db u).0 })

unfoldable pub catch_delivery :
    Member → ℕ → Undelivered → List Undelivered → Thrown → State → DeliveryPc × State
catch_delivery m now u us (rpc no_error) s = (resting (some type_error), s)
catch_delivery m now u us (rpc no_detail) s = delivery_lost now u us s
catch_delivery m now u us (rpc (detail text)) s =
    if includes text "No undelivered result found"
    then next_delivery m us s
    else delivery_lost now u us s
catch_delivery m now u us type_error s = delivery_lost now u us s
catch_delivery m now u us (other e) s = delivery_lost now u us s

abbrev pub after_retry :
    Member → ℕ → Undelivered → List Undelivered → Pushed → State → DeliveryPc × State
after_retry m now u us (threw e) s = catch_delivery m now u us e s
after_retry m now u us _ s = next_delivery m us (count retry_deliver_success s)

pub data DeliveryMove (m : Member) (s : State) : DeliveryPc → DeliveryPc × State → Type 0 where
  loaded :
      {last : Option Thrown} (us : List Undelivered)
      → DeliveryMove m s (resting last) (next_delivery m us s)
  not_loaded :
      {last : Option Thrown} (e : Thrown) → DeliveryMove m s (resting last) (resting (some e), s)
  answers :
      {u : Undelivered} {us : List Undelivered} (now : ℕ) (a : Answer)
      → DeliveryMove m s (sending u us) (after_retry m now u us (refuse retrydeliver_refusals a) s)
  writes :
      {us : List Undelivered}
      → DeliveryMove m s (writing us) (posting us, post (count retry_deliver_failed s))
  is_posted : {us : List Undelivered} → DeliveryMove m s (posting us) (next_delivery m us s)

-- What `cleanupDelivered` waits for; its last post ends it.
pub data CleanupPc : Type 0 where
  resting : Option Thrown → CleanupPc
  sending : CleanupPc

abbrev pub cleaned : State × Option Thrown → CleanupPc × State
cleaned (s, e) = (resting e, s)

pub data CleanupMove (m : Member) (s : State) : CleanupPc → CleanupPc × State → Type 0 where
  starts :
      {last : Option Thrown} → CleanupMove m s (resting last) (sending, push (cleanup m.owner 10) s)
  answers :
      (a : Answer) → CleanupMove m s sending (cleaned (after_cleanup (refuse cleanup_refusals a) s))

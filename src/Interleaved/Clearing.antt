-- ===== src/Interleaved/Clearing.antt =====
-- `clearResolvedFailures` and `clearResolvedDeliveryFailures` of lib/jobService.js, from `await` to
-- `await`. Both read the chain for each record of the list that they took at the start.
use wax_rng_oracle.Prelude.{ℕ, Option, none, some, List, [], ◌∷◌, ◌++◌, if◌then◌else◌}
use wax_rng_oracle.Model.{Job, Undelivered}
use wax_rng_oracle.RngPusher.{Thrown}
use wax_rng_oracle.Storage.{
  Failure, DeliveryFailure, get_all_failed_jobs, clear_failed_jobs, get_all_failed_deliveries,
  clear_delivery_failures,
}
use wax_rng_oracle.JobService.{is_resolved, is_delivered}
use wax_rng_oracle.Poller.{State}

-- What the poll waits for: its start, the row of a record, with the records that are left and the
-- ids that are resolved, or the write of `clearFailedJobs`.
pub data ClearPc : Type 0 where
  resting : Option Thrown → ClearPc
  reading : Failure → List Failure → List ℕ → ClearPc
  writing : ClearPc

-- The loop, to its next wait; at its end the records are dropped.
abbrev pub next_read : List Failure → List ℕ → State → ClearPc × State
next_read [] ids s = (writing, record s { db = clear_failed_jobs ids s.db })
next_read (f ∷ fs) ids s = (reading f fs ids, s)

abbrev pub judged : Failure → Option Job → List ℕ → List ℕ
judged f job ids = if is_resolved f job then ids ++ f.id ∷ [] else ids

pub data ClearMove (s : State) : ClearPc → ClearPc × State → Type 0 where
  starts :
      {last : Option Thrown}
      → ClearMove s (resting last) (next_read (get_all_failed_jobs s.db) [] s)
  has_read :
      {f : Failure} {fs : List Failure} {ids : List ℕ} (row : Option Job)
      → ClearMove s (reading f fs ids) (next_read fs (judged f row ids) s)
  not_read :
      {f : Failure} {fs : List Failure} {ids : List ℕ} (e : Thrown)
      → ClearMove s (reading f fs ids) (resting (some e), s)
  writes : ClearMove s writing (resting none, s)

pub data DeliveredPc : Type 0 where
  resting : Option Thrown → DeliveredPc
  reading : DeliveryFailure → List DeliveryFailure → List ℕ → DeliveredPc
  writing : DeliveredPc

abbrev pub next_row : List DeliveryFailure → List ℕ → State → DeliveredPc × State
next_row [] ids s = (writing, record s { db = clear_delivery_failures ids s.db })
next_row (f ∷ fs) ids s = (reading f fs ids, s)

abbrev pub with_row : DeliveryFailure → Option Undelivered → List ℕ → List ℕ
with_row f row ids = if is_delivered row then ids ++ f.request_id ∷ [] else ids

pub data DeliveredMove (s : State) : DeliveredPc → DeliveredPc × State → Type 0 where
  starts :
      {last : Option Thrown}
      → DeliveredMove s (resting last) (next_row (get_all_failed_deliveries s.db) [] s)
  has_read :
      {f : DeliveryFailure} {fs : List DeliveryFailure} {ids : List ℕ} (row : Option Undelivered)
      → DeliveredMove s (reading f fs ids) (next_row fs (with_row f row ids) s)
  not_read :
      {f : DeliveryFailure} {fs : List DeliveryFailure} {ids : List ℕ} (e : Thrown)
      → DeliveredMove s (reading f fs ids) (resting (some e), s)
  writes : DeliveredMove s writing (resting none, s)

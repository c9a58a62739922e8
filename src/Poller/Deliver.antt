-- ===== src/Poller/Deliver.antt =====
-- `pollJobToRetryDeliver`, `cleanupDelivered` and `monitorPendingJob` of lib/poller.js, from the rows
-- that `getJobsToRetryDeliver` gives.
pub mod Counts
use wax_rng_oracle.Prelude.{
  ℕ, ◌+◌, String, Bool, true, false, Option, none, some, List, [], ◌∷◌, ltb, if◌then◌else◌,
  includes,
}
use wax_rng_oracle.Model.{Undelivered}
use wax_rng_oracle.RngPusher.{
  RpcJson, no_error, no_detail, detail, Thrown, rpc, type_error, other, Pushed, sent, refused,
  silent, threw, retry_deliver, clean_up,
}
use wax_rng_oracle.Storage.{Storage, job_deliver_fail}
use wax_rng_oracle.Poller.{
  Loading, with_rows, State, Member, Outside, Run, count, post, retry_deliver_success,
  retry_deliver_failed, cleanup_success, cleanup_failed,
}
use wax_rng_oracle.Poller.SetPart.{
  Round, skipped, success, failure, breaks, throws, continue_with, push_to,
}

abbrev pub deliver_failed : Outside → Undelivered → State → Round
deliver_failed o u s =
    let (db, f) = job_deliver_fail (o.clock s) s.db u in
    failure (post (count retry_deliver_failed (record s { db = db })))

-- The `catch` block.
unfoldable pub catch_deliver : Outside → Undelivered → Thrown → State → Round
catch_deliver o u (rpc no_error) s = throws type_error s
catch_deliver o u (rpc no_detail) s = deliver_failed o u s
catch_deliver o u (rpc (detail text)) s =
    if includes text "No undelivered result found" then skipped s else deliver_failed o u s
catch_deliver o u type_error s = deliver_failed o u s
catch_deliver o u (other e) s = deliver_failed o u s

-- A method that returned `false` counts as success.
abbrev pub after_deliver : Outside → Undelivered → Pushed → State → Round
after_deliver o u (threw e) s = catch_deliver o u e s
after_deliver o u _ s = success (count retry_deliver_success s)

unfoldable pub deliver : Member → Outside → Undelivered → State → Round
deliver m o u s =
    let (result, s') = retry_deliver (push_to o) m.owner u.request_id s in
    after_deliver o u result s'

pub deliver_all : Member → Outside → List Undelivered → State → ℕ → ℕ → Run
deliver_all m o [] s done bad = record { state = s; succeeded = done; failed = bad; thrown = none }
deliver_all m o (u ∷ us) s done bad = continue_with (deliver m o u s) done bad (deliver_all m o us)

-- After the load: the loop over the rows that it gave.
unfoldable pub poll_job_to_retry_deliver : Member → Outside → List Undelivered → State → Run
unfolding deliver_all deliver catch_deliver
poll_job_to_retry_deliver m o us s = deliver_all m o us s 0 0

-- The poll, from what `getJobsToRetryDeliver` returns or throws.
unfoldable pub deliver_round : Member → Outside → Loading Undelivered → State → Run
unfolding poll_job_to_retry_deliver
deliver_round m o loading s = with_rows (poll_job_to_retry_deliver m o) loading s

abbrev cleanup_lost : State → State × Option Thrown
cleanup_lost s = (post (count cleanup_failed s), none)

-- The `catch` block of `cleanupDelivered`.
unfoldable pub catch_cleanup : Thrown → State → State × Option Thrown
catch_cleanup (rpc no_error) s = (s, some type_error)
catch_cleanup (rpc no_detail) s = cleanup_lost s
catch_cleanup (rpc (detail text)) s = if includes text "paused" then (s, none) else cleanup_lost s
catch_cleanup type_error s = cleanup_lost s
catch_cleanup (other e) s = cleanup_lost s

abbrev pub after_cleanup : Pushed → State → State × Option Thrown
after_cleanup (threw e) s = catch_cleanup e s
after_cleanup _ s = (count cleanup_success s, none)

-- The state after it, and what it threw.
unfoldable pub cleanup_delivered : Member → Outside → State → State × Option Thrown
unfolding catch_cleanup
cleanup_delivered m o s =
    let (result, s') = clean_up (push_to o) m.owner 10 s in after_cleanup result s'

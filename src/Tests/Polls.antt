-- ===== src/Tests/Polls.antt =====
-- lib/poller.js at concrete inputs.
use mathlib.Core.List.Perm
use wax_rng_oracle.Prelude.{◌≡◌, refl, false, some, List, [], ◌∷◌, arith}
use wax_rng_oracle.Model.{Job}
use wax_rng_oracle.ShareKey.{combine_error, combine_partial_signatures}
use wax_rng_oracle.ShareKey.Message.{make_msg}
use wax_rng_oracle.Storage.Cleared.{IsValid}
use wax_rng_oracle.JobService.{should_execute_job}
use wax_rng_oracle.Poller.Pushing.{Pushes}
use wax_rng_oracle.Poller.{rows}
use wax_rng_oracle.Poller.SetPart.{poll_jobs_to_set_part, message, set_part_round}
use wax_rng_oracle.Poller.SetPart.Counts.{Counted, poll_jobs_to_set_part-Counted}
use wax_rng_oracle.Poller.Execute.{poll_jobs_to_execute, combination, execute_round}
use wax_rng_oracle.Poller.Execute.Counts.{Ended, poll_jobs_to_execute-Ended}
use wax_rng_oracle.Poller.Execute.Pushes.{ResultOf}
use wax_rng_oracle.Poller.Execute.Safety.{poll_jobs_to_execute-Safe}
use wax_rng_oracle.Poller.Execute.Parked.{poll_jobs_to_execute-parks}
use wax_rng_oracle.Poller.Deliver.{deliver_round}
use wax_rng_oracle.Poller.Deliver.Counts.{Delivered, poll_job_to_retry_deliver-Delivered}
use wax_rng_oracle.Poller.Alerts.{Throttled, post_times, post_times-Throttled}
use wax_rng_oracle.Contract.{OrngConfig}
use wax_rng_oracle.Poller.Signed.{SignedAction, polls-IsSigned}
use wax_rng_oracle.Tests.Fixtures.{
  first_job, second_job, job_of, late_parts, undelivered_of, toy_sha256_nonempty, fresh_state,
  member, calm, rough,
}

abbrev jobs : List Job
jobs = first_job ∷ second_job ∷ []

poll_jobs_to_set_part-Counted_example :
    Counted member jobs fresh_state 0 0 (set_part_round member rough (rows jobs) fresh_state)
poll_jobs_to_set_part-Counted_example =
    poll_jobs_to_set_part-Counted member rough (rows jobs) fresh_state

poll_jobs_to_execute-Ended_example :
    Ended jobs fresh_state 0 0 (execute_round member rough (rows jobs) fresh_state)
poll_jobs_to_execute-Ended_example = poll_jobs_to_execute-Ended member rough (rows jobs) fresh_state

poll_jobs_to_execute-Safe_example :
    Pushes
      (ResultOf member calm jobs)
      fresh_state
      (poll_jobs_to_execute member calm jobs fresh_state).state
    × IsValid (poll_jobs_to_execute member calm jobs fresh_state).state.db
poll_jobs_to_execute-Safe_example =
    poll_jobs_to_execute-Safe member calm jobs fresh_state
      (record { failures = tt; deliveries = tt })

first_message : message rough first_job ≡ some "00ff"
unfolding make_msg
first_message = refl

uncombined : combination member rough first_job "00ff" ≡ combine_error "INVALID_SHARE" []
unfolding combine_partial_signatures
uncombined = refl

poll_jobs_to_execute-parks_example :
    let r = poll_jobs_to_execute member rough (first_job ∷ []) fresh_state in
    (r.failed ≡ 1)
    × (r.state.pushed ≡ [])
    × (should_execute_job 2 rough.sha256 999999 r.state.db (job_of 3 late_parts) ≡ false)
poll_jobs_to_execute-parks_example =
    poll_jobs_to_execute-parks member rough first_job (job_of 3 late_parts) "00ff" "INVALID_SHARE"
      [] fresh_state 999999 toy_sha256_nonempty refl first_message (omega arith) uncombined refl
      (Perm.swap _ _ [])

poll_job_to_retry_deliver-Delivered_example :
    Delivered member
      (undelivered_of 3 ∷ undelivered_of 7 ∷ [])
      fresh_state
      0
      0
      (deliver_round member rough (rows (undelivered_of 3 ∷ undelivered_of 7 ∷ [])) fresh_state)
poll_job_to_retry_deliver-Delivered_example =
    poll_job_to_retry_deliver-Delivered member rough
      (rows (undelivered_of 3 ∷ undelivered_of 7 ∷ [])) fresh_state

post_times-Throttled_example :
    Throttled 60000 0
      (70000 ∷ 70001 ∷ 140000 ∷ [])
      (post_times member (70000 ∷ 70001 ∷ 140000 ∷ []) fresh_state)
post_times-Throttled_example =
    post_times-Throttled member (70000 ∷ 70001 ∷ 140000 ∷ []) fresh_state (omega arith)

abbrev config : OrngConfig
config = record { contract_name = "orng.wax"; node_owner = "oracle"; auth = "active"; max_cpu = 30 }

polls-IsSigned_example :
    Pushes
      (SignedAction config member)
      fresh_state
      (poll_jobs_to_execute member calm jobs fresh_state).state
    × Pushes
        (SignedAction config member)
        fresh_state
        (poll_jobs_to_set_part member calm jobs fresh_state).state
polls-IsSigned_example =
    polls-IsSigned config member calm jobs jobs fresh_state
      (record { failures = tt; deliveries = tt })

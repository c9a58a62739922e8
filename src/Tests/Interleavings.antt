-- ===== src/Tests/Interleavings.antt =====
-- Polls that interleave, at concrete inputs.
use mathlib.Core.List.{Memᴰ}
use wax_rng_oracle.Prelude.{◌≤◌, ◌*◌, ◌≡◌, ◌≢◌, refl, false, some, none, List, [], ◌∷◌}
use wax_rng_oracle.Dict.{values, put, remove_all, remove, lookup}
use wax_rng_oracle.Model.{Job}
use wax_rng_oracle.RngPusher.{accepted, failed, other, type_error}
use wax_rng_oracle.Storage.Cleared.{IsValid, perform_all}
use wax_rng_oracle.Storage.{job_failed, new_failure, get_all_failed_jobs, clear_failed_jobs}
use wax_rng_oracle.ShareKey.{combine_partial_signatures}
use wax_rng_oracle.ShareKey.Message.{make_msg}
use wax_rng_oracle.ShareKey.Signing.{sign, validate_signature_result}
use wax_rng_oracle.Poller.{is_known_key_version}
use wax_rng_oracle.Poller.Pushing.{Pushes}
use wax_rng_oracle.Poller.SetPart.{poll_jobs_to_set_part}
use wax_rng_oracle.Poller.Execute.{poll_jobs_to_execute, log_combine_diagnostics}
use wax_rng_oracle.Startup.{polls, first_state}
use wax_rng_oracle.Startup.Interleaving.{Works, run-Works}
use wax_rng_oracle.Interleaved.Parts.{next_part, PartPc, PartMove}
use wax_rng_oracle.Interleaved.Results.{next_result, ResultPc, ResultMove}
use wax_rng_oracle.Interleaved.Clearing.{ClearMove}
use wax_rng_oracle.Interleaved.Calls.Steps.{calls_of}
use wax_rng_oracle.Interleaved.Versions.{IsVersioned}
use wax_rng_oracle.Interleaved.System.{
  System, begin, part, result, clears, Runs, done, later, Reach,
}
use wax_rng_oracle.Interleaved.Safety.{IsRight, Reach-Right, Reach-Serial}
use wax_rng_oracle.Interleaved.Undisturbed.{Undisturbed, Undisturbed-returns}
use wax_rng_oracle.Interleaved.Ending.{Waits, result_steps, InRound, round-Ends}
use wax_rng_oracle.Poller.{State}
use wax_rng_oracle.Interleaved.Lost.{WasGone, Reach-WasGone}
use wax_rng_oracle.Interleaved.Alone.{EndsIn}
use wax_rng_oracle.Interleaved.PartsAlone
use wax_rng_oracle.Interleaved.Results.Follow
use wax_rng_oracle.Interleaved.PartsAlone.{poll_jobs_to_set_part-Runs}
use wax_rng_oracle.Interleaved.ResultsAlone.{poll_jobs_to_execute-Runs}
use wax_rng_oracle.Tests.Fixtures.{first_job, fresh, fresh_state, member, calm, rough}
use wax_rng_oracle.Tests.Checks.{setup, world, polling, runs}

abbrev jobs : List Job
jobs = first_job ∷ []

-- `setrand` times out, the failure is recorded, and while its write runs
-- `clearResolvedFailures` finds the job gone from the chain and drops the record. The record that
-- `jobFailed` returns is undefined then, and the poll ends with a `TypeError`.
raced :
    (t : System) × Reach member calm jobs fresh_state t
    × (t.results ≡ ResultPc.resting (some type_error))
unfolding log_combine_diagnostics next_result make_msg combine_partial_signatures
    is_known_key_version get_all_failed_jobs clear_failed_jobs values put remove_all remove lookup
raced = (
  _,
  later
      (later
        (later
          (later
            (later
              (later (later done (result (ResultMove.loaded jobs (Memᴰ.head refl, tt))))
                (result (ResultMove.answers (failed (other "timeout")))))
              (result (ResultMove.reads 1000)))
            (clears ClearMove.starts))
          (clears (ClearMove.has_read none)))
        (clears ClearMove.writes))
      (result (ResultMove.writes 1001)),
  refl,
)

Reach-Right_example :
    Pushes (IsRight member calm jobs) fresh_state raced.0.shared
    × Pushes (IsVersioned member jobs fresh_state.db) fresh_state raced.0.shared
Reach-Right_example =
    Reach-Right member calm jobs fresh_state raced.0 (record { failures = tt; deliveries = tt })
      raced.1

Reach-Serial_example :
    (raced.0.shared.db ≡ perform_all (calls_of raced.1) fresh_state.db) × IsValid raced.0.shared.db
Reach-Serial_example =
    Reach-Serial member calm jobs fresh_state raced.0 (record { failures = tt; deliveries = tt })
      raced.1

-- The same failure, with both clearing polls and the signing poll in between, but no step of the first
-- while the record is written.
settled : (t : System) × Reach member calm jobs fresh_state t
unfolding log_combine_diagnostics next_result next_part make_msg combine_partial_signatures
    is_known_key_version get_all_failed_jobs clear_failed_jobs values put remove_all remove lookup
settled = (
  _,
  later
      (later
        (later
          (later
            (later
              (later
                (later (later done (result (ResultMove.loaded jobs (Memᴰ.head refl, tt))))
                  (clears ClearMove.starts))
                (result (ResultMove.answers (failed (other "timeout")))))
              (result (ResultMove.reads 1000)))
            (part (PartMove.loaded jobs (Memᴰ.head refl, tt))))
          (result (ResultMove.writes 1001)))
        (clears ClearMove.writes))
      (result ResultMove.is_posted),
)

undisturbed : Undisturbed member calm jobs settled.1
unfolding settled Undisturbed
undisturbed = (tt, (tt, (tt, (tt, (tt, (tt, (tt, tt)))))))

Undisturbed-returns_example : settled.0.results ≢ ResultPc.resting (some type_error)
Undisturbed-returns_example =
    Undisturbed-returns member calm jobs fresh_state settled.0 type_error settled.1 undisturbed

poll_jobs_to_set_part-Runs_example :
    let run = poll_jobs_to_set_part member rough jobs fresh_state in
    EndsIn
      (PartsAlone.follow_on member rough)
      (next_part member rough jobs fresh_state)
      (PartPc.resting run.thrown, run.state)
    × Runs member rough jobs
        (begin fresh_state)
        (record (begin fresh_state) { shared = run.state; parts = PartPc.resting run.thrown })
poll_jobs_to_set_part-Runs_example =
    poll_jobs_to_set_part-Runs member rough jobs (begin fresh_state) none jobs refl
      (Memᴰ.head refl, tt)

poll_jobs_to_execute-Runs_example :
    let run = poll_jobs_to_execute member rough jobs fresh_state in
    EndsIn
      (Follow.follow_on member rough)
      (next_result member rough jobs fresh_state)
      (ResultPc.resting run.thrown, run.state)
    × Runs member rough jobs
        (begin fresh_state)
        (record (begin fresh_state) { shared = run.state; results = ResultPc.resting run.thrown })
poll_jobs_to_execute-Runs_example =
    poll_jobs_to_execute-Runs member rough jobs (begin fresh_state) none jobs refl
      (Memᴰ.head refl, tt)

-- A job of the version that the checked process acts on.
abbrev current : Job
current = record first_job { ver = 2 }

-- Both polls of jobs wait for their answers at once.
at_once : (t : System) × Reach polling calm (current ∷ []) (first_state fresh) t
unfolding log_combine_diagnostics next_result next_part make_msg combine_partial_signatures
    is_known_key_version sign validate_signature_result
at_once = (
  _,
  later
      (later
        (later
          (later (later done (result (ResultMove.loaded (current ∷ []) (Memᴰ.head refl, tt))))
            (part (PartMove.loaded (current ∷ []) (Memᴰ.head refl, tt))))
          (part PartMove.signs))
        (result (ResultMove.answers (accepted "tx"))))
      (part (PartMove.answers (failed (other "timeout")))),
)

run-Works_example : Works setup world polling calm (current ∷ []) fresh at_once.0
run-Works_example =
    run-Works setup world false polls polling fresh calm (current ∷ []) at_once.0 runs
      (record { failures = tt; deliveries = tt }) at_once.1

-- The first wait of a round over one job.
abbrev first_wait : System
first_wait =
    let r = next_result member calm jobs fresh_state in
    record (begin fresh_state) { shared = r.1; results = r.0 }

-- A part of that round, with the start of another poll in between.
within_round : (u : System) × Runs member calm jobs first_wait u
unfolding log_combine_diagnostics next_result make_msg combine_partial_signatures
    is_known_key_version get_all_failed_jobs values put lookup
within_round = (
  _,
  later
      (later
        (later (later done (result (ResultMove.answers (failed (other "timeout")))))
          (result (ResultMove.reads 1000)))
        (clears ClearMove.starts))
      (result (ResultMove.writes 1001)),
)

in_round : InRound member calm jobs within_round.1
unfolding within_round InRound log_combine_diagnostics next_result make_msg
    combine_partial_signatures is_known_key_version
in_round = (tt, (tt, (tt, tt)))

round-Ends_example :
    (result_steps member calm jobs within_round.1 ≤ 6 * 1)
    × (Waits member calm within_round.0.results
        → (next : ResultPc × State) × ResultMove member calm jobs within_round.0.shared
            within_round.0.results next)
round-Ends_example =
    round-Ends member calm jobs jobs fresh_state first_wait within_round.0 within_round.1 refl
      in_round

-- A job that failed earlier, and is gone from the chain.
abbrev failed_before : State
failed_before = record fresh_state { db = (job_failed 500 fresh first_job none).0 }

cleared : (t : System) × Reach member calm jobs failed_before t
unfolding get_all_failed_jobs clear_failed_jobs values put remove_all remove lookup job_failed
cleared = (
  _,
  later
      (later (later done (clears ClearMove.starts))
        (part (PartMove.loaded jobs (Memᴰ.head refl, tt))))
      (clears (ClearMove.has_read none)),
)

was_recorded : lookup 3 failed_before.db.failures ≡ some (new_failure 500 first_job)
unfolding lookup put job_failed
was_recorded = refl

is_lost : lookup 3 cleared.0.shared.db.failures ≡ none
unfolding cleared get_all_failed_jobs clear_failed_jobs values put remove_all remove lookup
    job_failed next_part is_known_key_version make_msg
is_lost = refl

Reach-WasGone_example : WasGone member calm jobs cleared.1 3
Reach-WasGone_example =
    Reach-WasGone member calm jobs failed_before cleared.0 3 (new_failure 500 first_job) cleared.1
      was_recorded is_lost

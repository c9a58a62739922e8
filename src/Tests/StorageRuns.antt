-- ===== src/Tests/StorageRuns.antt =====
-- lib/storage.js at concrete inputs.
use wax_rng_oracle.Startup.Forked.{Divides, forked-Divides}
use wax_rng_oracle.Prelude.{
  ℕ, String, ◌≡◌, ◌≢◌, refl, join, true, none, some, [], ◌∷◌, arith, text_eq_iff,
}
use wax_rng_oracle.Dict.{lookup}
use wax_rng_oracle.Model.{Job, text, show}
use wax_rng_oracle.Storage.{
  Storage, init, is_job_of_this_process, should_execute_job, clear_failed_jobs,
  get_timed_out_job_ids,
}
use wax_rng_oracle.Storage.Fingerprint.{parts_fingerprint, row}
use wax_rng_oracle.Storage.Backoff.{Attempt, fail_all, should_execute_job-fail_all}
use wax_rng_oracle.Storage.Cleared.{IsValid, clear_failed_jobs-timed_out, unless_timed_out}
use wax_rng_oracle.Tests.Fixtures.{early_parts, first_job, job_of, toy_sha256, empty_file, fresh}

abbrev attempt : ℕ → ℕ → Attempt
attempt at id = record { at = at; job = job_of id early_parts; meta = none }

-- Job 3 fails at 100 and again at 700 and at 2000, and job 7 in between.
should_execute_job-fail_all_example :
    should_execute_job toy_sha256 2100
      (fail_all (attempt 100 3 ∷ attempt 700 3 ∷ attempt 900 7 ∷ attempt 2000 3 ∷ []) fresh)
      first_job
    ≡ true
unfolding lookup parts_fingerprint
should_execute_job-fail_all_example =
    should_execute_job-fail_all toy_sha256 2100 5 fresh (attempt 100 3)
      (attempt 700 3 ∷ attempt 900 7 ∷ attempt 2000 3 ∷ []) first_job refl refl refl

abbrev plain : String → String
plain t = t

abbrev one_part : Job
one_part = job_of 3 (record { idx = text "1"; sig_i = text "ab" } ∷ [])

one_part_fingerprint : parts_fingerprint plain [] ≢ parts_fingerprint plain one_part.parts
unfolding parts_fingerprint join row show
one_part_fingerprint e = ground (arith, text_eq_iff "" "1:ab")

abbrev spent : Storage
spent = record {
  max_retry_duration = 16000;
  failures =
      (
        3,
        record {
          id = 3;
          nonce = some 9;
          ver = 1;
          seed = "0a0b";
          dapp = "dice";
          created_at = 100;
          next_retry = 16000;
          parts_fingerprint = none;
        },
      )
      ∷ (
        7,
        record {
          id = 7;
          nonce = some 9;
          ver = 1;
          seed = "0a0b";
          dapp = "dice";
          created_at = 100;
          next_retry = 1000;
          parts_fingerprint = none;
        },
      )
      ∷ [];
  delivery_failures = [];
  process = none;
}

spent-IsValid : IsValid spent
spent-IsValid = record { failures = ground arith; deliveries = tt }

clear_failed_jobs-timed_out_example :
    lookup 3 (clear_failed_jobs (get_timed_out_job_ids spent) spent).failures
    ≡ unless_timed_out spent (lookup 3 spent.failures)
clear_failed_jobs-timed_out_example = clear_failed_jobs-timed_out spent 3 spent-IsValid

third_of_four : is_job_of_this_process (init 5 empty_file (some 3) (some 4)) first_job ≡ true
unfolding init is_job_of_this_process
third_of_four = refl

forked-Divides_example : Divides 3 5 empty_file 4
forked-Divides_example = forked-Divides 3 5 empty_file 4 (omega arith)

-- ===== src/Tests/Selections.antt =====
-- lib/jobService.js, lib/utils/shuffle.js and lib/shareKeyService.js at concrete inputs.
use mathlib.Core.List.{Perm}
use wax_rng_oracle.Prelude.{
  ℕ, ◌≤◌, ◌≡◌, ◌⊎◌, refl, none, some, List, [], ◌∷◌, ◌++◌, arith, length, keep, ok, ◌==◌,
  if◌then◌else◌,
}
use wax_rng_oracle.Dict.{lookup}
use wax_rng_oracle.Model.{Job, Undelivered, text, undefined}
use wax_rng_oracle.Storage.{Storage, should_retry_delivery}
use wax_rng_oracle.Storage.Cleared.{IsValid}
use wax_rng_oracle.Shuffle.{shuffle_array}
use wax_rng_oracle.Shuffle.Order.{shuffle_array-perm}
use wax_rng_oracle.JobService.{
  should_try_job, should_execute_job, get_jobs_to_process, get_jobs_to_execute,
  get_pending_job_number, get_jobs_to_retry_deliver, clear_resolved_failures,
}
use wax_rng_oracle.JobService.Selection.{
  Selected, get_pending_job_number-table, get_jobs_to_process-Selected,
  get_jobs_to_execute-Selected, get_jobs_to_retry_deliver-table,
}
use wax_rng_oracle.JobService.Resolved.{still_failed, clear_resolved_failures_lem}
use wax_rng_oracle.ShareKey.{codes, screen_partials}
use wax_rng_oracle.ShareKey.Screening.{IsScreened, screen_partials-IsScreened}
use wax_rng_oracle.ShareKey.Message.{from_hex, message_bytes, message_bytes-injective}
use wax_rng_oracle.Tests.Fixtures.{
  part, first_job, second_job, undelivered_of, toy_sha256, fresh, toy_pick, toy_pick-PicksBelow,
  two_pages, two_pages-IsReaderOf,
}

abbrev id_of_job : Job → ℕ
id_of_job job = job.id

abbrev table : List Job
table = first_job ∷ second_job ∷ []

get_pending_job_number-table_example :
    get_pending_job_number (two_pages id_of_job first_job second_job refl refl) 3 ≡ ok 2
get_pending_job_number-table_example =
    get_pending_job_number-table table (two_pages id_of_job first_job second_job refl refl) 3
      (two_pages-IsReaderOf id_of_job first_job second_job refl refl) (omega arith)

get_jobs_to_process-Selected_example :
    (ys : List Job) × (get_jobs_to_process
        (two_pages id_of_job first_job second_job refl refl)
        toy_pick
        3
        86400000
        2
        fresh
      ≡ ok ys)
    × Selected table (should_try_job 2 fresh) ys
get_jobs_to_process-Selected_example =
    get_jobs_to_process-Selected toy_pick toy_pick-PicksBelow table
      (two_pages id_of_job first_job second_job refl refl)
      (two_pages-IsReaderOf id_of_job first_job second_job refl refl) 3 86400000 2 fresh
      (omega arith) (omega arith)

get_jobs_to_execute-Selected_example :
    (ys : List Job) × (get_jobs_to_execute
        (two_pages id_of_job first_job second_job refl refl)
        toy_pick
        3
        86400000
        2
        fresh
        2
        toy_sha256
      ≡ ok ys)
    × Selected table (should_execute_job 2 toy_sha256 86400000 fresh) ys
get_jobs_to_execute-Selected_example =
    get_jobs_to_execute-Selected toy_pick toy_pick-PicksBelow table
      (two_pages id_of_job first_job second_job refl refl)
      (two_pages-IsReaderOf id_of_job first_job second_job refl refl) 3 86400000 2 fresh
      (omega arith) (omega arith) 2 toy_sha256

abbrev id_of_row : Undelivered → ℕ
id_of_row u = u.request_id

abbrev undelivered_table : List Undelivered
undelivered_table = undelivered_of 3 ∷ undelivered_of 7 ∷ []

get_jobs_to_retry_deliver-table_example :
    (scanned rest : List Undelivered) × (undelivered_table ≡ scanned ++ rest)
    × (get_jobs_to_retry_deliver
          (two_pages id_of_row (undelivered_of 3) (undelivered_of 7) refl refl)
          3
          50
          fresh
        ≡ ok (keep (should_retry_delivery 50 fresh) scanned))
    × ((rest ≡ []) ⊎ (100 ≤ length (keep (should_retry_delivery 50 fresh) scanned)))
get_jobs_to_retry_deliver-table_example =
    get_jobs_to_retry_deliver-table undelivered_table
      (two_pages id_of_row (undelivered_of 3) (undelivered_of 7) refl refl) 3 50 fresh
      (two_pages-IsReaderOf id_of_row (undelivered_of 3) (undelivered_of 7) refl refl) (omega arith)

-- Job 3 failed with its seed, and job 7 is gone from the chain.
abbrev after_failures : Storage
after_failures = record fresh {
  failures =
      (
        3,
        record {
          id = 3;
          nonce = some 9;
          ver = 1;
          seed = "0a0b";
          dapp = "dice";
          created_at = 100;
          next_retry = 500;
          parts_fingerprint = none;
        },
      )
      ∷ (
        7,
        record {
          id = 7;
          nonce = some 9;
          ver = 1;
          seed = "0a0b";
          dapp = "dice";
          created_at = 100;
          next_retry = 1000;
          parts_fingerprint = none;
        },
      )
      ∷ [];
}

after_failures-IsValid : IsValid after_failures
after_failures-IsValid = record { failures = ground arith; deliveries = tt }

abbrev rows_of : ℕ → List Job
rows_of id = if id == 3 then first_job ∷ [] else []

clear_resolved_failures_lem_example :
    (s' : Storage) × (clear_resolved_failures (λ id. ok (rows_of id)) after_failures ≡ ok s')
    × ((id : ℕ) → lookup id s'.failures ≡ still_failed rows_of (lookup id after_failures.failures))
clear_resolved_failures_lem_example =
    clear_resolved_failures_lem (λ id. ok (rows_of id)) rows_of (λ id. refl) after_failures
      after_failures-IsValid

-- Request 3 is still undelivered, and request 7 is not.
abbrev after_deliveries : Storage
after_deliveries = record fresh {
  delivery_failures =
      (
        3,
        record {
          request_id = 3;
          dapp = "dice";
          assoc_id = 3;
          error_message = "assert";
          created_at = 100;
          next_retry = 500;
        },
      )
      ∷ (
        7,
        record {
          request_id = 7;
          dapp = "dice";
          assoc_id = 3;
          error_message = "assert";
          created_at = 100;
          next_retry = 500;
        },
      )
      ∷ [];
}

shuffle_array-perm_example :
    (ys : List ℕ) × (shuffle_array toy_pick (1 ∷ 2 ∷ 3 ∷ []) 1019000 ≡ some ys)
    × Perm ys (1 ∷ 2 ∷ 3 ∷ [])
shuffle_array-perm_example =
    shuffle_array-perm toy_pick toy_pick-PicksBelow (1 ∷ 2 ∷ 3 ∷ []) 1019000

screen_partials-IsScreened_example :
    IsScreened (part 1 "ab" ∷ part 2 "XY" ∷ record { idx = undefined; sig_i = text "cd" } ∷ []) (
      screen_partials
        (part 1 "ab" ∷ part 2 "XY" ∷ record { idx = undefined; sig_i = text "cd" } ∷ []))
screen_partials-IsScreened_example =
    screen_partials-IsScreened
      (part 1 "ab" ∷ part 2 "XY" ∷ record { idx = undefined; sig_i = text "cd" } ∷ [])

message_bytes-injective_example :
    (from_hex (codes "0a0b") ≡ from_hex (codes "0A0B")) × (◌≡◌ {A = ℕ} 5 5) × (◌≡◌ {A = ℕ} 9 9)
unfolding from_hex message_bytes
message_bytes-injective_example =
    message_bytes-injective (λ name. 5) "0a0b" "0A0B" "dice" "dice" 9 9
      (10 ∷ 11 ∷ 5 ∷ 0 ∷ 0 ∷ 0 ∷ 0 ∷ 0 ∷ 0 ∷ 0 ∷ 9 ∷ 0 ∷ 0 ∷ 0 ∷ 0 ∷ 0 ∷ 0 ∷ 0 ∷ []) refl refl refl

-- ===== src/Tests/Boot.antt =====
-- lib/bootChecks.js and lib/config/fetchRetry.js at concrete inputs: a node that is unreachable at
-- first.
use wax_rng_oracle.Prelude.{
  ℕ, ◌≤◌, ◌<◌, ◌≡◌, refl, true, false, some, [], arith, ◌==◌, if◌then◌else◌,
}
use wax_rng_oracle.BootChecks.Rows.{
  Rpc, unreachable, row, PublicKey, rpc_error, got, lost, fetch_active_public_key,
  fetch_oracle_index,
}
use wax_rng_oracle.BootChecks.{Verified, checked, Settings, run_boot_checks}
use wax_rng_oracle.BootChecks.Sound.{Confirmed, run_boot_checks-Confirmed}
use wax_rng_oracle.BootChecks.Delays.{Bounded, run_boot_checks-Bounded}
use wax_rng_oracle.BootChecks.Progress.{Waits, no_key, run_boot_checks-passes}
use wax_rng_oracle.FetchRetry.{Met, response, failed, fetch_with_retry}
use wax_rng_oracle.FetchRetry.Ends.{Explained, fetch_with_retry-Explained}

abbrev down : Rpc
down = record {
  config_row = λ k. unreachable;
  key_row = λ v. unreachable;
  oracle_row = λ o. unreachable;
}

abbrev pub up : Rpc
up = record {
  config_row = λ k. row (record { name = "3607749779137757184"; value = some 2 });
  key_row = λ v.
      row (record { ver = some 2; retired = false; modulus = some "c5"; exponent = some "10001" });
  oracle_row = λ o. row (record { oracle = "oracle"; oracle_index = some 3 });
}

abbrev pub lagging : ℕ → Rpc
lagging n = if n == 1 then down else up

abbrev key_2 : PublicKey
key_2 = record { ver = 2; modulus = "c5"; exponent = "10001" }

abbrev pub three_attempts : Settings
three_attempts = record { attempts = 3; base_delay = 2000; max_delay = 30000 }

abbrev pub accepting : PublicKey → Verified
accepting k = checked true []

active_key : fetch_active_public_key up "3607749779137757184" ≡ got key_2
unfolding fetch_active_public_key
active_key = refl

index_3 : fetch_oracle_index up "oracle" ≡ got 3
unfolding fetch_oracle_index
index_3 = refl

down_first : fetch_active_public_key (lagging 1) "3607749779137757184" ≡ lost rpc_error
unfolding fetch_active_public_key
down_first = refl

first-Waits :
    (j : ℕ) → 1 ≤ j → j < 2 → Waits three_attempts lagging "3607749779137757184" "oracle" j
first-Waits j lo hi = let one : j ≡ 1 = omega arith in rw one (no_key rpc_error down_first refl)

run_boot_checks-passes_example :
    (run_boot_checks three_attempts lagging "3607749779137757184" "oracle" 3 accepting).0.ok ≡ true
run_boot_checks-passes_example =
    run_boot_checks-passes three_attempts lagging "3607749779137757184" "oracle" 3 2 key_2 accepting
      [] (omega arith) (omega arith) first-Waits active_key index_3 refl

pub boot_ok :
    (run_boot_checks three_attempts lagging "3607749779137757184" "oracle" 3 accepting).0.ok ≡ true
unfolding run_boot_checks fetch_active_public_key fetch_oracle_index
boot_ok = refl

run_boot_checks-Confirmed_example :
    Confirmed three_attempts lagging "3607749779137757184" "oracle" 3 accepting
      (run_boot_checks three_attempts lagging "3607749779137757184" "oracle" 3 accepting).0
run_boot_checks-Confirmed_example =
    run_boot_checks-Confirmed three_attempts lagging "3607749779137757184" "oracle" 3 accepting
      boot_ok

run_boot_checks-Bounded_example :
    Bounded three_attempts 2
      (run_boot_checks three_attempts lagging "3607749779137757184" "oracle" 3 accepting).1
run_boot_checks-Bounded_example =
    run_boot_checks-Bounded three_attempts lagging "3607749779137757184" "oracle" 3 accepting

abbrev flaky : ℕ → Met
flaky n =
    if n == 0
    then failed (some "ECONNRESET") false
    else if n == 1
    then response 503
    else response 200

fetch_with_retry-Explained_example : Explained 5 flaky 0 (fetch_with_retry 5 flaky)
fetch_with_retry-Explained_example = fetch_with_retry-Explained 5 flaky (omega arith)

-- ===== src/Tests/Serving.antt =====
-- lib/config/configLoader.js and the HTTP interface at concrete inputs.
use wax_rng_oracle.Prelude.{
  ℕ, String, ◌≡◌, refl, Bool, true, false, not, Option, none, some, [], ◌∷◌, ok, threw, eos_error,
  text_eq, if◌then◌else◌,
}
use wax_rng_oracle.ConfigLoader.{Environment, Failed, gives, missing, there, Calls, load_all}
use wax_rng_oracle.ConfigLoader.Once.{OneConfig, load_all-OneConfig}
use wax_rng_oracle.BootChecks.{Status, started, run_boot_checks}
use wax_rng_oracle.Http.{
  Server, Response, jobs_request, job_request, health_request, respond, health_body, get_status,
  get_boot_check_status,
}
use wax_rng_oracle.Http.Answers.{is_accepted, expected, status_of, respond-Judged}
use wax_rng_oracle.Http.Health.{respond-Confirmed}
use wax_rng_oracle.BootChecks.Sound.{Confirmed}
use wax_rng_oracle.Tests.Boot.{three_attempts, lagging, accepting, boot_ok}
use wax_rng_oracle.Tests.Fixtures.{first_job}

abbrev open_source : Environment
open_source = record {
  secrets_manager_secret_id = some "  ";
  encrypted_keys = none;
  wax_config_require_resolution = none;
}

abbrev custody : Environment
custody = record open_source { encrypted_keys = some "AQIC" }

abbrev absent : Failed
absent = record {
  code = some "MODULE_NOT_FOUND";
  message = "Cannot find module '@waxio/wax-config'";
}

abbrev broken : Failed
broken = record { code = some "MODULE_NOT_FOUND"; message = "Cannot find module 'import-fresh'" }

-- A broken install, a deployment with secrets, and one without, one after another.
abbrev calls : Calls ℕ
calls =
    (open_source, (missing broken, gives 7))
    ∷ (custody, (missing absent, gives 7))
    ∷ (open_source, (missing absent, gives 7))
    ∷ (custody, (there (gives 9), gives 8))
    ∷ []

load_all-OneConfig_example : OneConfig calls (load_all calls none)
load_all-OneConfig_example = load_all-OneConfig calls

-- A validator that takes the texts but -1.
abbrev toy_is_int : Option String → Bool
toy_is_int none = false
toy_is_int (some t) = not (text_eq t "-1")

abbrev passed : Status
passed = record started { ok = true; active_ver = some 2 }

abbrev server : Server
server = record {
  paged = λ from limit. ok (first_job ∷ []);
  find = λ id. threw eos_error;
  eos = true;
  last_status = passed;
  version = "1.0.0";
}

respond-Judged_example :
    (status_of (respond toy_is_int server (jobs_request (some "0") none)) ≡ (
      if is_accepted toy_is_int (jobs_request (some "0") none)
      then expected server (jobs_request (some "0") none)
      else some 400))
    × (is_accepted toy_is_int (jobs_request (some "0") none) ≡ false
        → (v' : Server)
        → respond toy_is_int server (jobs_request (some "0") none)
          ≡ respond toy_is_int v' (jobs_request (some "0") none))
respond-Judged_example = respond-Judged toy_is_int server (jobs_request (some "0") none)

lost_node : status_of (respond toy_is_int server (job_request "18")) ≡ some 500
unfolding respond
lost_node = (respond-Judged toy_is_int server (job_request "18")).0

-- The server after the boot checks that pass on their second attempt.
abbrev checked_server : Server
checked_server = record server {
  last_status =
      (run_boot_checks three_attempts lagging "3607749779137757184" "oracle" 3 accepting).0;
}

abbrev answer : Response
answer = get_status true (some (get_boot_check_status checked_server.last_status))

answered : respond toy_is_int checked_server health_request ≡ ok answer
unfolding respond
answered = refl

answered_200 : answer.status ≡ 200
unfolding get_status get_boot_check_status
answered_200 = rw boot_ok refl

respond-Confirmed_example :
    (true ≡ true)
    × ((p : Confirmed three_attempts lagging "3607749779137757184" "oracle" 3 accepting
          checked_server.last_status)
        × (answer.body
            ≡ health_body (record {
              healthy = true;
              eos = true;
              boot_check = some (record (get_boot_check_status checked_server.last_status) {
                active_ver = some p.public_key.ver;
              });
            })))
respond-Confirmed_example =
    respond-Confirmed toy_is_int checked_server three_attempts lagging "3607749779137757184"
      "oracle" 3 accepting answer refl answered answered_200

-- ===== src/Tests/Checks.antt =====
-- The start of a process (index.js), the dry run (lib/checkConfig.js), the service behind both
-- (lib/shareKeyService.js) and the storage's promise, at concrete inputs: a member with a staged share.
use wax_rng_oracle.Prelude.{
  String, ◌≡◌, refl, true, false, none, some, inr, List, [], ◌∷◌, ◌++◌, arith, any, length, trim,
}
use wax_rng_oracle.BootChecks.{Verified, checked, run_boot_checks}
use wax_rng_oracle.BootChecks.Rows.{PublicKey, fetch_active_public_key, fetch_oracle_index}
use wax_rng_oracle.ShareKey.{codes}
use wax_rng_oracle.ShareKey.Redaction.{redact_value_echo, redact_value_echo-hides}
use wax_rng_oracle.ShareKey.Service.{
  ShareConfig, Parameters, Library, new_service, initialize, is_ready, verify_consistency, parsed,
  parse_int,
}
use wax_rng_oracle.ShareKey.Service.Ready.{
  is_parsed, is_none, initialize_all, initialize_all-is_ready,
}
use wax_rng_oracle.CheckConfig.{Config, absent}
use wax_rng_oracle.CheckConfig.Shape.{Files}
use wax_rng_oracle.CheckConfig.Chain.{Info, Node}
use wax_rng_oracle.CheckConfig.Share.{Host, shares_configured, started_service, run_config_checks}
use wax_rng_oracle.CheckConfig.Agreement.{could_start, run_config_checks-boot}
use wax_rng_oracle.Storage.Cleared.{Call, job_failed_call, clear_failed_call, perform_all}
use wax_rng_oracle.Storage.History.{Represents, specify_all}
use wax_rng_oracle.Storage.Abstract.{so_far, perform_all-Represents, Represents-so_far}
use wax_rng_oracle.Storage.{init}
use wax_rng_oracle.Poller.{Member}
use wax_rng_oracle.Startup.{Setup, World, worker, polls, run, Round, ended, threw, poll}
use wax_rng_oracle.Startup.Repeated.{Apart, poll-Apart}
use wax_rng_oracle.Tests.Fixtures.{first_job, second_job, fresh, empty_file}
use wax_rng_oracle.Tests.Boot.{up, three_attempts}

abbrev calls : List Call
calls =
    job_failed_call 100 first_job none
    ∷ job_failed_call 200 second_job (some "parts")
    ∷ clear_failed_call (3 ∷ [])
    ∷ []

perform_all-Represents_example :
    Represents (specify_all calls (so_far fresh)) (perform_all calls fresh)
perform_all-Represents_example =
    perform_all-Represents calls (so_far fresh) fresh (Represents-so_far fresh)

redact_value_echo-hides_example :
    redact_value_echo (codes "Invalid s_i: hex; expected" ++ (codes "; got " ++ codes "1f2e"))
    ≡ redact_value_echo (codes "Invalid s_i: hex; expected" ++ (codes "; got " ++ codes "77"))
redact_value_echo-hides_example =
    redact_value_echo-hides (codes "Invalid s_i: hex; expected") (codes "1f2e") (codes "77")

abbrev staged : ShareConfig
staged = record {
  public_key = some (record { n = "c5"; e = "10001" });
  shared_key = some "1f";
  verification_key = some "2a";
  share_index = some "3";
  verification_key_share = some "4b";
  vku = some "5c";
  threshold = some "2";
  num_parties = some "3";
  bits = some "4096";
}

abbrev library : Library
library = record {
  new_share = λ c p. none;
  parse_big_integer = λ k. inr 197;
  new_verifier = λ c p. none;
}

abbrev throwing : Library
throwing = record {
  new_share = λ c p. some (codes "too short");
  parse_big_integer = λ k. inr 197;
  new_verifier = λ c p. none;
}

abbrev consistent : Parameters → PublicKey → Verified
consistent p k = checked true []

index_parses : is_parsed (parsed (some "3")) ≡ true
unfolding parse_int
index_parses = refl

initialize_all-is_ready_example :
    is_ready (initialize_all (throwing ∷ library ∷ throwing ∷ []) (new_service staged))
    ≡ any (λ l. is_none (initialize l (new_service staged)).0) (throwing ∷ library ∷ throwing ∷ [])
initialize_all-is_ready_example =
    initialize_all-is_ready staged (throwing ∷ library ∷ throwing ∷ []) index_parses

abbrev info : Info
info = record { head_age = some 1; chain_id = some "aa" }

abbrev node : Node
node = record { get_info = some info; rows = up; get_account = λ name. none }

abbrev config : Config
config = record {
  chain_id = some "aa";
  api_url = some "https://wax.example";
  node_owner = some "oracle";
  contract_name = some "orng.wax";
  auth = some "oracle";
  private_key = none;
  db_file = none;
  slack_webhook = none;
  max_cpu = some 100;
  threshold = some 2;
  num_parties = some 3;
  bits = some 4096;
  share_index = some 3;
  express_port = none;
  metrics_port = some 9090;
  express_enable = absent;
  cluster_mode = absent;
  read_only_mode = absent;
  share_key = staged;
}

abbrev plain : String → String
plain t = t

abbrev files : Files
files = record {
  resolve = plain;
  directory = plain;
  exists = λ p. true;
  is_writable = λ p. true;
  as_root = false;
}

abbrev host : Host
host = record {
  env = some "production";
  protocol = λ url. some "https:";
  files = files;
  derive = λ k. none;
  normalise = plain;
  version_key = "3607749779137757184";
  node = node;
  library = library;
  consistency = consistent;
}

six_set : (shares_configured staged).0 ≡ 6
unfolding shares_configured trim
six_set = refl

none_missing : (shares_configured staged).1 ≡ 0
unfolding shares_configured trim
none_missing = refl

starts : (started_service library consistent config).0 ≡ none
unfolding initialize new_service
starts = refl

run_config_checks-boot_example :
    could_start (run_config_checks host config)
    ≡ (run_boot_checks three_attempts
        (λ n. up)
        "3607749779137757184"
        "oracle"
        3
        (verify_consistency consistent (started_service library consistent config).1)).0.ok
unfolding trim
run_config_checks-boot_example =
    run_config_checks-boot host config three_attempts info 3 "oracle" refl refl refl refl six_set
      none_missing starts (omega arith)

abbrev pub setup : Setup
setup = record {
  node_env = some "production";
  share_key = staged;
  node_owner = "oracle";
  boot_check = three_attempts;
  threshold = 2;
  max_retries = 5;
  process_modulus = none;
  total_process = none;
  express_enable = absent;
  cluster_mode = absent;
  read_only_mode = absent;
  is_primary = true;
  cpus = 4;
}

abbrev pub world : World
world = record {
  library = library;
  consistency = consistent;
  rpc = λ n. up;
  version_key = "3607749779137757184";
  file = some empty_file;
}

abbrev pub polling : Member
polling = record {
  owner = "oracle";
  active_key_version = some 2;
  combine_alert_interval = 60000;
  threshold = 2;
  combine_threshold = 2;
  key_modulus = 197;
}

pub runs : run setup world ≡ worker false polls polling fresh
unfolding run initialize new_service run_boot_checks fetch_active_public_key fetch_oracle_index
    verify_consistency init
runs = refl

abbrev rounds : List Round
rounds = ended 120 ∷ threw 50 ∷ ended 900 ∷ []

starts_at : poll 300 1000 rounds ≡ 1000 ∷ 1300 ∷ 1650 ∷ 2550 ∷ []
unfolding poll
starts_at = refl

poll-Apart_example : (length (poll 300 1000 rounds) ≡ 4) × Apart 300 (threw 50) 1300 1650
unfolding poll
poll-Apart_example = poll-Apart 300 1000 rounds 1 (threw 50) 1300 1650 refl refl refl

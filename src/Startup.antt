-- ===== src/Startup.antt =====
-- index.js: how a process starts, and how it repeats its polls. `run` is the sequence of its steps; a
-- step that throws ends the process, by the `catch` of its call.
pub mod Vetted
pub mod Signing
pub mod Interleaving
pub mod Repeated
pub mod Forked
use Prim.Native.String.{◌++◌}
use wax_rng_oracle.Prelude.{
  ℕ, zero, suc, ◌+◌, ◌-◌, ◌*◌, String, Bool, true, false, not, ◌&&◌, Option, none, some, List, [],
  ◌∷◌, ◌==◌, leb, text_eq, if◌then◌else◌, decimal, any,
}
use wax_rng_oracle.BootChecks.{Status, Verified, Settings, run_boot_checks}
use wax_rng_oracle.BootChecks.Rows.{Rpc, PublicKey}
use wax_rng_oracle.ShareKey.Service.{
  Parsed, not_a_number, minus, plus, ShareConfig, Parameters, Failure, Library, Service,
  new_service, initialize, verify_consistency,
}
use wax_rng_oracle.CheckConfig.{Setting, is_true}
use wax_rng_oracle.Storage.{DbFile, Storage, init}
use wax_rng_oracle.Model.{Job}
use wax_rng_oracle.Poller.{Member, State, Outside}
use wax_rng_oracle.Poller.SetPart
use wax_rng_oracle.Poller.Execute

-- The environment and the configuration.
pub record Setup : Type 0 where
  pub node_env : Option String
  pub share_key : ShareConfig
  pub node_owner : String
  pub boot_check : Settings
  pub threshold : ℕ
  pub max_retries : ℕ
  pub process_modulus : Option ℕ
  pub total_process : Option ℕ
  pub express_enable : Setting
  pub cluster_mode : Setting
  pub read_only_mode : Setting
  pub is_primary : Bool
  pub cpus : ℕ

-- The library, the node, the text of `nameToUint64('activever')`, and the file behind the storage, `none`
-- if it cannot be read.
pub record World : Type 0 where
  pub library : Library
  pub consistency : Parameters → PublicKey → Verified
  pub rpc : ℕ → Rpc
  pub version_key : String
  pub file : Option DbFile

pub data Poll : Type 0 where
  clear_resolved_failures clear_resolved_delivery_failures : Poll
  poll_jobs_to_set_part poll_jobs_to_execute poll_job_to_retry_deliver : Poll
  monitor_pending_job cleanup_delivered : Poll

-- The environment of a forked worker: `DB`, `PROCESS_MODULUS` and `TOTAL_PROCESS`.
pub record Worker : Type 0 where
  pub db : String
  pub process_modulus : ℕ
  pub total_process : ℕ

-- How `run` ends: the process exits with 1, or it is the primary of the forked workers, or it serves
-- HTTP or not and polls, each with its pause in ms.
pub data Startup : Type 0 where
  fatal : Startup
  primary : List Worker → Startup
  worker : (serving : Bool) → List (Poll × ℕ) → Member → Storage → Startup

-- `assertRuntimeEnv` throws.
abbrev pub is_test_env : Option String → Bool
is_test_env none = false
is_test_env (some env) = text_eq env "test"

abbrev pub polls : List (Poll × ℕ)
polls =
    (clear_resolved_failures, 20000)
    ∷ (clear_resolved_delivery_failures, 20000)
    ∷ (poll_jobs_to_set_part, 300)
    ∷ (poll_jobs_to_execute, 1000)
    ∷ (poll_job_to_retry_deliver, 5000)
    ∷ (monitor_pending_job, 10000)
    ∷ (cleanup_delivered, 1 * 24 * 60 * 60 * 1000)
    ∷ []

abbrev pub db_name : ℕ → String
db_name i = "db-" ++ decimal i ++ ".json"

-- The `fork` loop, with `left` rounds left from `i` on.
forked_from : ℕ → ℕ → ℕ → List Worker
forked_from zero i total = []
forked_from (suc left) i total =
    record { db = db_name i; process_modulus = i; total_process = total }
    ∷ forked_from left (i + 1) total

unfoldable pub forked : ℕ → List Worker
unfolding forked_from
forked cpus = forked_from cpus 0 cpus

-- `initialize` sets the modulus before it succeeds.
abbrev modulus_of : Option ℕ → ℕ
modulus_of none = 0
modulus_of (some n) = n

-- The `threshold` of the service, which `initialize` sets to a number that is not NaN. A negative
-- one holds back nothing.
abbrev natural : Parsed → ℕ
natural (plus n) = n
natural _ = 0

abbrev threshold_of : Option Parameters → ℕ
threshold_of none = 0
threshold_of (some p) = natural p.threshold

-- The constructor of the poller, with `activeKeyVersion` and the default alert interval.
unfoldable pub new_poller : Setup → Service → Option ℕ → Member
new_poller s service active_ver = record {
  owner = s.node_owner;
  active_key_version = active_ver;
  combine_alert_interval = 60 * 1000;
  threshold = s.threshold;
  combine_threshold = threshold_of service.parameters;
  key_modulus = modulus_of service.modulus;
}

abbrev pub launch : Setup → Member → Storage → Startup
launch s m db =
    if is_true s.cluster_mode && s.is_primary
    then primary (forked s.cpus)
    else worker (is_true s.express_enable) (if not (is_true s.read_only_mode) then polls else []) m
        db

-- The job service refuses the index 0.
abbrev pub with_storage : Setup → Member → ℕ → Option DbFile → Startup
with_storage s m share_index none = fatal
with_storage s m share_index (some file) =
    if share_index == 0
    then fatal
    else launch s m (init s.max_retries file s.process_modulus s.total_process)

abbrev pub after_boot : Setup → World → Service → ℕ → Status → Startup
after_boot s w service share_index status =
    if not status.ok
    then fatal
    else with_storage s (new_poller s service status.active_ver) share_index w.file

-- The boot checks fail for an index that is no natural number, since it differs from every index that
-- the chain holds.
abbrev pub with_index : Setup → World → Service → Option Parameters → Startup
with_index s w service none = fatal
with_index s w service (some p) = elim p.share_index [
  | not_a_number ↦ fatal
  | minus n ↦ fatal
  | plus i ↦
      after_boot s w service i
        (run_boot_checks s.boot_check w.rpc w.version_key s.node_owner i
          (verify_consistency w.consistency service)).0
]

abbrev pub with_service : Setup → World → Option Failure × Service → Startup
with_service s w (some failure, service) = fatal
with_service s w (none, service) = with_index s w service service.parameters

unfoldable pub run : Setup → World → Startup
unfolding is_true new_poller forked
run s w =
    if is_test_env s.node_env
    then fatal
    else with_service s w (initialize w.library (new_service s.share_key))

-- The first lines of index.js: `--check-config` among the arguments runs scripts/check-config.js in
-- place of the service.
pub data Dispatch : Type 0 where
  dry_run service : Dispatch

unfoldable pub dispatch : List String → Dispatch
dispatch argv = if any (text_eq "--check-config") argv then dry_run else service

-- What the handlers at the end of `run` hear of: a worker that died, which only the primary hears of,
-- and an error that nothing caught.
pub data Incident : Type 0 where
  worker_exit uncaught_exception unhandled_rejection : Incident

-- The exit code, if the process ends by it.
unfoldable pub exit_on : Startup → Incident → Option ℕ
exit_on (worker serving ps m db) worker_exit = none
exit_on process incident = some 1

-- A round of a poll lasted that long and ended, or threw; the duration stays 0 when it threw.
pub data Round : Type 0 where
  ended threw : ℕ → Round

abbrev pub lasts : Round → ℕ
lasts (ended ms) = ms
lasts (threw ms) = ms

abbrev pub pause_after : ℕ → Round → ℕ
pause_after time (ended ms) = time - ms
pause_after time (threw ms) = time

-- `poll`: when its rounds start, the first at `now`, if a timer fires when it is due.
unfoldable pub poll : ℕ → ℕ → List Round → List ℕ
poll time now [] = now ∷ []
poll time now (r ∷ rs) = now ∷ poll time (now + lasts r + pause_after time r) rs

-- The fields of a new poller, with the storage of the process.
abbrev pub first_state : Storage → State
first_state db = record {
  db = db;
  skipped_versions = [];
  last_post_at = 0;
  suppressed = 0;
  pushed = [];
  events = [];
}

-- A round of one of the two polls of jobs, with the jobs that it loads.
pub data Turn : Type 0 where
  signing executing : List Job → Turn

-- Rounds, each over before the next begins.
unfoldable pub take_turns : Member → Outside → List Turn → State → State
take_turns m o [] s = s
take_turns m o (signing jobs ∷ ts) s =
    take_turns m o ts (SetPart.poll_jobs_to_set_part m o jobs s).state
take_turns m o (executing jobs ∷ ts) s =
    take_turns m o ts (Execute.poll_jobs_to_execute m o jobs s).state

-- ===== src/Lib.antt =====
-- The random number oracle of the WAX network, as one member of a threshold group runs it.
--
-- A member polls the tables of the contract `orng.wax`. For each request it signs a message with its
-- share of the key and submits the partial signature; once a request has enough parts, it combines
-- them and sets the random number; and it delivers again what could not be delivered. Failures are
-- kept in a storage, which says when a job is tried again.
--
-- Files and what they model:
--   Model.antt       rows of the tables `reqs` and `undelivered1`
--   Dict.antt        the objects of failure records, by id
--   Storage.antt     lib/storage.js: `job_failed` is jobFailed, `should_execute_job` shouldExecuteJob,
--                    and so on; Storage/Fingerprint.antt is partsFingerprint, and
--                    Storage/History.antt the history of failures that it implements
--   Shuffle.antt     lib/utils/shuffle.js
--   JobService.antt  lib/jobService.js: paging through a table, the tests of a job, the shuffle of what
--                    was found, and the clearing of records that are resolved
--   Contract.antt    lib/config/eos.js: the transaction that each method builds
--   RngPusher.antt   lib/rngPusher.js: pushing an action and reading the answer
--   ShareKey.antt    lib/shareKeyService.js: screening and combining parts; ShareKey/Message.antt is
--                    make_msg, ShareKey/Signing.antt sign with its checks,
--                    ShareKey/Redaction.antt redactValueEcho, and ShareKey/Service.antt the life of
--                    the service: its constructor, validateShareConfig, initialize, getStatus, isReady
--                    and verifyConsistency
--   Poller.antt      lib/poller.js: its state and the throttled alert; Poller/SetPart.antt,
--                    Poller/Execute.antt, Poller/Deliver.antt and Poller/Alerts.antt are its polls
--   BootChecks.antt  lib/bootChecks.js: the reads, the loop of attempts and the verdict
--   FetchRetry.antt  lib/config/fetchRetry.js: the loop of attempts
--   CheckConfig.antt lib/checkConfig.js, the dry run, and scripts/check-config.js: the report;
--                    CheckConfig/Shape.antt is checkRuntime, checkShape and checkSigningKey,
--                    CheckConfig/Chain.antt checkChain, CheckConfig/Share.antt checkShare and
--                    runConfigChecks; `is_true` is isTrue of lib/config/utils.js
--   Interleaved.antt the polls as they interleave: Interleaved/Parts.antt, Interleaved/Results.antt,
--                    Interleaved/Deliveries.antt and Interleaved/Clearing.antt run each from one `await`
--                    to the next, and Interleaved/System.antt is the process, whose steps pick a poll
--                    Interleaved/Calls.antt says which method of the storage a step performs
--   ConfigLoader.antt lib/config/configLoader.js: loadConfig
--   Http.antt        lib/app.js, lib/routes/index.js, lib/controller and lib/middleware, and
--                    getBootCheckStatus of lib/bootChecks.js
--   Startup.antt     index.js: the dispatch by its arguments, `run` up to the polls, the forked workers,
--                    `poll`, and which incident ends a process
--   DepFloors.antt   scripts/check-dep-floors.js: parseVersion, compareVersions and checkFloors;
--                    DepFloors/Installed.antt is listPackageDirs and findInstalledCopies
--   Prelude.antt     shared lists, texts, tests and results; Tests.antt the theorems at inputs
--
-- How they interact: a poll takes the jobs that JobService selects by the storage, passes each to
-- ShareKey and RngPusher, and writes failures back to the storage. A poll is a function from a state
-- (the storage, the poller's fields, the actions pushed so far, the events counted and posted) to a
-- state; and, in Interleaved, a sequence of steps on that state with what the poll holds while it waits,
-- between which the other polls take theirs. The two are related in Interleaved/PartsAlone.antt and
-- Interleaved/ResultsAlone.antt, by what a poll does when it goes on alone. A read of the job service
-- that throws ends the poll with it. What the code throws is a value of the result. The start of a
-- process initializes the service of the share, runs the boot checks with it, and hands the version
-- of the key that they saw to the poller; the dry run makes the same reads and the same comparison
-- without starting anything.
--
-- Parameters, with what is assumed of them where a theorem needs it: the chain's answer to each
-- pushed action, which may depend on all that was pushed before, nothing assumed; `get_table_rows`,
-- which gives the rows of a table from a key on, page by page (JobService/Paging.antt); SHA-256, which
-- never gives the empty text; the threshold library, nothing assumed; the rows that the node shows to
-- each attempt of the boot checks; what each attempt of a request meets; the clock; what the threshold
-- library's constructors and its parser return or throw; the parser of URLs, the file system and the
-- derivation of a public key that the dry run calls; the file system of the installed packages, with
-- the version that a package.json states; and `Math.floor(x * n)` of the generator's float x, which is
-- below n; what `require` and the two libraries of configuration do; and express-validator's judgement
-- of a value.
--
-- Bounds: numbers are natural numbers; those of the source stay below 2^53 and are exact there.
-- The loops over pages take fuel, and more fuel than the table has rows is enough. The loops over
-- attempts recur on the number of attempts that are left. The walk through the installed packages takes
-- fuel for its depth, and one more than there are real paths of directories is enough.
--
-- Not modelled: the waits inside the load of a poll's rows (a load is one step, and gives any rows that
-- the chain lists), and the microtasks between a push and its request; writing the storage's file, log
-- lines, gauges and the texts of Slack posts; the texts of the dry run's details and formatReport; the
-- pages that the server sends and the matching of routes, which is express's; pushActions of
-- lib/config/eos.js, which has no caller; the user interface and the benchmark.
mod Prelude
pub mod Dict
pub mod Model
pub mod Storage
pub mod Shuffle
pub mod JobService
pub mod Contract
pub mod RngPusher
pub mod ShareKey
pub mod Poller
pub mod BootChecks
pub mod FetchRetry
pub mod CheckConfig
pub mod Startup
pub mod Interleaved
pub mod ConfigLoader
pub mod Http
pub mod DepFloors
mod Tests

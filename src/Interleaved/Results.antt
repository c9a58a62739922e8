-- ===== src/Interleaved/Results.antt =====
-- `pollJobsToExecute` of lib/poller.js with `jobFailed` of lib/storage.js, from `await` to `await`.
pub mod Kept
pub mod Caught
pub mod Follow
use mathlib.Core.List.{Memᴰ}
use wax_rng_oracle.Prelude.{
  ℕ, String, Bool, true, false, not, ◌&&◌, Option, none, some, List, [], ◌∷◌, ltb, if◌then◌else◌,
  includes, text_eq, length, All,
}
use wax_rng_oracle.Dict.{Dict, lookup, put}
use wax_rng_oracle.Model.{Job}
use wax_rng_oracle.Contract.{setrand, markfailed}
use wax_rng_oracle.RngPusher.{
  RpcJson, no_error, no_detail, detail, Thrown, rpc, type_error, other, Answer, Pushed, sent,
  refused, silent, threw, refuse, setrand_refusals, markfailed_refusals,
}
use wax_rng_oracle.ShareKey.{Combined, combined, combine_error, combine_threw}
use wax_rng_oracle.Storage.{Failure, Storage, failure_after}
use wax_rng_oracle.Storage.Fingerprint.{parts_fingerprint}
use wax_rng_oracle.Poller.{
  State, Member, Outside, count, post, push, post_combine_alert, is_known_key_version,
  job_collision, executed_job, combine_failed, execute_failed, markfail_failed,
}
use wax_rng_oracle.Poller.SetPart.{message}
use wax_rng_oracle.Poller.Execute.{combination, usable, log_combine_diagnostics}

-- What the `catch` block has caught: a combine error, or another with the final signature if it was
-- there already.
pub data Trouble : Type 0 where
  uncombined : Trouble
  crash : Option String → Thrown → Trouble

-- What the poll waits for, with the jobs that are left.
pub data ResultPc : Type 0 where
  -- the jobs of its next round; what the last round threw
  resting : Option Thrown → ResultPc
  -- the answer to `setrand` with this signature
  sending : String → Job → List Job → ResultPc
  -- `await failures[job.id]`, with what was read
  recalling : Trouble → Job → List Job → Option Failure → ResultPc
  -- `db.write()` of `jobFailed`
  writing : Trouble → Job → List Job → ResultPc
  -- the answer to `markfailed`
  marking : List Job → ResultPc
  -- the post after `markfailed` failed
  mark_posting : List Job → ResultPc
  -- the post after which the loop goes on
  posting : List Job → ResultPc

-- The `try` block up to the push: `continue`, an error, or a signature to push.
pub data Begun : Type 0 where
  passes : Begun
  stops : Trouble → Begun
  sends : String → Begun

abbrev pub use_combination : Combined → Begun
use_combination (combined signature d) = if text_eq signature "" then passes else sends signature
use_combination (combine_error code rejected) = stops uncombined
use_combination combine_threw = stops (crash none (other "combine"))

abbrev pub use_hash : Member → Outside → Job → Option String → Begun
use_hash m o job none = stops (crash none (other "make_msg"))
use_hash m o job (some hash) =
    if ltb (length job.parts) m.threshold
    then passes
    else use_combination (combination m o job hash)

-- `logCombineDiagnostics` runs as soon as the parts are combined.
abbrev pub log_combination : Combined → State → State
log_combination (combined signature d) s = log_combine_diagnostics d s
log_combination _ s = s

abbrev pub log_hash : Member → Outside → Job → Option String → State → State
log_hash m o job none s = s
log_hash m o job (some hash) s =
    if ltb (length job.parts) m.threshold then s else log_combination (combination m o job hash) s

-- `jobFailed` reads the record before its first wait.
abbrev pub recall : Trouble → Job → List Job → State → ResultPc × State
recall t job jobs s = (recalling t job jobs (lookup job.id s.db.failures), s)

abbrev pub act : Member → Job → List Job → ResultPc × State → Begun → State → ResultPc × State
act m job jobs rest passes s = rest
act m job jobs rest (stops t) s = recall t job jobs s
act m job jobs rest (sends signature) s =
    (sending signature job jobs, push (setrand m.owner job.id job.ver signature) s)

-- The loop, to its next wait.
unfoldable pub next_result : Member → Outside → List Job → State → ResultPc × State
next_result m o [] s = (resting none, s)
next_result m o (job ∷ jobs) s =
    let (known, s1) = is_known_key_version m job s in
    let logged = if known then log_hash m o job (message o job) s1 else s1 in
    let rest = next_result m o jobs logged in
    let acted = act m job jobs rest (use_hash m o job (message o job)) logged in
    if known then acted else rest

abbrev pub after_send :
    Member → Outside → String → Job → List Job → Pushed → State → ResultPc × State
after_send m o signature job jobs (threw e) s = recall (crash (some signature) e) job jobs s
after_send m o signature job jobs _ s = next_result m o jobs (count executed_job s)

abbrev pub meta_of : Outside → Job → Trouble → Option String
meta_of o job uncombined = some (parts_fingerprint o.sha256 job.parts)
meta_of o job (crash signature e) = none

-- The record that was read is changed in place. It may have been deleted since, and is in the
-- storage no more then; no other poll puts a record of a job.
abbrev pub change_in_place : ℕ → Job → Option String → Option Failure → Dict Failure → Dict Failure
change_in_place now job meta none failures = failures
change_in_place now job meta (some f) failures =
    put job.id (failure_after now job meta (some f)) failures

abbrev pub remember : ℕ → Job → Option String → Option Failure → Dict Failure → Dict Failure
remember now job meta none failures = put job.id (failure_after now job meta none) failures
remember now job meta (some f) failures =
    change_in_place now job meta (lookup job.id failures) failures

abbrev pub recalled :
    Outside → ℕ → Trouble → Job → List Job → Option Failure → State → ResultPc × State
recalled o now t job jobs found s =
    let failures = remember now job (meta_of o job t) found s.db.failures in
    (writing t job jobs, record s { db = record s.db { failures = failures } })

abbrev pub give_up : List Job → State → ResultPc × State
give_up jobs s = (posting jobs, post (count execute_failed s))

abbrev pub mark_lost : List Job → State → ResultPc × State
mark_lost jobs s = (mark_posting jobs, post (count markfail_failed s))

abbrev pub catch_rpc :
    Member → Outside → Failure → List Job → Option String → RpcJson → State → ResultPc × State
catch_rpc m o f jobs signature no_error s = (resting (some type_error), s)
catch_rpc m o f jobs none no_detail s = give_up jobs s
catch_rpc m o f jobs (some signature) no_detail s =
    if usable signature then mark_lost jobs s else give_up jobs s
catch_rpc m o f jobs none (detail text) s =
    if includes text "no request found"
    then next_result m o jobs (count job_collision s)
    else give_up jobs s
catch_rpc m o f jobs (some signature) (detail text) s =
    if includes text "no request found"
    then next_result m o jobs (count job_collision s)
    else if usable signature && not (text_eq text "")
    then (marking jobs, push (markfailed m.owner f.id f.ver signature text) s)
    else give_up jobs s

abbrev pub catch_thrown :
    Member → Outside → Failure → List Job → Option String → Thrown → State → ResultPc × State
catch_thrown m o f jobs signature (rpc j) s = catch_rpc m o f jobs signature j s
catch_thrown m o f jobs signature _ s = give_up jobs s

-- `jobFailed` returns what stands under the id after the write; a read of its `id` throws if there is
-- nothing. A combine error needs no record.
abbrev pub written :
    Member → Outside → ℕ → Trouble → List Job → Option Failure → State → ResultPc × State
written m o now uncombined jobs f s =
    (posting jobs, (post_combine_alert m now (count execute_failed (count combine_failed s))).1)
written m o now (crash signature e) jobs none s = (resting (some type_error), s)
written m o now (crash signature e) jobs (some f) s = catch_thrown m o f jobs signature e s

abbrev pub after_marking : List Job → Pushed → State → ResultPc × State
after_marking jobs (threw e) s = mark_lost jobs s
after_marking jobs _ s = give_up jobs s

-- How a wait ends: the jobs are loaded, all of them listed on the chain, or the load throws; any
-- answer comes; a read, a write or a post ends, at any time.
pub data ResultMove (m : Member) (o : Outside) (listed : List Job) (s : State)
    : ResultPc → ResultPc × State → Type 0 where
  loaded :
      {last : Option Thrown} (jobs : List Job)
      → All (λ job. Memᴰ job listed) jobs
      → ResultMove m o listed s (resting last) (next_result m o jobs s)
  not_loaded :
      {last : Option Thrown} (e : Thrown)
      → ResultMove m o listed s (resting last) (resting (some e), s)
  answers :
      {signature : String} {job : Job} {jobs : List Job} (a : Answer)
      → ResultMove m o listed s
          (sending signature job jobs)
          (after_send m o signature job jobs (refuse setrand_refusals a) s)
  reads :
      {t : Trouble} {job : Job} {jobs : List Job} {found : Option Failure} (now : ℕ)
      → ResultMove m o listed s (recalling t job jobs found) (recalled o now t job jobs found s)
  writes :
      {t : Trouble} {job : Job} {jobs : List Job} (now : ℕ)
      → ResultMove m o listed s
          (writing t job jobs)
          (written m o now t jobs (lookup job.id s.db.failures) s)
  is_marked :
      {jobs : List Job} (a : Answer)
      → ResultMove m o listed s (marking jobs) (after_marking jobs (refuse markfailed_refusals a) s)
  mark_is_posted : {jobs : List Job} → ResultMove m o listed s (mark_posting jobs) (give_up jobs s)
  is_posted : {jobs : List Job} → ResultMove m o listed s (posting jobs) (next_result m o jobs s)

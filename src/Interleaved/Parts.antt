-- ===== src/Interleaved/Parts.antt =====
-- `pollJobsToSetPart` of lib/poller.js from `await` to `await`.
pub mod Kept
use mathlib.Core.List.{Memᴰ}
use wax_rng_oracle.Prelude.{
  ℕ, String, Bool, true, false, Option, none, some, List, [], ◌∷◌, if◌then◌else◌, hexadecimal, All,
}
use wax_rng_oracle.Model.{Job}
use wax_rng_oracle.Contract.{submitpart}
use wax_rng_oracle.RngPusher.{Thrown, Answer, refuse, submit_refusals}
use wax_rng_oracle.ShareKey.Signing.{SignResult}
use wax_rng_oracle.Poller.{
  State, Member, Outside, count, post, push, is_known_key_version, set_part_failed,
}
use wax_rng_oracle.Poller.SetPart.{
  Round, skipped, success, failure, breaks, throws, unsignable, message, signed, after_attempt,
  catch_part,
}

-- What the poll waits for, with the jobs that are left.
pub data PartPc : Type 0 where
  -- the jobs of its next round; what the last round threw
  resting : Option Thrown → PartPc
  -- `shareKeyService.sign` of the job's message
  signing : Job → List Job → PartPc
  -- the answer to `submitpart`
  sending : List Job → PartPc
  -- a post to Slack
  posting : List Job → PartPc

-- An error that is no `RpcError`: counted and posted.
abbrev pub part_lost : List Job → State → PartPc × State
part_lost jobs s = (posting jobs, post (count set_part_failed s))

-- The message is made before the wait for its signature.
abbrev pub begin_message : Job → List Job → Option String → State → PartPc × State
begin_message job jobs none s = part_lost jobs s
begin_message job jobs (some hash) s = (signing job jobs, s)

abbrev pub begin_part : Outside → Job → List Job → State → PartPc × State
begin_part o job jobs s =
    if unsignable job then part_lost jobs s else begin_message job jobs (message o job) s

-- The loop, to its next wait.
unfoldable pub next_part : Member → Outside → List Job → State → PartPc × State
next_part m o [] s = (resting none, s)
next_part m o (job ∷ jobs) s =
    let (known, s1) = is_known_key_version m job s in
    let rest = next_part m o jobs s1 in
    let begun = begin_part o job jobs s1 in if known then begun else rest

-- With the signature, or what `sign` threw.
abbrev pub send_part : Member → Job → List Job → Option SignResult → State → PartPc × State
send_part m job jobs none s = part_lost jobs s
send_part m job jobs (some r) s =
    (sending jobs, push (submitpart m.owner job.id job.ver (hexadecimal r.signature_share)) s)

-- The end of a round of the loop; one that failed waits for its post.
abbrev pub part_over : Member → Outside → List Job → Round → PartPc × State
part_over m o jobs (skipped s) = next_part m o jobs s
part_over m o jobs (success s) = next_part m o jobs s
part_over m o jobs (failure s) = (posting jobs, s)
part_over m o jobs (breaks s) = (resting none, s)
part_over m o jobs (throws e s) = (resting (some e), s)

-- How a wait ends: the jobs are loaded, all of them listed on the chain, or the load throws; the
-- signature is there; any answer comes.
pub data PartMove (m : Member) (o : Outside) (listed : List Job) (s : State)
    : PartPc → PartPc × State → Type 0 where
  loaded :
      {last : Option Thrown} (jobs : List Job)
      → All (λ job. Memᴰ job listed) jobs
      → PartMove m o listed s (resting last) (next_part m o jobs s)
  not_loaded :
      {last : Option Thrown} (e : Thrown)
      → PartMove m o listed s (resting last) (resting (some e), s)
  signs :
      {job : Job} {jobs : List Job}
      → PartMove m o listed s
          (signing job jobs)
          (send_part m job jobs (signed m o (message o job)) s)
  answers :
      {jobs : List Job} (a : Answer)
      → PartMove m o listed s
          (sending jobs)
          (part_over m o jobs (after_attempt (refuse submit_refusals a) s))
  is_posted : {jobs : List Job} → PartMove m o listed s (posting jobs) (next_part m o jobs s)

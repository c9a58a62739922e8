-- ===== src/Poller/SetPart.antt =====
-- `pollJobsToSetPart` of lib/poller.js, from the jobs that `getJobsToProcess` gives.
pub mod Counts
pub mod Pushes
pub mod Kept
use wax_rng_oracle.Prelude.{
  ℕ, zero, suc, ◌+◌, String, Bool, true, false, not, ◌||◌, Option, none, some, List, [], ◌∷◌,
  if◌then◌else◌, includes, hexadecimal, text_eq,
}
use wax_rng_oracle.Model.{Job}
use wax_rng_oracle.Contract.{Action}
use wax_rng_oracle.RngPusher.{
  RpcJson, no_error, no_detail, detail, Thrown, rpc, type_error, other, Answer, Pushed, sent,
  refused, silent, threw, submit_partial_signature,
}
use wax_rng_oracle.ShareKey.{codes}
use wax_rng_oracle.ShareKey.Message.{from_hex, make_msg}
use wax_rng_oracle.ShareKey.Signing.{SignResult, sign}
use wax_rng_oracle.Poller.{
  Loading, with_rows, State, Member, Outside, Run, count, post, push, is_known_key_version,
  seeds_sent, job_collision, set_part_failed,
}

-- `getOrngContract().…`
abbrev pub push_to : Outside → Action → State → Answer × State
push_to o a s = (o.answer s.pushed a, push a s)

-- `!job.seed || job.nonce === undefined || job.nonce === null || !job.dapp`
abbrev nonce_missing : Option ℕ → Bool
nonce_missing none = true
nonce_missing (some n) = false

abbrev pub unsignable : Job → Bool
unsignable job = text_eq job.seed "" || (nonce_missing job.nonce || text_eq job.dapp "")

-- `job.nonce` where it is there: `BigInt(undefined)` throws.
abbrev message_of : Outside → Job → Option ℕ → Option String
message_of o job none = none
message_of o job (some nonce) = make_msg o.sha256_bytes o.name_to_uint64 job.seed job.dapp nonce

abbrev pub message : Outside → Job → Option String
message o job = message_of o job job.nonce

abbrev pub signed : Member → Outside → Option String → Option SignResult
signed m o none = none
signed m o (some hash) = sign m.key_modulus o.sign_message (from_hex (codes hash))

abbrev pub submitted : Member → Outside → Job → Option SignResult → State → Pushed × State
submitted m o job none s = (threw (other "not signed"), s)
submitted m o job (some r) s =
    submit_partial_signature (push_to o) job m.owner job.ver (hexadecimal r.signature_share) s

-- The `try` block, up to the push.
unfoldable pub attempt_part : Member → Outside → Job → State → Pushed × State
attempt_part m o job s =
    if unsignable job
    then (threw (other "Unable to sign without seed or nonce or dapp."), s)
    else submitted m o job (signed m o (message o job)) s

-- How a round of the loop ends: the job was skipped, counted as sent or as failed, the loop breaks,
-- or the `catch` block itself throws.
pub data Round : Type 0 where
  skipped success failure breaks : State → Round
  throws : Thrown → State → Round

abbrev pub count_failure : State → Round
count_failure s = failure (post (count set_part_failed s))

-- The `catch` block.
unfoldable pub catch_part : Thrown → State → Round
catch_part (rpc no_error) s = throws type_error s
catch_part (rpc no_detail) s = throws type_error s
catch_part (rpc (detail text)) s =
    if includes text "no request found"
    then breaks s
    else if includes text "duplicate part"
    then breaks (count job_collision s)
    else count_failure s
catch_part type_error s = count_failure s
catch_part (other e) s = count_failure s

-- A method that returned `false` counts as success.
abbrev pub after_attempt : Pushed → State → Round
after_attempt (threw e) s = catch_part e s
after_attempt _ s = success (count seeds_sent s)

unfoldable pub set_part : Member → Outside → Job → State → Round
set_part m o job s =
    let (known, s1) = is_known_key_version m job s in
    let (result, s2) = attempt_part m o job s1 in
    if known then after_attempt result s2 else skipped s1

abbrev pub continue_with : Round → ℕ → ℕ → (State → ℕ → ℕ → Run) → Run
continue_with (skipped s) done bad next = next s done bad
continue_with (success s) done bad next = next s (done + 1) bad
continue_with (failure s) done bad next = next s done (bad + 1)
continue_with (breaks s) done bad next = record {
  state = s;
  succeeded = done;
  failed = bad;
  thrown = none;
}
continue_with (throws e s) done bad next = record {
  state = s;
  succeeded = done;
  failed = bad;
  thrown = some e;
}

-- The loop over the jobs, from the counts so far.
unfoldable pub set_parts : Member → Outside → List Job → State → ℕ → ℕ → Run
set_parts m o [] s done bad = record { state = s; succeeded = done; failed = bad; thrown = none }
set_parts m o (job ∷ jobs) s done bad =
    continue_with (set_part m o job s) done bad (set_parts m o jobs)

-- After the load: the loop over the jobs that it gave.
unfoldable pub poll_jobs_to_set_part : Member → Outside → List Job → State → Run
unfolding set_parts set_part attempt_part catch_part
poll_jobs_to_set_part m o jobs s = set_parts m o jobs s 0 0

-- The poll, from what `getJobsToProcess` returns or throws.
unfoldable pub set_part_round : Member → Outside → Loading Job → State → Run
unfolding poll_jobs_to_set_part
set_part_round m o loading s = with_rows (poll_jobs_to_set_part m o) loading s

-- ===== src/Poller/Execute.antt =====
-- `pollJobsToExecute` of lib/poller.js, from the jobs that `getJobsToExecute` gives.
pub mod Logged
pub mod Counts
pub mod Pushes
pub mod Safety
pub mod Parked
use wax_rng_oracle.Prelude.{
  ℕ, zero, suc, ◌+◌, String, Bool, true, false, not, ◌&&◌, ◌||◌, Option, none, some, List, [], ◌∷◌,
  ltb, leb, ◌==◌, if◌then◌else◌, includes, text_eq, length,
}
use wax_rng_oracle.Model.{Job}
use wax_rng_oracle.RngPusher.{
  RpcJson, no_error, no_detail, detail, Thrown, rpc, type_error, other, Pushed, sent, refused,
  silent, threw, set_random_number, mark_failed,
}
use wax_rng_oracle.ShareKey.{
  codes, Diagnostics, Combined, combined, combine_error, combine_threw, combine_partial_signatures,
}
use wax_rng_oracle.ShareKey.Message.{from_hex}
use wax_rng_oracle.Storage.{Failure, job_failed}
use wax_rng_oracle.Storage.Fingerprint.{parts_fingerprint}
use wax_rng_oracle.Poller.{
  Loading, with_rows, State, Member, Outside, Run, count, post, post_combine_alert,
  is_known_key_version, job_collision, executed_job, combine_failed, Metric, combine_rejected_part,
  combine_suspect_share, execute_failed, markfail_failed,
}
use wax_rng_oracle.Poller.SetPart.{
  Round, skipped, success, failure, throws, continue_with, message, push_to,
}

-- How the `try` block ends.
pub data Tried : Type 0 where
  -- too few parts, or an empty signature: `continue`
  passed_over : Tried
  executed : Tried
  not_combined : Tried
  -- an error, and the final signature if it was there already
  crashed : Option String → Thrown → Tried

abbrev pub after_setrand : String → Pushed → Tried
after_setrand signature (threw e) = crashed (some signature) e
after_setrand signature _ = executed

-- `combinePartialSignatures(job.parts, msgBuffer)`
abbrev pub combination : Member → Outside → Job → String → Combined
combination m o job hash =
    combine_partial_signatures m.combine_threshold (o.combine_message (from_hex (codes hash)))
      job.parts

abbrev pub set_random : Member → Outside → Job → String → State → Tried × State
set_random m o job signature s =
    let (r, s') = set_random_number (push_to o) job m.owner job.ver signature s in
    (after_setrand signature r, s')

-- `logCombineDiagnostics`: one count for each rejected part and each suspect index.
abbrev count_each {ℓ} : {A : Type ℓ} → Metric → List A → State → State
count_each m [] s = s
count_each m (x ∷ xs) s = count_each m xs (count m s)

unfoldable pub log_combine_diagnostics : Diagnostics → State → State
log_combine_diagnostics d s =
    if length d.rejected == 0 && length d.failed_subsets == 0
    then s
    else count_each combine_suspect_share d.suspects (count_each combine_rejected_part d.rejected s)

abbrev pub use_combined : Member → Outside → Job → Combined → State → Tried × State
use_combined m o job (combined signature d) s =
    let logged = log_combine_diagnostics d s in
    if text_eq signature "" then (passed_over, logged) else set_random m o job signature logged
use_combined m o job (combine_error code rejected) s = (not_combined, s)
use_combined m o job combine_threw s = (crashed none (other "combine"), s)

abbrev pub try_hash : Member → Outside → Job → Option String → State → Tried × State
try_hash m o job none s = (crashed none (other "make_msg"), s)
try_hash m o job (some hash) s =
    if ltb (length job.parts) m.threshold
    then (passed_over, s)
    else use_combined m o job (combination m o job hash) s

-- The `try` block.
unfoldable pub try_job : Member → Outside → Job → State → Tried × State
try_job m o job s = try_hash m o job (message o job) s

-- JavaScript's `text != 0` is false of a text that reads as the number 0: of zeros, with an exponent
-- or none. (A signature has the digits 0-9 and a-f only.)
abbrev all_decimal : List ℕ → Bool
all_decimal [] = true
all_decimal (c ∷ cs) = leb b'0' c && leb c b'9' && all_decimal cs

abbrev exponent : List ℕ → Bool
exponent [] = false
exponent (c ∷ cs) = leb b'0' c && leb c b'9' && all_decimal cs

abbrev zeros_then : List ℕ → Bool
zeros_then [] = true
zeros_then (c ∷ cs) = if c == b'0' then zeros_then cs else c == b'e' && exponent cs

abbrev reads_as_zero : List ℕ → Bool
reads_as_zero [] = true
reads_as_zero (c ∷ cs) = c == b'0' && zeros_then cs

-- `finalSignature && finalSignature != 0 && finalSignatureHex`
unfoldable pub usable : String → Bool
usable signature = not (text_eq signature "") && not (reads_as_zero (codes signature))

abbrev pub record_failure : Outside → Job → Option String → State → Failure × State
record_failure o job meta s =
    let (db, f) = job_failed (o.clock s) s.db job meta in (f, record s { db = db })

-- What `markFailed` leaves: an error of its own is counted and posted.
abbrev pub after_mark : Pushed → State → State
after_mark (threw e) s = post (count markfail_failed s)
after_mark _ s = s

-- The attempt to mark the request as failed; the job is the failure record by now.
abbrev pub mark : Member → Outside → Failure → Option String → RpcJson → State → State
mark m o f none j s = s
mark m o f (some signature) no_error s = s
mark m o f (some signature) no_detail s =
    if usable signature then after_mark (threw type_error) s else s
mark m o f (some signature) (detail text) s =
    if usable signature && not (text_eq text "")
    then (let (r, s') = mark_failed (push_to o) f.id m.owner f.ver signature text s in
        after_mark r s')
    else s

abbrev pub give_up : State → Round
give_up s = failure (post (count execute_failed s))

abbrev pub catch_rpc : Member → Outside → Failure → Option String → RpcJson → State → Round
catch_rpc m o f signature no_error s = throws type_error s
catch_rpc m o f signature no_detail s = give_up (mark m o f signature no_detail s)
catch_rpc m o f signature (detail text) s =
    if includes text "no request found"
    then skipped (count job_collision s)
    else give_up (mark m o f signature (detail text) s)

abbrev pub catch_other : Member → Outside → Failure → Option String → Thrown → State → Round
catch_other m o f signature (rpc j) s = catch_rpc m o f signature j s
catch_other m o f signature _ s = give_up s

abbrev alerted : Member → Outside → State → State
alerted m o s = (post_combine_alert m (o.clock s) s).1

-- The rest of the round: the counter of a success, or the `catch` block.
unfoldable pub after_try : Member → Outside → Job → Tried → State → Round
after_try m o job passed_over s = skipped s
after_try m o job executed s = success (count executed_job s)
after_try m o job not_combined s =
    let (f, s') = record_failure o job (some (parts_fingerprint o.sha256 job.parts)) s in
    failure (alerted m o (count execute_failed (count combine_failed s')))
after_try m o job (crashed signature e) s =
    let (f, s') = record_failure o job none s in catch_other m o f signature e s'

unfoldable pub execute_job : Member → Outside → Job → State → Round
unfolding try_job after_try
execute_job m o job s =
    let (known, s1) = is_known_key_version m job s in
    let (tried, s2) = try_job m o job s1 in if known then after_try m o job tried s2 else skipped s1

unfoldable pub execute_jobs : Member → Outside → List Job → State → ℕ → ℕ → Run
execute_jobs m o [] s done bad = record { state = s; succeeded = done; failed = bad; thrown = none }
execute_jobs m o (job ∷ jobs) s done bad =
    continue_with (execute_job m o job s) done bad (execute_jobs m o jobs)

-- After the load: the loop over the jobs that it gave.
unfoldable pub poll_jobs_to_execute : Member → Outside → List Job → State → Run
unfolding execute_jobs execute_job
poll_jobs_to_execute m o jobs s = execute_jobs m o jobs s 0 0

-- The poll, from what `getJobsToExecute` returns or throws.
unfoldable pub execute_round : Member → Outside → Loading Job → State → Run
unfolding poll_jobs_to_execute
execute_round m o loading s = with_rows (poll_jobs_to_execute m o) loading s

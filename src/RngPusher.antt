-- ===== src/RngPusher.antt =====
-- lib/rngPusher.js: pushing the contract's actions, and telling the refusals that are expected (the
-- method returns `false`) from the errors that are thrown on. Log lines are left out.
pub mod Refusals
use wax_rng_oracle.Prelude.{
  ℕ, String, Bool, true, false, ◌||◌, List, [], ◌∷◌, any, includes, if◌then◌else◌,
}
use wax_rng_oracle.Model.{Job}
use wax_rng_oracle.Contract.{
  Action, submitpart, setrand, markfailed, retrydeliver, verifysig2, dapperror, cleanup,
}

-- `err.json` of an `RpcError`: without `error`, with an error that has no details, or the message
-- of the first detail.
pub data RpcJson : Type 0 where
  no_error no_detail : RpcJson
  detail : String → RpcJson

-- What may be thrown: an `RpcError`, the `TypeError` of a property read of undefined, or another.
pub data Thrown : Type 0 where
  rpc : RpcJson → Thrown
  type_error : Thrown
  other : String → Thrown

-- What pushing a transaction does: it is accepted, with its id, or throws.
pub data Answer : Type 0 where
  accepted : String → Answer
  failed : Thrown → Answer

-- What a method of `RngPusher` does. `refused` is the return value `false`, `silent` no value.
pub data Pushed : Type 0 where
  sent : String → Pushed
  refused : Pushed
  silent : Pushed
  threw : Thrown → Pushed

-- `error.details[0].message.includes(…)` for one of the phrases.
abbrev pub expected : List String → String → Bool
expected phrases message = any (includes message) phrases

-- The `catch` block of each method: the phrases are tested in turn, and each returns `false`.
abbrev pub refuse : List String → Answer → Pushed
refuse phrases (accepted id) = sent id
refuse phrases (failed (rpc no_error)) = threw type_error
refuse phrases (failed (rpc no_detail)) = threw type_error
refuse phrases (failed (rpc (detail message))) =
    if expected phrases message then refused else threw (rpc (detail message))
refuse phrases (failed type_error) = threw type_error
refuse phrases (failed (other e)) = threw (other e)

abbrev pub submit_refusals : List String
submit_refusals =
    "no request found" ∷ "unknown oracle" ∷ "oracle suspended" ∷ "version mismatch"
    ∷ "duplicate part" ∷ "duplicate" ∷ "Duplicate" ∷ "Conflict" ∷ "deadline exceeded" ∷ "paused"
    ∷ []

abbrev pub setrand_refusals : List String
setrand_refusals =
    "no request found" ∷ "unknown oracle" ∷ "version mismatch" ∷ "key not found" ∷ "duplicate"
    ∷ "Duplicate" ∷ "Conflict" ∷ "deadline exceeded" ∷ "paused" ∷ []

abbrev pub markfailed_refusals : List String
markfailed_refusals =
    "no request found" ∷ "unknown oracle" ∷ "oracle suspended" ∷ "version mismatch" ∷ "paused" ∷ []

abbrev pub retrydeliver_refusals : List String
retrydeliver_refusals =
    "No undelivered result found" ∷ "unknown oracle" ∷ "oracle suspended" ∷ "paused" ∷ []

abbrev pub cleanup_refusals : List String
cleanup_refusals = "paused" ∷ []

abbrev pub log_refusals : List String
log_refusals =
    "Could not find job id" ∷ "dapp caller mismatch" ∷ "duplicate" ∷ "Duplicate" ∷ "Conflict"
    ∷ "transaction declares authority" ∷ "action declares irrelevant authority" ∷ []

-- `logError` throws no error on, but its handler may read a property of undefined.
abbrev unthrown : Answer → Pushed → Pushed
unthrown (failed (rpc no_error)) p = p
unthrown (failed (rpc no_detail)) p = p
unthrown a (threw e) = silent
unthrown a p = p

-- `verifySig2` handles no error.
abbrev unread : Answer → Pushed
unread (accepted id) = sent id
unread (failed e) = threw e

-- A method pushes its action and reads the answer. Pushing may change a state `S`.
module _ {S : Type 0} (push : Action → S → Answer × S) where
  unfoldable pub refuse_push : List String → Action → S → Pushed × S
  refuse_push phrases action s = let (a, s') = push action s in (refuse phrases a, s')

  unfoldable pub submit_partial_signature : Job → String → ℕ → String → S → Pushed × S
  unfolding refuse_push
  submit_partial_signature job oracle ver sig_i =
      refuse_push submit_refusals (submitpart oracle job.id ver sig_i)

  unfoldable pub set_random_number : Job → String → ℕ → String → S → Pushed × S
  unfolding refuse_push
  set_random_number job oracle ver sig =
      refuse_push setrand_refusals (setrand oracle job.id ver sig)

  -- Of the job only the id is read; the poller passes a failure record.
  unfoldable pub mark_failed : ℕ → String → ℕ → String → String → S → Pushed × S
  unfolding refuse_push
  mark_failed id oracle ver sig error_message =
      refuse_push markfailed_refusals (markfailed oracle id ver sig error_message)

  unfoldable pub retry_deliver : String → ℕ → S → Pushed × S
  unfolding refuse_push
  retry_deliver oracle request_id =
      refuse_push retrydeliver_refusals (retrydeliver oracle request_id)

  unfoldable pub verify_sig2 : String → String → String → String → S → Pushed × S
  verify_sig2 sig_val signature exponent modulus s =
      let (a, s') = push (verifysig2 sig_val signature exponent modulus) s in (unread a, s')

  unfoldable pub clean_up : String → ℕ → S → Pushed × S
  unfolding refuse_push
  clean_up oracle batch_size = refuse_push cleanup_refusals (cleanup oracle batch_size)

  -- The rows of `reqs` have no `caller` for an empty dapp.
  unfoldable pub log_error : Job → String → S → Pushed × S
  log_error job message s =
      let (a, s') = push (dapperror job.dapp job.id message) s in
      (unthrown a (refuse log_refusals a), s')

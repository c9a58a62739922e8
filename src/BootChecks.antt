-- ===== src/BootChecks.antt =====
-- lib/bootChecks.js: what a member checks before it signs. The RPC node's answers to one attempt are a
-- parameter for each attempt, and the library's check of the share is another. Log lines are left
-- out; a pause is an entry of a list of delays in ms.
pub mod Rows
pub mod Reads
pub mod Sound
pub mod Delays
pub mod Progress
pub mod Constant
use wax_rng_oracle.Prelude.{
  ℕ, zero, suc, ◌+◌, ◌-◌, ◌*◌, ◌^◌, String, Bool, true, false, not, Option, none, some, List, [],
  ◌∷◌, map, ltb, leb, ◌==◌, text_eq, if◌then◌else◌,
}
use Rows.{
  Code, ConfigRow, Fetched, KeyRow, Lost, OracleRow, PublicKey, Row, Rpc, active_key_malformed,
  active_key_missing, active_key_retired, active_version_invalid, active_version_missing, boot,
  fetch_active_public_key, fetch_oracle_index, got, index_of_row, index_value, is_number,
  key_of_config, key_of_row, key_of_version, key_values, lost, no_row, oracle_index_malformed,
  oracle_not_registered, require, retryable, row, rpc_error, unreachable,
}

-- An entry of `failedChecks`; `share_check` is a name that the library gives.
pub data Check : Type 0 where
  code : Code → Check
  rpc_unreachable oracle_index_mismatch share_config_unparseable : Check
  share_check : String → Check

pub record Status : Type 0 where
  pub ran : Bool
  pub ok : Bool
  pub rpc_reachable : Bool
  pub active_key_found : Bool
  pub oracle_index_matches : Bool
  pub share_consistent : Bool
  pub active_ver : Option ℕ
  pub failed_checks : List Check

abbrev empty_status : Status
empty_status = record {
  ran = false;
  ok = false;
  rpc_reachable = false;
  active_key_found = false;
  oracle_index_matches = false;
  share_consistent = false;
  active_ver = none;
  failed_checks = [];
}

-- `{ ...emptyStatus(), ran: true }`
abbrev pub started : Status
started = record empty_status { ran = true }

-- `resetBootCheckStatus`, from the remembered status to the next.
reset_boot_check_status : Status → Status
reset_boot_check_status last = empty_status

-- `verifyConsistency`: it threw, or `ok` and the names of the checks that failed.
pub data Verified : Type 0 where
  unparseable : Verified
  checked : Bool → List String → Verified

-- How the loop ends: both values were read, an error that is not retried, or the attempts are used up,
-- with the last error.
pub data Ending : Type 0 where
  visible : Status → PublicKey → ℕ → Ending
  unusable : Status → Ending
  not_visible : Status → Option Lost → Ending

pub record Settings : Type 0 where
  pub attempts : ℕ
  pub base_delay : ℕ
  pub max_delay : ℕ

abbrev least : ℕ → ℕ → ℕ
least a b = if leb a b then a else b

-- A configured number that is absent or not positive is replaced by the default.
abbrev or_default : ℕ → Option ℕ → ℕ
or_default d none = d
or_default d (some n) = if n == 0 then d else n

unfoldable pub settings : Option ℕ → Option ℕ → Option ℕ → Settings
settings attempts base_delay max_delay = record {
  attempts = or_default 6 attempts;
  base_delay = or_default 2000 base_delay;
  max_delay = or_default 30000 max_delay;
}

abbrev pub with_key : PublicKey → Status → Status
with_key k st = record st { rpc_reachable = true; active_key_found = true; active_ver = some k.ver }

-- The pause after the attempt `n`, unless it was the last.
abbrev pub pause : Settings → ℕ → List ℕ → List ℕ
pause c n delays =
    if ltb n c.attempts then least c.max_delay (c.base_delay * 2 ^ (n - 1)) ∷ delays else delays

abbrev pub paused : Settings → ℕ → Ending × List ℕ → Ending × List ℕ
paused c n (e, delays) = (e, pause c n delays)

-- The `catch` block of the attempt `n`; `next` is the rest of the loop.
abbrev pub catch_lost :
    Settings → ℕ → Lost → Status → (Status → Option Lost → Ending × List ℕ) → Ending × List ℕ
catch_lost c n rpc_error st next = paused c n (next st (some rpc_error))
catch_lost c n (boot k) st next =
    let again = paused c n (next (record st { rpc_reachable = true }) (some (boot k))) in
    if retryable k
    then again
    else (unusable (record st { rpc_reachable = true; failed_checks = code k ∷ [] }), [])

abbrev pub with_index :
    Settings
    → ℕ
    → PublicKey
    → Fetched ℕ
    → Status
    → (Status → Option Lost → Ending × List ℕ)
    → Ending × List ℕ
with_index c n k (got i) st next = (visible (with_key k st) k i, [])
with_index c n k (lost e) st next = catch_lost c n e (with_key k st) next

abbrev pub attempt :
    Settings
    → ℕ
    → Fetched PublicKey
    → Fetched ℕ
    → Status
    → (Status → Option Lost → Ending × List ℕ)
    → Ending × List ℕ
attempt c n (got k) index st next = with_index c n k index st next
attempt c n (lost e) index st next = catch_lost c n e st next

module _ (c : Settings) (rpc : ℕ → Rpc) (key owner : String) where
  -- The loop with `left` attempts left, from the attempt `n` on.
  pub read_chain : ℕ → ℕ → Status → Option Lost → Ending × List ℕ
  unfolding retryable
  read_chain zero n st last = (not_visible st last, [])
  read_chain (suc left) n st last =
      attempt c n (fetch_active_public_key (rpc n) key) (fetch_oracle_index (rpc n) owner) st
        (read_chain left (n + 1))

abbrev pub verdict : Verified → Status → Status
verdict unparseable st = record st { failed_checks = share_config_unparseable ∷ [] }
verdict (checked true names) st = record st { share_consistent = true; ok = true }
verdict (checked false names) st = record st { failed_checks = map share_check names }

abbrev pub conclude : ℕ → (PublicKey → Verified) → Ending → Status
conclude share_index verify (unusable st) = st
conclude share_index verify (not_visible st none) = record st {
  failed_checks = rpc_unreachable ∷ [];
}
conclude share_index verify (not_visible st (some rpc_error)) = record st {
  failed_checks = rpc_unreachable ∷ [];
}
conclude share_index verify (not_visible st (some (boot k))) = record st {
  failed_checks = code k ∷ [];
}
conclude share_index verify (visible st k i) =
    if i == share_index
    then verdict (verify k) (record st { oracle_index_matches = true })
    else record st { failed_checks = oracle_index_mismatch ∷ [] }

-- The status and the pauses.
unfoldable pub run_boot_checks :
    Settings → (ℕ → Rpc) → String → String → ℕ → (PublicKey → Verified) → Status × List ℕ
unfolding read_chain
run_boot_checks c rpc key owner share_index verify =
    let (e, delays) = read_chain c rpc key owner c.attempts 1 started none in
    (conclude share_index verify e, delays)

-- ===== src/Poller.antt =====
-- lib/poller.js: the polls that sign, combine and deliver. A poll changes the state and may throw;
-- `index.js` catches what it throws and polls again. Log lines and gauges are left out; counters
-- and Slack posts are events of the state, and so are the transactions that were pushed.
pub mod Pushing
pub mod SetPart
pub mod Execute
pub mod Deliver
pub mod Alerts
pub mod Signed
use wax_rng_oracle.Prelude.{
  ◌≡◌, ℕ, zero, suc, ◌+◌, ◌-◌, String, Bool, true, false, not, ◌&&◌, ◌||◌, Option, none, some, List,
  [], ◌∷◌, ◌++◌, ltb, leb, ◌==◌, if◌then◌else◌, any, includes,
}
use wax_rng_oracle.Model.{Job}
use wax_rng_oracle.Contract.{Action}
use wax_rng_oracle.RngPusher.{Answer, Thrown}
use wax_rng_oracle.ShareKey.{Accepted, Combined}
use wax_rng_oracle.ShareKey.Signing.{SignResult}
use wax_rng_oracle.Storage.{Storage}

-- The metrics that are counted.
pub data Metric : Type 0 where
  key_version_skipped seeds_sent job_collision set_part_failed executed_job : Metric
  combine_failed execute_failed markfail_failed retry_deliver_success : Metric
  retry_deliver_failed cleanup_success cleanup_failed : Metric
  combine_rejected_part combine_suspect_share : Metric

pub data Event : Type 0 where
  counted : Metric → Event
  -- a post to Slack
  posted : Event

-- The poller's fields that change, the storage of its job service, and what it has done, the
-- latest first.
pub record State : Type 0 where
  pub db : Storage
  pub skipped_versions : List ℕ
  pub last_post_at : ℕ
  pub suppressed : ℕ
  pub pushed : List Action
  pub events : List Event

-- The fields that do not change, and the configuration: `threshold` is `shareKey.threshold` as it
-- stands there, and `combine_threshold` the one that the service of the share goes by.
pub record Member : Type 0 where
  pub owner : String
  pub active_key_version : Option ℕ
  pub combine_alert_interval : ℕ
  pub threshold : ℕ
  pub combine_threshold : ℕ
  pub key_modulus : ℕ

-- What is outside: the chain, which may answer by all that was pushed before; the clock; the digest
-- of texts and that of bytes; the account names' numbers; the threshold library.
pub record Outside : Type 0 where
  pub answer : List Action → Action → Answer
  pub clock : State → ℕ
  pub sha256 : String → String
  pub sha256_bytes : List ℕ → String
  pub name_to_uint64 : String → ℕ
  pub sign_message : List ℕ → Option SignResult
  pub combine_message : List ℕ → List Accepted → Combined

abbrev pub count : Metric → State → State
count m s = record s { events = counted m ∷ s.events }

abbrev pub post : State → State
post s = record s { events = posted ∷ s.events }

abbrev pub push : Action → State → State
push a s = record s { pushed = a ∷ s.pushed }

-- How a poll ends: its state, its counts, and what it threw.
pub record Run : Type 0 where
  pub state : State
  pub succeeded : ℕ
  pub failed : ℕ
  pub thrown : Option Thrown

-- What a read of the job service gives a poll: its rows, or what it throws, which the poll does not
-- catch.
pub data Loading {ℓ} (R : Type ℓ) : Type ℓ where
  rows : List R → Loading R
  load_failed : Thrown → Loading R

abbrev pub not_started : Thrown → State → Run
not_started e s = record { state = s; succeeded = 0; failed = 0; thrown = some e }

-- The poll goes on with the rows.
abbrev pub with_rows {ℓ} : {R : Type ℓ} → (List R → State → Run) → Loading R → State → Run
with_rows poll (rows rs) s = poll rs s
with_rows poll (load_failed e) s = not_started e s

-- What holds of a poll: after the rows, what is given; after a failed read, that it throws the same
-- and changes nothing.
abbrev pub OfLoading {ℓ} : {R : Type ℓ} → (List R → Run → Type 0) → Loading R → State → Run → Type 0
OfLoading Holds (rows rs) s r = Holds rs r
OfLoading Holds (load_failed e) s r = r ≡ not_started e s

-- The versions compared in `isKnownKeyVersion`.
abbrev pub acts_on : Option ℕ → ℕ → Bool
acts_on none ver = true
acts_on (some active) ver = ver == active

abbrev pub skip_version : ℕ → State → State
skip_version ver s =
    if any (λ v. v == ver) s.skipped_versions
    then s
    else record s { skipped_versions = ver ∷ s.skipped_versions }

unfoldable pub is_known_key_version : Member → Job → State → Bool × State
is_known_key_version m job s =
    if acts_on m.active_key_version job.ver
    then (true, s)
    else (false, count key_version_skipped (skip_version job.ver s))

-- `postCombineAlert` at the time `now`: whether it posted, and the state.
unfoldable pub post_combine_alert : Member → ℕ → State → Bool × State
post_combine_alert m now s =
    if ltb now (s.last_post_at + m.combine_alert_interval)
    then (false, record s { suppressed = s.suppressed + 1 })
    else (true, post (record s { last_post_at = now; suppressed = 0 }))

-- ===== src/Storage/History.antt =====
-- What lib/storage.js promises: for each id, the record of its first failure and how often it has
-- failed since. What stands in the storage is that record with its delay doubled so often.
use wax_rng_oracle.Prelude.{
  ℕ, ◌+◌, ◌*◌, ◌^◌, String, ◌≡◌, Option, none, some, List, [], ◌∷◌, any, ◌==◌, if◌then◌else◌,
  text_eq,
}
use wax_rng_oracle.Dict.{lookup}
use wax_rng_oracle.Model.{Job, Undelivered}
use wax_rng_oracle.Storage.{Storage, Failure, DeliveryFailure}
use wax_rng_oracle.Storage.Cleared.{
  Call, job_failed_call, clear_failed_call, deliver_fail_call, clear_deliveries_call,
  set_failed_call, clear_all_call,
}

-- A first record, and the failures since then.
pub record Counted {ℓ} (R : Type ℓ) : Type ℓ where
  pub first : R
  pub since : ℕ

-- For each id, its failures; none of an id that has not failed since it was last cleared.
pub record History : Type 0 where
  pub failure : ℕ → Option (Counted Failure)
  pub delivery : ℕ → Option (Counted DeliveryFailure)

-- A function changed at one id, and emptied at the ids of a list.
abbrev pub update {ℓ} : {V : Type ℓ} → ℕ → V → (ℕ → Option V) → ℕ → Option V
update k v f id = if k == id then some v else f id

abbrev pub clear {ℓ} : {V : Type ℓ} → List ℕ → (ℕ → Option V) → ℕ → Option V
clear ids f id = if any (λ k. k == id) ids then none else f id

abbrev pub from_now {ℓ} : {R : Type ℓ} → R → Counted R
from_now r = record { first = r; since = 0 }

abbrev pub pinned_by : Option String → Option String
pinned_by none = none
pinned_by (some fingerprint) = if text_eq fingerprint "" then none else some fingerprint

-- One more failure of a job. The parts that it is pinned to are those of the last failure.
abbrev pub one_more : ℕ → Job → Option String → Option (Counted Failure) → Counted Failure
one_more now job meta none = from_now (record {
  id = job.id;
  nonce = job.nonce;
  ver = job.ver;
  seed = job.seed;
  dapp = job.dapp;
  created_at = now;
  next_retry = 500;
  parts_fingerprint = pinned_by meta;
})
one_more now job meta (some c) = record {
  first = record c.first { parts_fingerprint = pinned_by meta };
  since = c.since + 1;
}

-- One more failure of a delivery.
abbrev pub one_more_delivery :
    ℕ → Undelivered → Option (Counted DeliveryFailure) → Counted DeliveryFailure
one_more_delivery now u none = from_now (record {
  request_id = u.request_id;
  dapp = u.dapp;
  assoc_id = u.assoc_id;
  error_message = u.error_message;
  created_at = now;
  next_retry = 500;
})
one_more_delivery now u (some c) = record c { since = c.since + 1 }

-- What a method does to the history.
unfoldable pub specify : Call → History → History
specify (job_failed_call now job meta) v = record v {
  failure = update job.id (one_more now job meta (v.failure job.id)) v.failure;
}
specify (clear_failed_call ids) v = record v { failure = clear ids v.failure }
specify (deliver_fail_call now u) v = record v {
  delivery = update u.request_id (one_more_delivery now u (v.delivery u.request_id)) v.delivery;
}
specify (clear_deliveries_call ids) v = record v { delivery = clear ids v.delivery }
specify (set_failed_call f) v = record v { failure = update f.id (from_now f) v.failure }
specify clear_all_call v = record v { failure = λ id. none }

unfoldable pub specify_all : List Call → History → History
specify_all [] v = v
specify_all (c ∷ cs) v = specify_all cs (specify c v)

-- The record that a history stands for: 2ⁿ times the delay after n further failures.
abbrev pub delayed : Option (Counted Failure) → Option Failure
delayed none = none
delayed (some c) = some (record c.first { next_retry = c.first.next_retry * 2 ^ c.since })

abbrev pub delayed_delivery : Option (Counted DeliveryFailure) → Option DeliveryFailure
delayed_delivery none = none
delayed_delivery (some c) = some (record c.first { next_retry = c.first.next_retry * 2 ^ c.since })

-- The storage holds what the history stands for.
pub record Represents (v : History) (s : Storage) : Type 0 where
  pub failures : (id : ℕ) → lookup id s.failures ≡ delayed (v.failure id)
  pub deliveries : (id : ℕ) → lookup id s.delivery_failures ≡ delayed_delivery (v.delivery id)

-- ===== src/Interleaved/Own.antt =====
-- The jobs that the polls of lib/poller.js act on, and what `isKnownKeyVersion` keeps.
use mathlib.Core.List.{Memᴰ}
use wax_rng_oracle.Prelude.{◌≡◌, true, false, List, arith, All}
use wax_rng_oracle.Model.{Job}
use wax_rng_oracle.Poller.{State, Member, acts_on, is_known_key_version}

-- A listed job of a key version that the member acts on.
pub record IsOwn (m : Member) (listed : List Job) (job : Job) : Type 0 where
  pub among : Memᴰ job listed
  pub known : acts_on m.active_key_version job.ver ≡ true

abbrev pub AreListed : List Job → List Job → Type 0
AreListed listed jobs = All (λ job. Memᴰ job listed) jobs

module _ (m : Member) (job : Job) (s : State) where
  pub db-skipped : (is_known_key_version m job s).1.db ≡ s.db
  unfolding is_known_key_version
  db-skipped = ground arith

  pub pushed-skipped : (is_known_key_version m job s).1.pushed ≡ s.pushed
  unfolding is_known_key_version
  pushed-skipped = ground arith

  pub known-is_known :
      acts_on m.active_key_version job.ver ≡ true → is_known_key_version m job s ≡ (true, s)
  unfolding is_known_key_version
  known-is_known e = rw e

  pub unknown-is_known :
      acts_on m.active_key_version job.ver ≡ false → (is_known_key_version m job s).0 ≡ false
  unfolding is_known_key_version
  unknown-is_known e = rw e

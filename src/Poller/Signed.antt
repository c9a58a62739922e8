-- ===== src/Poller/Signed.antt =====
-- In whose name the polls of lib/poller.js make lib/config/eos.js send transactions.
use wax_rng_oracle.Prelude.{String, ◌≡◌, refl, List, inl, inr}
use wax_rng_oracle.Model.{Job}
use wax_rng_oracle.Contract.{OrngConfig, Action, Transaction, transaction}
use wax_rng_oracle.Storage.Cleared.{IsValid}
use wax_rng_oracle.Poller.{State, Member, Outside}
use wax_rng_oracle.Poller.Pushing.{Pushes, Pushes-map}
use wax_rng_oracle.Poller.SetPart.{poll_jobs_to_set_part}
use wax_rng_oracle.Poller.SetPart.Pushes.{PartOf, poll_jobs_to_set_part-Pushes}
use wax_rng_oracle.Poller.Execute.{poll_jobs_to_execute}
use wax_rng_oracle.Poller.Execute.Pushes.{ResultOf}
use wax_rng_oracle.Poller.Execute.Safety.{poll_jobs_to_execute-Safe}

-- A transaction on the configured contract, by the account `owner` with the configured permission,
-- and under the configured limit.
pub record IsSigned (c : OrngConfig) (owner : String) (t : Transaction) : Type 0 where
  pub account : t.account ≡ c.contract_name
  pub actor : t.actor ≡ owner
  pub permission : t.permission ≡ c.auth
  pub limit : t.max_cpu_usage_ms ≡ c.max_cpu

abbrev pub SignedAction : OrngConfig → Member → Action → Type 0
SignedAction c m a = IsSigned c m.owner (transaction c a)

part-IsSigned :
    (c : OrngConfig) (m : Member) (o : Outside) (jobs : List Job) (a : Action)
    → PartOf m o jobs a
    → SignedAction c m a
unfolding transaction
part-IsSigned c m o jobs a p =
    rw p.action (record { account = refl; actor = refl; permission = refl; limit = refl })

result-IsSigned :
    (c : OrngConfig) (m : Member) (o : Outside) (jobs : List Job) (a : Action)
    → ResultOf m o jobs a
    → SignedAction c m a
unfolding transaction
result-IsSigned c m o jobs a p = elim p.action [
  | inl e ↦ rw e (record { account = refl; actor = refl; permission = refl; limit = refl })
  | inr (ver, text, e) ↦
      rw e (record { account = refl; actor = refl; permission = refl; limit = refl })
]

-- Whatever the chain answers, from a valid storage every transaction that the two polls of jobs send
-- is on the configured contract, by the member's own account with the configured
-- permission, and under the configured limit.
pub polls-IsSigned :
    (c : OrngConfig) (m : Member) (o : Outside) (jobs jobs' : List Job) (s : State)
    → IsValid s.db
    → Pushes (SignedAction c m) s (poll_jobs_to_execute m o jobs s).state
      × Pushes (SignedAction c m) s (poll_jobs_to_set_part m o jobs' s).state
polls-IsSigned c m o jobs jobs' s v = (
  Pushes-map (ResultOf m o jobs) (SignedAction c m) (result-IsSigned c m o jobs)
      (poll_jobs_to_execute-Safe m o jobs s v).0,
  Pushes-map (PartOf m o jobs') (SignedAction c m) (part-IsSigned c m o jobs')
      (poll_jobs_to_set_part-Pushes m o jobs' s),
)

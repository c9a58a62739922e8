-- ===== src/Poller/Execute/Safety.antt =====
-- The loop of `pollJobsToExecute`: everything that it pushes is a result of the loaded jobs.
use mathlib.Core.List.{Memᴰ}
use wax_rng_oracle.Prelude.{
  ℕ, ◌+◌, ◌≡◌, refl, subst, sym, true, false, List, [], ◌∷◌, arith, Bool-cases, inl, inr,
}
use wax_rng_oracle.Model.{Job}
use wax_rng_oracle.Contract.{Action}
use wax_rng_oracle.Storage.Cleared.{IsValid}
use wax_rng_oracle.Poller.{State, Member, Outside, Run, acts_on, is_known_key_version}
use wax_rng_oracle.Poller.Pushing.{Pushes, Pushes-none, Pushes-trans, Pushes-map}
use wax_rng_oracle.Poller.SetPart.{Round, skipped, success, failure, breaks, throws, continue_with}
use wax_rng_oracle.Poller.SetPart.Pushes.{left}
use wax_rng_oracle.Poller.Execute.{try_job, execute_job, execute_jobs, poll_jobs_to_execute}
use wax_rng_oracle.Poller.Execute.Pushes.{ResultOf, try_job-Fine, after_try-Kept}

-- From a state with a valid storage, only results of the jobs are pushed, and the storage stays valid.
abbrev Safe : Member → Outside → List Job → State → State → Type 0
Safe m o jobs s s' = Pushes (ResultOf m o jobs) s s' × IsValid s'.db

db-skipped : (m : Member) (job : Job) (s : State) → (is_known_key_version m job s).1.db ≡ s.db
unfolding is_known_key_version
db-skipped m job s = ground arith

pushed-skipped :
    (m : Member) (job : Job) (s : State) → (is_known_key_version m job s).1.pushed ≡ s.pushed
unfolding is_known_key_version
pushed-skipped m job s = ground arith

known_state :
    (m : Member) (job : Job) (s : State)
    → acts_on m.active_key_version job.ver ≡ true
    → is_known_key_version m job s ≡ (true, s)
unfolding is_known_key_version
known_state m job s e = rw e

unknown_state :
    (m : Member) (job : Job) (s : State)
    → acts_on m.active_key_version job.ver ≡ false
    → (is_known_key_version m job s).0 ≡ false
unfolding is_known_key_version
unknown_state m job s e = rw e

execute_job-Safe :
    (m : Member) (o : Outside) (job : Job) (jobs : List Job) (s : State)
    → IsValid s.db
    → Safe m o (job ∷ jobs) s (left (execute_job m o job s))
unfolding execute_job
execute_job-Safe m o job jobs s v = elim (Bool-cases (acts_on m.active_key_version job.ver)) [
  | inl known ↦
      let (p, origin, db) = try_job-Fine m o job jobs known s in
      let (tried, s') = try_job m o job s in
      let (q, valid) =
        after_try-Kept m o job jobs known tried s' origin (subst IsValid (sym db) v) in
      rw (known_state m job s known) (Pushes-trans p q, valid)
  | inr unknown ↦ rw (unknown_state m job s unknown) (
    Pushes-none s (is_known_key_version m job s).1 (pushed-skipped m job s),
    subst IsValid (sym (db-skipped m job s)) v,
  )
]

ResultOf-cons :
    (m : Member) (o : Outside) (job : Job) (jobs : List Job) (a : Action)
    → ResultOf m o jobs a
    → ResultOf m o (job ∷ jobs) a
ResultOf-cons m o job jobs a r = record {
  job = r.job;
  loaded = Memᴰ.tail r.loaded;
  known = r.known;
  signature = r.signature;
  combines = r.combines;
  action = r.action;
}

module _ (m : Member) (o : Outside) (job : Job) (jobs : List Job) (s : State)
    (next : State → ℕ → ℕ → Run)
    (rest : (s' : State) (d b : ℕ) → IsValid s'.db → Safe m o jobs s' (next s' d b).state) where
  onward :
      (s' : State) (d b : ℕ)
      → Safe m o (job ∷ jobs) s s'
      → Safe m o (job ∷ jobs) s (next s' d b).state
  onward s' d b h =
      let r = rest s' d b h.1 in
      (
        Pushes-trans h.0 (
            Pushes-map (ResultOf m o jobs) (ResultOf m o (job ∷ jobs)) (ResultOf-cons m o job jobs)
              r.0),
        r.1,
      )

  continue_with-Safe :
      (done bad : ℕ) (r : Round)
      → Safe m o (job ∷ jobs) s (left r)
      → Safe m o (job ∷ jobs) s (continue_with r done bad next).state
  continue_with-Safe done bad (skipped s') h = onward s' done bad h
  continue_with-Safe done bad (success s') h = onward s' (done + 1) bad h
  continue_with-Safe done bad (failure s') h = onward s' done (bad + 1) h
  continue_with-Safe done bad (breaks s') h = h
  continue_with-Safe done bad (throws e s') h = h

execute_jobs-Safe :
    (m : Member) (o : Outside) (jobs : List Job) (s : State) (done bad : ℕ)
    → IsValid s.db
    → Safe m o jobs s (execute_jobs m o jobs s done bad).state
unfolding execute_jobs
execute_jobs-Safe m o [] s done bad v = (Pushes-none s s refl, v)
execute_jobs-Safe m o (job ∷ jobs) s done bad v =
    continue_with-Safe m o job jobs s (execute_jobs m o jobs)
      (λ s' d b v'. execute_jobs-Safe m o jobs s' d b v') done bad (execute_job m o job s)
      (execute_job-Safe m o job jobs s v)

-- Whatever the chain answers, from a valid storage `pollJobsToExecute` pushes nothing but `setrand` and
-- `markfailed` for loaded jobs of a key version that the member acts on, in the member's name and
-- with the signature that the job's own parts combine to; and it leaves the storage valid.
pub poll_jobs_to_execute-Safe :
    (m : Member) (o : Outside) (jobs : List Job) (s : State)
    → IsValid s.db
    → Pushes (ResultOf m o jobs) s (poll_jobs_to_execute m o jobs s).state
      × IsValid (poll_jobs_to_execute m o jobs s).state.db
unfolding poll_jobs_to_execute
poll_jobs_to_execute-Safe m o jobs s v = execute_jobs-Safe m o jobs s 0 0 v

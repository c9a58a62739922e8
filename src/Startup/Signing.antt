-- ===== src/Startup/Signing.antt =====
-- What a process that polls pushes (index.js with lib/poller.js).
use wax_rng_oracle.Prelude.{
  ◌⊎◌, [], ◌∷◌, sym, subst, ℕ, ◌≡◌, refl, sym, ap, ◌∙◌, Bool, true, Option, some, List, ==_iff, inl,
  inr,
}
use wax_rng_oracle.Model.{Job}
use wax_rng_oracle.Contract.{Action}
use wax_rng_oracle.Storage.{Storage}
use wax_rng_oracle.Poller.{State, Member, Outside, acts_on}
use wax_rng_oracle.Storage.Cleared.{IsValid}
use wax_rng_oracle.Poller.Execute.{poll_jobs_to_execute}
use wax_rng_oracle.Poller.Execute.Pushes.{ResultOf}
use wax_rng_oracle.Poller.Execute.Safety.{poll_jobs_to_execute-Safe}
use wax_rng_oracle.Poller.SetPart.Kept.{db-poll_jobs_to_set_part}
use wax_rng_oracle.Poller.Pushing.{Pushes-none, Pushes-trans, Pushes, Pushes-map}
use wax_rng_oracle.Poller.SetPart.{poll_jobs_to_set_part}
use wax_rng_oracle.Poller.SetPart.Pushes.{PartOf, poll_jobs_to_set_part-Pushes}
use wax_rng_oracle.Startup.{
  Turn, signing, executing, take_turns, first_state, Setup, World, Poll, worker, run,
}
use wax_rng_oracle.Startup.Vetted.{Vetted, Good, run-Good}

-- An action for a loaded job whose version is `ver`: the member's own partial signature, or the result or
-- the failure of the job with the signature that its parts combine to.
record ActionFor (ver : ℕ) (m : Member) (o : Outside) (a : Action) : Type 0 where
  jobs : List Job
  right :
      ((p : PartOf m o jobs a) × (p.job.ver ≡ ver))
      ⊎ ((p : ResultOf m o jobs a) × (p.job.ver ≡ ver))

pub acts_on-one :
    (v ver : ℕ) (active : Option ℕ) → active ≡ some v → acts_on active ver ≡ true → ver ≡ v
acts_on-one v ver active e h = (==_iff ver v).0 (ap (λ (a : Option ℕ). acts_on a ver) (sym e) ∙ h)

module _ (m : Member) (o : Outside) (v : ℕ) (version : m.active_key_version ≡ some v) where
  part-ActionFor : (jobs : List Job) (a : Action) → PartOf m o jobs a → ActionFor v m o a
  part-ActionFor jobs a p = record {
    jobs = jobs;
    right = inl (p, acts_on-one v p.job.ver m.active_key_version version p.known);
  }

  result-ActionFor : (jobs : List Job) (a : Action) → ResultOf m o jobs a → ActionFor v m o a
  result-ActionFor jobs a p = record {
    jobs = jobs;
    right = inr (p, acts_on-one v p.job.ver m.active_key_version version p.known);
  }

  turns-ActionFor :
      (ts : List Turn) (s : State) → IsValid s.db → Pushes (ActionFor v m o) s (take_turns m o ts s)
  unfolding take_turns
  turns-ActionFor [] s h = Pushes-none s s refl
  turns-ActionFor (signing jobs ∷ ts) s h =
      let t = (poll_jobs_to_set_part m o jobs s).state in
      Pushes-trans
        (Pushes-map (PartOf m o jobs) (ActionFor v m o) (part-ActionFor jobs)
          (poll_jobs_to_set_part-Pushes m o jobs s))
        (turns-ActionFor ts t (subst IsValid (sym (db-poll_jobs_to_set_part m o jobs s)) h))
  turns-ActionFor (executing jobs ∷ ts) s h =
      let safe = poll_jobs_to_execute-Safe m o jobs s h in
      Pushes-trans (Pushes-map (ResultOf m o jobs) (ActionFor v m o) (result-ActionFor jobs) safe.0)
        (turns-ActionFor ts (poll_jobs_to_execute m o jobs s).state safe.1)

record Signs (s : Setup) (w : World) (m : Member) (o : Outside) (ts : List Turn) (st : State)
    : Type 0 where
  vetted : Vetted s w m
  actions : Pushes (ActionFor vetted.public_key.ver m o) st (take_turns m o ts st)

-- If a process gets as far as its polls, its share was initialized, and in one attempt the node showed an
-- active key and the member's row under the share's index, and the library found the share consistent
-- with that key. If its storage is valid, all that any turns of the two polls of jobs then push, one
-- turn after another, are the member's own partial signatures of loaded jobs, and results and failures
-- of loaded jobs with the signature that their parts combine to, each of a job of the version of that
-- key.
run-Signs :
    (s : Setup) (w : World) (serving : Bool) (ps : List (Poll × ℕ)) (m : Member) (db : Storage)
    (o : Outside) (ts : List Turn)
    → run s w ≡ worker serving ps m db
    → IsValid db
    → Signs s w m o ts (first_state db)
run-Signs s w serving ps m db o ts e h =
    let v : Vetted s w m = subst (Good s w) e (run-Good s w) in
    record {
      vetted = v;
      actions = turns-ActionFor m o v.public_key.ver v.version ts (first_state db) h;
    }

-- ===== src/Interleaved/Safety.antt =====
-- What holds however the polls interleave.
use wax_rng_oracle.Prelude.{
  ◌⊎◌, inl, inr, refl, subst, sym, none, some, List, Bool-cases, leb, ◌≡◌, if◌then◌else◌,
}
use wax_rng_oracle.Model.{Job}
use wax_rng_oracle.Contract.{Action}
use wax_rng_oracle.Storage.{Storage}
use wax_rng_oracle.Storage.Cleared.{IsValid, perform_all}
use wax_rng_oracle.Poller.{State, Member, Outside, post}
use wax_rng_oracle.Poller.Pushing.{Pushes, Pushes-none, Pushes-trans, Pushes-map}
use wax_rng_oracle.Poller.SetPart.Pushes.{PartOf}
use wax_rng_oracle.Poller.Execute.Pushes.{ResultOf}
use wax_rng_oracle.Interleaved.Effect.{Serial, Serial-none, Serial-trans, Serial-IsValid}
use wax_rng_oracle.Interleaved.Parts.Kept.{PartOk, PartMove-PartKept}
use wax_rng_oracle.Interleaved.Results.{
  ResultPc, resting, sending, recalling, writing, marking, mark_posting, posting,
}
use wax_rng_oracle.Interleaved.Results.Kept.{ResultOk}
use wax_rng_oracle.Interleaved.Results.Caught.{ResultMove-ResultKept}
use wax_rng_oracle.Interleaved.Chores.{
  ChoreOf, AddsNoFailure, ChoreKept, DeliveryMove-ChoreKept, CleanupMove-ChoreKept,
  ClearMove-ChoreKept, DeliveredMove-ChoreKept,
}
use wax_rng_oracle.Interleaved.Calls.Steps.{
  call_of, calls_of, Step-call, perform_all-later, call_of-Ok,
}
use wax_rng_oracle.Interleaved.Versions.{
  IsVersioned, Versions, Versions-origin, after_call-Versions, ResultMove-Fair,
}
use wax_rng_oracle.Interleaved.System.{
  System, Step, part, result, delivery, cleans, clears, clears_delivered, monitors, Reach, done,
  later,
}

-- What the process may push: the member's own parts of listed jobs, results that the parts of listed
-- jobs combine to, deliveries and cleaning.
abbrev pub IsRight : Member → Outside → List Job → Action → Type 0
IsRight m o listed a = PartOf m o listed a ⊎ (ResultOf m o listed a ⊎ ChoreOf m a)

module _ (m : Member) (o : Outside) (listed : List Job) where
  -- From the state `s` on.
  record Inv (s : State) (t : System) : Type 0 where
    pushes : Pushes (IsRight m o listed) s t.shared
    serial : Serial s.db t.shared.db
    parts : PartOk m o listed t.parts
    results : ResultOk m o listed t.shared.db t.results
    versioned : Pushes (IsVersioned m listed s.db) s t.shared
    versions : Versions m listed s.db t.shared.db

  -- What `pollJobsToExecute` holds depends on the storage by the records that are not there.
  ResultOk-later :
      (d d' : Storage) (p : ResultPc)
      → AddsNoFailure d d'
      → ResultOk m o listed d p
      → ResultOk m o listed d' p
  ResultOk-later d d' (resting last) h ok = tt
  ResultOk-later d d' (sending signature job jobs) h ok = ok
  ResultOk-later d d' (recalling t job jobs none) h ok = (ok.0, ok.1, ok.2, h job.id ok.3)
  ResultOk-later d d' (recalling t job jobs (some f)) h ok = ok
  ResultOk-later d d' (writing t job jobs) h ok = ok
  ResultOk-later d d' (marking jobs) h ok = ok
  ResultOk-later d d' (mark_posting jobs) h ok = ok
  ResultOk-later d d' (posting jobs) h ok = ok

  -- No `markfailed` is pushed.
  PartOf-IsVersioned : (d : Storage) (a : Action) → PartOf m o listed a → IsVersioned m listed d a
  PartOf-IsVersioned d a p = subst (IsVersioned m listed d) (sym p.action) tt

  ChoreOf-IsVersioned : (d : Storage) (a : Action) → ChoreOf m a → IsVersioned m listed d a
  ChoreOf-IsVersioned d a (inl (id, e)) = subst (IsVersioned m listed d) (sym e) tt
  ChoreOf-IsVersioned d a (inr e) = subst (IsVersioned m listed d) (sym e) tt

  -- After a step that keeps the pushes right.
  keeps :
      {s : State} {t u : System}
      → Inv s t
      → (st : Step m o listed t u) → Pushes (IsRight m o listed) t.shared u.shared
      → Pushes (IsVersioned m listed s.db) t.shared u.shared
      → Serial t.shared.db u.shared.db
      → PartOk m o listed u.parts
      → ResultOk m o listed u.shared.db u.results
      → Inv s u
  keeps {s} {t} {u} inv st p v serial parts results = record {
    pushes = Pushes-trans inv.pushes p;
    serial = Serial-trans inv.serial serial;
    parts = parts;
    results = results;
    versioned = Pushes-trans inv.versioned v;
    versions =
        subst (Versions m listed s.db) (sym (Step-call m o listed t u st inv.parts inv.results)) (
          after_call-Versions m listed s.db (call_of st) t.shared.db
            (call_of-Ok m o listed s.db st inv.results) inv.versions);
  }

  with_chore :
      {s : State} {t u : System}
      → Inv s t
      → (st : Step m o listed t u) → ChoreKept m t.shared u.shared
      → u.parts ≡ t.parts
      → u.results ≡ t.results
      → Inv s u
  with_chore {s} {t} {u} inv st k same_parts same_results =
      keeps inv st (Pushes-map (ChoreOf m) _ (λ a c. inr (inr c)) k.0)
        (Pushes-map (ChoreOf m) _ (ChoreOf-IsVersioned s.db) k.0) k.1
        (subst (PartOk m o listed) (sym same_parts) inv.parts)
        (subst (ResultOk m o listed u.shared.db) (sym same_results)
          (ResultOk-later t.shared.db u.shared.db t.results k.2 inv.results))

  Step-Inv : {s : State} {t u : System} → IsValid s.db → Step m o listed t u → Inv s t → Inv s u
  Step-Inv {s} {t} v (part {s = s'} mv) inv =
      let (p, same, ok) = PartMove-PartKept m o listed mv inv.parts in
      keeps inv (part mv) (Pushes-map (PartOf m o listed) _ (λ a r. inl r) p)
        (Pushes-map (PartOf m o listed) _ (PartOf-IsVersioned s.db) p) (Serial-none _ s'.db same) ok
        (subst (λ d. ResultOk m o listed d t.results) (sym same) inv.results)
  Step-Inv {s} v (result mv) inv =
      let valid = Serial-IsValid inv.serial v in
      let (p, serial, ok) = ResultMove-ResultKept m o listed mv valid inv.results in
      keeps inv (result mv) (Pushes-map (ResultOf m o listed) _ (λ a r. inr (inl r)) p)
        (ResultMove-Fair m listed s.db o mv valid inv.versions) serial inv.parts ok
  Step-Inv v (delivery mv) inv =
      with_chore inv (delivery mv) (DeliveryMove-ChoreKept m mv) refl refl
  Step-Inv v (cleans mv) inv = with_chore inv (cleans mv) (CleanupMove-ChoreKept m mv) refl refl
  Step-Inv v (clears mv) inv = with_chore inv (clears mv) (ClearMove-ChoreKept m mv) refl refl
  Step-Inv v (clears_delivered mv) inv =
      with_chore inv (clears_delivered mv) (DeliveredMove-ChoreKept m mv) refl refl
  Step-Inv {t} v (monitors max_job_pending pending) inv =
      with_chore inv (monitors max_job_pending pending) watched refl refl
    where
      watched :
          ChoreKept m t.shared (if leb max_job_pending pending then post t.shared else t.shared)
      watched = elim (Bool-cases (leb max_job_pending pending)) [
        | inl many ↦ rw many (Pushes-none _ _ refl, Serial-none _ _ refl, λ id e. e)
        | inr few ↦ rw few (Pushes-none _ _ refl, Serial-none _ _ refl, λ id e. e)
      ]

  Reach-Inv : {s : State} {t : System} → IsValid s.db → Reach m o listed s t → Inv s t
  Reach-Inv {s} v done = record {
    pushes = Pushes-none s s refl;
    serial = Serial-none s.db s.db refl;
    parts = tt;
    results = tt;
    versioned = Pushes-none s s refl;
    versions = Versions-origin m listed s.db;
  }
  Reach-Inv v (later r st) = Step-Inv v st (Reach-Inv v r)

  -- From a valid storage, however the polls of a process interleave at their waits and whatever the
  -- chain lists and answers, all that they push is right: the member's own partial signatures of
  -- listed jobs that it acts on, `setrand` and `markfailed` with a signature that the own parts of a
  -- listed job that it acts on combine to, each with the id of that job and `setrand` with its version,
  -- and deliveries and cleaning in the member's name. And each `markfailed` is under the version of a listed
  -- job of its id that the member acts on, or under that of the failure record that the storage had of
  -- the id from the start.
  pub Reach-Right :
      (s : State) (t : System)
      → IsValid s.db
      → Reach m o listed s t
      → Pushes (IsRight m o listed) s t.shared × Pushes (IsVersioned m listed s.db) s t.shared
  Reach-Right s t v r = let i = Reach-Inv v r in (i.pushes, i.versioned)

  -- The storage after a run is the one that the calls of its steps give.
  Runs-calls :
      (s : State) (t : System)
      → IsValid s.db
      → (r : Reach m o listed s t) → t.shared.db ≡ perform_all (calls_of r) s.db
  unfolding calls_of perform_all
  Runs-calls s t v done = refl
  Runs-calls s t v (later {u} r st) =
      let i = Reach-Inv v r in
      perform_all-later (calls_of r) (call_of st) s.db u.shared.db t.shared.db (Runs-calls s u v r)
        (Step-call m o listed u t st i.parts i.results)

  -- From a valid storage, however the polls interleave, the storage is the one that calls of the methods of
  -- storage.js leave one after another, each done at once, and it is valid. The calls are those that
  -- the steps make, at most one each, in the order of the steps: `jobFailed` with the job that failed
  -- when its record has been read, if that record was not dropped since; `clearFailedJobs` and
  -- `clearDeliveryFailures` with the ids that were judged resolved, when the last row has been read; and
  -- `jobDeliverFail` with the row whose delivery failed. No other step changes the storage.
  pub Reach-Serial :
      (s : State) (t : System)
      → IsValid s.db
      → (r : Reach m o listed s t)
      → (t.shared.db ≡ perform_all (calls_of r) s.db) × IsValid t.shared.db
  Reach-Serial s t v r = (Runs-calls s t v r, Serial-IsValid (Reach-Inv v r).serial v)

-- ===== src/Startup/Interleaving.antt =====
-- What a process that polls pushes, however its polls interleave (index.js with lib/poller.js).
use wax_rng_oracle.Prelude.{ℕ, ◌≡◌, ◌⊎◌, inl, inr, subst, Bool, List, some}
use wax_rng_oracle.Model.{Job}
use wax_rng_oracle.Contract.{Action}
use wax_rng_oracle.Storage.{Storage}
use wax_rng_oracle.Storage.Cleared.{IsValid}
use wax_rng_oracle.Poller.{Member, Outside}
use wax_rng_oracle.Poller.Pushing.{Pushes, Pushes-map}
use wax_rng_oracle.Poller.SetPart.Pushes.{PartOf}
use wax_rng_oracle.Poller.Execute.Pushes.{ResultOf}
use wax_rng_oracle.Startup.{first_state, Setup, World, Poll, worker, run}
use wax_rng_oracle.Startup.Vetted.{Vetted, Good, run-Good}
use wax_rng_oracle.Startup.Signing.{acts_on-one}
use wax_rng_oracle.Interleaved.Chores.{ChoreOf}
use wax_rng_oracle.Interleaved.System.{System, Reach}
use wax_rng_oracle.Interleaved.Safety.{IsRight, Reach-Right}

-- The member's own part, or a result or failure, of a listed job whose version is `ver`; or a
-- delivery or cleaning in the member's name.
abbrev pub WorkFor : ℕ → Member → Outside → List Job → Action → Type 0
WorkFor ver m o listed a =
    ((p : PartOf m o listed a) × (p.job.ver ≡ ver))
    ⊎ (((p : ResultOf m o listed a) × (p.job.ver ≡ ver)) ⊎ ChoreOf m a)

IsRight-WorkFor :
    (m : Member) (o : Outside) (listed : List Job) (v : ℕ)
    → m.active_key_version ≡ some v
    → (a : Action) → IsRight m o listed a
    → WorkFor v m o listed a
IsRight-WorkFor m o listed v e a (inl p) =
    inl (p, acts_on-one v p.job.ver m.active_key_version e p.known)
IsRight-WorkFor m o listed v e a (inr (inl p)) =
    inr (inl (p, acts_on-one v p.job.ver m.active_key_version e p.known))
IsRight-WorkFor m o listed v e a (inr (inr c)) = inr (inr c)

pub record Works (s : Setup) (w : World) (m : Member) (o : Outside) (listed : List Job)
    (db : Storage) (t : System) : Type 0 where
  pub vetted : Vetted s w m
  pub actions : Pushes (WorkFor vetted.public_key.ver m o listed) (first_state db) t.shared

-- If a process gets as far as its polls, its share was initialized, and in one attempt the node showed an
-- active key and the member's row under the share's index, and the library found the share consistent
-- with that key. If its storage is valid, then however all its polls interleave at their waits, what
-- they push are the member's own partial signatures of listed jobs, results and failures of listed
-- jobs with the signature that their parts combine to, each of a job of the version of that key, and
-- deliveries and cleaning in the member's name.
pub run-Works :
    (s : Setup) (w : World) (serving : Bool) (ps : List (Poll × ℕ)) (m : Member) (db : Storage)
    (o : Outside) (listed : List Job) (t : System)
    → run s w ≡ worker serving ps m db
    → IsValid db
    → Reach m o listed (first_state db) t
    → Works s w m o listed db t
run-Works s w serving ps m db o listed t e h r =
    let v : Vetted s w m = subst (Good s w) e (run-Good s w) in
    record {
      vetted = v;
      actions =
          Pushes-map (IsRight m o listed) _ (IsRight-WorkFor m o listed v.public_key.ver v.version)
            (Reach-Right m o listed (first_state db) t h r).0;
    }

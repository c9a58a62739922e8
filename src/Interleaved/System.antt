-- ===== src/Interleaved/System.antt =====
-- The polls of one process over its shared state (index.js starts them and lib/poller.js runs them).
use wax_rng_oracle.Prelude.{ℕ, none, List, leb, if◌then◌else◌}
use wax_rng_oracle.Model.{Job}
use wax_rng_oracle.Poller.{State, Member, Outside, post}
use wax_rng_oracle.Interleaved.Parts.{PartPc, PartMove}
use wax_rng_oracle.Interleaved.Results.{ResultPc, ResultMove}
use wax_rng_oracle.Interleaved.Deliveries.{DeliveryPc, DeliveryMove, CleanupPc, CleanupMove}
use wax_rng_oracle.Interleaved.Clearing.{ClearPc, ClearMove, DeliveredPc, DeliveredMove}

pub record System : Type 0 where
  pub shared : State
  pub parts : PartPc
  pub results : ResultPc
  pub deliveries : DeliveryPc
  pub cleaning : CleanupPc
  pub clearing : ClearPc
  pub clearing_delivered : DeliveredPc

-- All polls rest.
abbrev pub begin : State → System
begin s = record {
  shared = s;
  parts = PartPc.resting none;
  results = ResultPc.resting none;
  deliveries = DeliveryPc.resting none;
  cleaning = CleanupPc.resting none;
  clearing = ClearPc.resting none;
  clearing_delivered = DeliveredPc.resting none;
}

-- One poll goes on from its wait to its next. `monitorPendingJob` changes nothing before its only
-- post, which depends on the number of pending jobs.
pub data Step (m : Member) (o : Outside) (listed : List Job) (t : System) : System → Type 0 where
  part :
      {p : PartPc} {s : State}
      → PartMove m o listed t.shared t.parts (p, s)
      → Step m o listed t (record t { shared = s; parts = p })
  result :
      {p : ResultPc} {s : State}
      → ResultMove m o listed t.shared t.results (p, s)
      → Step m o listed t (record t { shared = s; results = p })
  delivery :
      {p : DeliveryPc} {s : State}
      → DeliveryMove m t.shared t.deliveries (p, s)
      → Step m o listed t (record t { shared = s; deliveries = p })
  cleans :
      {p : CleanupPc} {s : State}
      → CleanupMove m t.shared t.cleaning (p, s)
      → Step m o listed t (record t { shared = s; cleaning = p })
  clears :
      {p : ClearPc} {s : State}
      → ClearMove t.shared t.clearing (p, s)
      → Step m o listed t (record t { shared = s; clearing = p })
  clears_delivered :
      {p : DeliveredPc} {s : State}
      → DeliveredMove t.shared t.clearing_delivered (p, s)
      → Step m o listed t (record t { shared = s; clearing_delivered = p })
  monitors :
      (max_job_pending pending : ℕ)
      → Step m o listed t
          (record t { shared = if leb max_job_pending pending then post t.shared else t.shared })

-- Any steps, in any order.
pub data Runs (m : Member) (o : Outside) (listed : List Job) (t : System) : System → Type 0 where
  done : Runs m o listed t t
  later : {u v : System} → Runs m o listed t u → Step m o listed u v → Runs m o listed t v

-- The systems that any steps lead to.
abbrev pub Reach : Member → Outside → List Job → State → System → Type 0
Reach m o listed s t = Runs m o listed (begin s) t

pub Runs-first :
    {m : Member} {o : Outside} {listed : List Job} {t u v : System}
    → Step m o listed t u
    → Runs m o listed u v
    → Runs m o listed t v
Runs-first st done = later done st
Runs-first st (later r st') = later (Runs-first st r) st'

pub Runs-trans :
    {m : Member} {o : Outside} {listed : List Job} {t u v : System}
    → Runs m o listed t u
    → Runs m o listed u v
    → Runs m o listed t v
Runs-trans r done = r
Runs-trans r (later q st) = later (Runs-trans r q) st

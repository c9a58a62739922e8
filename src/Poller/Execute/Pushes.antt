-- ===== src/Poller/Execute/Pushes.antt =====
-- What `pollJobsToExecute` pushes.
use mathlib.Core.List.{Memᴰ}
use wax_rng_oracle.Prelude.{
  ℕ, String, ◌≡◌, ◌⊎◌, sym, subst, refl, ap, true, ◌&&◌, not, Option, none, some, List, ◌∷◌, arith,
  includes, length, Bool-cases, inl, inr, ltb, text_eq,
}
use wax_rng_oracle.Model.{Job}
use wax_rng_oracle.Contract.{Action, setrand, markfailed}
use wax_rng_oracle.RngPusher.{
  RpcJson, no_error, no_detail, detail, Thrown, rpc, type_error, other, Pushed, sent, refused,
  silent, threw, set_random_number, mark_failed,
}
use wax_rng_oracle.ShareKey.{Diagnostics, Combined, combined, combine_error, combine_threw}
use wax_rng_oracle.Storage.{Failure}
use wax_rng_oracle.Storage.Fingerprint.{parts_fingerprint}
use wax_rng_oracle.Storage.Cleared.{IsValid, job_failed-IsValid}
use wax_rng_oracle.Poller.{
  State, Member, Outside, count, execute_failed, combine_failed, acts_on, post_combine_alert,
}
use wax_rng_oracle.Poller.Pushing.{Pushes, Pushes-none, Pushes-one}
use wax_rng_oracle.Poller.SetPart.{message, push_to}
use wax_rng_oracle.Poller.SetPart.Pushes.{left}
use wax_rng_oracle.Poller.Execute.Logged.{pushed-logged, db-logged}
use wax_rng_oracle.Poller.Execute.{
  Tried, passed_over, executed, not_combined, crashed, after_setrand, combination, use_combined,
  try_hash, try_job, usable, after_mark, mark, catch_other, alerted, record_failure, after_try,
}

-- The signature that the job's parts combine to.
pub record CombinesTo (m : Member) (o : Outside) (job : Job) (signature : String) : Type 0 where
  pub hash : String
  pub diagnostics : Diagnostics
  pub of_message : message o job ≡ some hash
  pub result : combination m o job hash ≡ combined signature diagnostics

-- A push that is right for one of the jobs, of a key version that the member acts on, in the
-- member's name and with the signature that the job's parts combine to.
pub record ResultOf (m : Member) (o : Outside) (jobs : List Job) (a : Action) : Type 0 where
  pub job : Job
  pub loaded : Memᴰ job jobs
  pub known : acts_on m.active_key_version job.ver ≡ true
  pub signature : String
  pub combines : CombinesTo m o job signature
  pub action :
      (a ≡ setrand m.owner job.id job.ver signature)
      ⊎ ((ver : ℕ) × (text : String) × (a ≡ markfailed m.owner job.id ver signature text))

-- A crash with a signature comes after the parts were combined to it.
abbrev pub Origin : Member → Outside → Job → Tried → Type 0
Origin m o job (crashed (some signature) e) = CombinesTo m o job signature
Origin m o job _ = Unit

module _ (m : Member) (o : Outside) (job : Job) (jobs : List Job)
    (known : acts_on m.active_key_version job.ver ≡ true) where
  abbrev pub P : Action → Type 0
  P = ResultOf m o (job ∷ jobs)

  abbrev right :
      (signature : String) (a : Action)
      → CombinesTo m o job signature
      → (a ≡ setrand m.owner job.id job.ver signature)
        ⊎ ((ver : ℕ) × (text : String) × (a ≡ markfailed m.owner job.id ver signature text))
      → P a
  right signature a c e = record {
    job = job;
    loaded = Memᴰ.head refl;
    known = known;
    signature = signature;
    combines = c;
    action = e;
  }

  -- The `try` block: what it pushes, where its signature comes from, and that it keeps the storage.
  abbrev pub Fine : State → Tried × State → Type 0
  Fine s r = Pushes P s r.1 × Origin m o job r.0 × (r.1.db ≡ s.db)

  after_setrand-Origin :
      (signature : String) (p : Pushed)
      → CombinesTo m o job signature
      → Origin m o job (after_setrand signature p)
  after_setrand-Origin signature (threw e) c = c
  after_setrand-Origin signature (sent id) c = tt
  after_setrand-Origin signature refused c = tt
  after_setrand-Origin signature silent c = tt

  use_combined-Fine :
      (hash : String) (c : Combined) (s : State)
      → message o job ≡ some hash
      → combination m o job hash ≡ c
      → Fine s (use_combined m o job c s)
  unfolding set_random_number
  use_combined-Fine hash (combined signature d) s e k =
      let c : CombinesTo m o job signature = record {
        hash = hash;
        diagnostics = d;
        of_message = e;
        result = k;
      } in
      elim (Bool-cases (text_eq signature "")) [
        | inl blank ↦ rw blank (Pushes-none s _ (pushed-logged d s), tt, db-logged d s)
        | inr there ↦ rw there (
          Pushes-one s _ _
              (ap (λ l. setrand m.owner job.id job.ver signature ∷ l) (pushed-logged d s))
              (right signature _ c (inl refl)),
          after_setrand-Origin signature _ c,
          db-logged d s,
        )
      ]
  use_combined-Fine hash (combine_error code rejected) s e k = (Pushes-none s s refl, tt, refl)
  use_combined-Fine hash combine_threw s e k = (Pushes-none s s refl, tt, refl)

  try_hash-Fine :
      (hash : Option String) (s : State) → message o job ≡ hash → Fine s (try_hash m o job hash s)
  try_hash-Fine none s e = (Pushes-none s s refl, tt, refl)
  try_hash-Fine (some hash) s e = elim (Bool-cases (ltb (length job.parts) m.threshold)) [
    | inl few ↦ rw few (Pushes-none s s refl, tt, refl)
    | inr many ↦ rw many (use_combined-Fine hash (combination m o job hash) s e refl)
  ]

  pub try_job-Fine : (s : State) → Fine s (try_job m o job s)
  unfolding try_job
  try_job-Fine s = try_hash-Fine (message o job) s refl

  -- The `catch` block.
  after_mark-pushed : (p : Pushed) (s : State) → (after_mark p s).pushed ≡ s.pushed
  after_mark-pushed (threw e) s = refl
  after_mark-pushed (sent id) s = refl
  after_mark-pushed refused s = refl
  after_mark-pushed silent s = refl

  after_mark-db : (p : Pushed) (s : State) → (after_mark p s).db ≡ s.db
  after_mark-db (threw e) s = refl
  after_mark-db (sent id) s = refl
  after_mark-db refused s = refl
  after_mark-db silent s = refl

  abbrev Good : State → State → Type 0
  Good s s' = Pushes P s s' × (s'.db ≡ s.db)

  mark-Good :
      (f : Failure) (signature : Option String) (e : Thrown) (j : RpcJson) (s : State)
      → f.id ≡ job.id
      → Origin m o job (crashed signature e)
      → Good s (mark m o f signature j s)
  unfolding mark_failed
  mark-Good f none e j s same c = (Pushes-none s s refl, refl)
  mark-Good f (some signature) e no_error s same c = (Pushes-none s s refl, refl)
  mark-Good f (some signature) e no_detail s same c = elim (Bool-cases (usable signature)) [
    | inl worth ↦ rw worth (Pushes-none s _ refl, refl)
    | inr idle ↦ rw idle (Pushes-none s s refl, refl)
  ]
  mark-Good f (some signature) e (detail text) s same c =
      elim (Bool-cases (usable signature && not (text_eq text ""))) [
        | inl worth ↦
            let (r, s') = mark_failed (push_to o) f.id m.owner f.ver signature text s in
            rw worth (
              Pushes-one s (after_mark r s') (markfailed m.owner f.id f.ver signature text)
                  (after_mark-pushed r s')
                  (right signature _ c (
                    inr (f.ver, text, ap (λ id. markfailed m.owner id f.ver signature text) same))),
              after_mark-db r s',
            )
        | inr idle ↦ rw idle (Pushes-none s s refl, refl)
      ]

  catch_other-Good :
      (f : Failure) (signature : Option String) (e : Thrown) (s : State)
      → f.id ≡ job.id
      → Origin m o job (crashed signature e)
      → Good s (left (catch_other m o f signature e s))
  catch_other-Good f signature (rpc no_error) s same c = (Pushes-none s s refl, refl)
  catch_other-Good f signature (rpc no_detail) s same c =
      let g = mark-Good f signature (rpc no_detail) no_detail s same c in
      (record { latest = g.0.latest; split = g.0.split; right = g.0.right }, g.1)
  catch_other-Good f signature (rpc (detail text)) s same c =
      elim (Bool-cases (includes text "no request found")) [
        | inl found ↦ rw found (Pushes-none s _ refl, refl)
        | inr new ↦
            let g = mark-Good f signature (rpc (detail text)) (detail text) s same c in
            rw new (record { latest = g.0.latest; split = g.0.split; right = g.0.right }, g.1)
      ]
  catch_other-Good f signature type_error s same c = (Pushes-none s _ refl, refl)
  catch_other-Good f signature (other e) s same c = (Pushes-none s _ refl, refl)

  -- From a valid storage a round leaves a valid one.
  abbrev pub Kept : State → State → Type 0
  Kept s s' = Pushes P s s' × IsValid s'.db

  pushed-alerted : (s : State) → (alerted m o s).pushed ≡ s.pushed
  unfolding post_combine_alert
  pushed-alerted s = ground arith

  db-alerted : (s : State) → (alerted m o s).db ≡ s.db
  unfolding post_combine_alert
  db-alerted s = ground arith

  pub after_try-Kept :
      (t : Tried) (s : State)
      → Origin m o job t
      → IsValid s.db
      → Kept s (left (after_try m o job t s))
  unfolding after_try
  after_try-Kept passed_over s c v = (Pushes-none s s refl, v)
  after_try-Kept executed s c v = (Pushes-none s _ refl, v)
  after_try-Kept not_combined s c v =
      let meta = some (parts_fingerprint o.sha256 job.parts) in
      let (f, s') = record_failure o job meta s in
      (
        Pushes-none s _ (pushed-alerted (count execute_failed (count combine_failed s'))),
        rw db-alerted (job_failed-IsValid (o.clock s) s.db job meta v).0,
      )
  after_try-Kept (crashed signature e) s c v =
      let (f, s') = record_failure o job none s in
      let (valid, same) = job_failed-IsValid (o.clock s) s.db job none v in
      let g = catch_other-Good f signature e s' same c in
      (
        record { latest = g.0.latest; split = g.0.split; right = g.0.right },
        subst IsValid (sym g.1) valid,
      )

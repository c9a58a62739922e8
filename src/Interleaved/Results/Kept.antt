-- ===== src/Interleaved/Results/Kept.antt =====
-- What a step of `pollJobsToExecute` keeps.
use wax_rng_oracle.Prelude.{
  String, ◌≡◌, refl, Option, none, some, List, [], ◌∷◌, Bool-cases, inl, inr, ltb, length, text_eq,
}
use wax_rng_oracle.Dict.{lookup}
use wax_rng_oracle.Model.{Job}
use wax_rng_oracle.ShareKey.{Diagnostics, Combined, combined, combine_error, combine_threw}
use wax_rng_oracle.Storage.{Storage, Failure}
use wax_rng_oracle.Poller.{State, Member, Outside, acts_on, is_known_key_version}
use wax_rng_oracle.Poller.Pushing.{Pushes, Pushes-none, Pushes-one, Pushes-trans}
use wax_rng_oracle.Poller.SetPart.{message}
use wax_rng_oracle.Poller.Execute.{combination, log_combine_diagnostics}
use wax_rng_oracle.Poller.Execute.Logged.{pushed-logged, db-logged}
use wax_rng_oracle.Poller.Execute.Pushes.{ResultOf, CombinesTo}
use wax_rng_oracle.Interleaved.Own.{
  IsOwn, AreListed, db-skipped, pushed-skipped, known-is_known, unknown-is_known,
}
use wax_rng_oracle.Interleaved.Effect.{Serial, Serial-none, Serial-trans}
use wax_rng_oracle.Interleaved.Results.{
  Trouble, crash, ResultPc, resting, sending, recalling, writing, marking, mark_posting, posting,
  Begun, passes, stops, sends, use_combination, use_hash, log_combination, log_hash, recall, act,
  next_result,
}

module _ (m : Member) (o : Outside) (listed : List Job) where
  -- A signature that was there comes of the job's parts.
  abbrev pub OriginOf : Job → Trouble → Type 0
  OriginOf job (crash (some signature) e) = CombinesTo m o job signature
  OriginOf job _ = Unit

  -- Of a job without a record nobody else has put one.
  abbrev pub Fits : Storage → Job → Option Failure → Type 0
  Fits d job none = lookup job.id d.failures ≡ none
  Fits d job (some f) = Unit

  -- What the poll holds while it waits.
  abbrev pub ResultOk : Storage → ResultPc → Type 0
  ResultOk d (resting last) = Unit
  ResultOk d (sending signature job jobs) =
      IsOwn m listed job × CombinesTo m o job signature × AreListed listed jobs
  ResultOk d (recalling t job jobs found) =
      IsOwn m listed job × OriginOf job t × AreListed listed jobs × Fits d job found
  ResultOk d (writing t job jobs) = IsOwn m listed job × OriginOf job t × AreListed listed jobs
  ResultOk d (marking jobs) = AreListed listed jobs
  ResultOk d (mark_posting jobs) = AreListed listed jobs
  ResultOk d (posting jobs) = AreListed listed jobs

  -- Only results of listed jobs are pushed, the storage is changed as its methods do, and so on at
  -- the next wait.
  abbrev pub ResultKept : State → ResultPc × State → Type 0
  ResultKept s r = Pushes (ResultOf m o listed) s r.1 × Serial s.db r.1.db × ResultOk r.1.db r.0

  -- Nothing is pushed, and the storage is the same.
  pub quiet :
      (s t : State) (p : ResultPc)
      → t.pushed ≡ s.pushed
      → t.db ≡ s.db
      → ResultOk t.db p
      → ResultKept s (p, t)
  quiet s t p e f ok = (Pushes-none s t e, Serial-none s.db t.db f, ok)

  pub ResultKept-after :
      {s t : State} (r : ResultPc × State)
      → t.pushed ≡ s.pushed
      → t.db ≡ s.db
      → ResultKept t r
      → ResultKept s r
  ResultKept-after {s} {t} r e f k =
      (Pushes-trans (Pushes-none s t e) k.0, Serial-trans (Serial-none s.db t.db f) k.1, k.2)

  Fits-lookup :
      (d : Storage) (job : Job) (found : Option Failure)
      → lookup job.id d.failures ≡ found
      → Fits d job found
  Fits-lookup d job none e = e
  Fits-lookup d job (some f) e = tt

  pub recall-ResultKept :
      (t : Trouble) (job : Job) (jobs : List Job) (s : State)
      → IsOwn m listed job
      → OriginOf job t
      → AreListed listed jobs
      → ResultKept s (recall t job jobs s)
  recall-ResultKept t job jobs s own c h =
      quiet s s (recalling t job jobs (lookup job.id s.db.failures)) refl refl
        (own, c, h, Fits-lookup s.db job (lookup job.id s.db.failures) refl)

  -- Where a signature of the `try` block comes from.
  abbrev BegunOk : Job → Begun → Type 0
  BegunOk job passes = Unit
  BegunOk job (stops t) = OriginOf job t
  BegunOk job (sends signature) = CombinesTo m o job signature

  use_combination-BegunOk :
      (job : Job) (hash : String) (c : Combined)
      → message o job ≡ some hash
      → combination m o job hash ≡ c
      → BegunOk job (use_combination c)
  use_combination-BegunOk job hash (combined signature d) e k =
      elim (Bool-cases (text_eq signature "")) [
        | inl blank ↦ rw blank tt
        | inr there ↦ rw there (record { hash = hash; diagnostics = d; of_message = e; result = k })
      ]
  use_combination-BegunOk job hash (combine_error code rejected) e k = tt
  use_combination-BegunOk job hash combine_threw e k = tt

  use_hash-BegunOk :
      (job : Job) (hash : Option String)
      → message o job ≡ hash
      → BegunOk job (use_hash m o job hash)
  use_hash-BegunOk job none e = tt
  use_hash-BegunOk job (some hash) e = elim (Bool-cases (ltb (length job.parts) m.threshold)) [
    | inl few ↦ rw few tt
    | inr many ↦ rw many (use_combination-BegunOk job hash (combination m o job hash) e refl)
  ]

  -- The log keeps what it keeps of a combination.
  log_hash-kept {ℓ} :
      {B : Type ℓ} (field : State → B)
      → ((d : Diagnostics) (s : State) → field (log_combine_diagnostics d s) ≡ field s)
      → (job : Job) (hash : Option String) (s : State) → field (log_hash m o job hash s) ≡ field s
  log_hash-kept field kept job none s = refl
  log_hash-kept field kept job (some hash) s =
      elim (Bool-cases (ltb (length job.parts) m.threshold)) [
        | inl few ↦ rw few refl
        | inr many ↦ rw many (of_combination (combination m o job hash))
      ]
    where
      of_combination : (c : Combined) → field (log_combination c s) ≡ field s
      of_combination (combined signature d) = kept d s
      of_combination (combine_error code rejected) = refl
      of_combination combine_threw = refl

  pub pushed-log_hash :
      (job : Job) (hash : Option String) (s : State) → (log_hash m o job hash s).pushed ≡ s.pushed
  pushed-log_hash job hash s = log_hash-kept (λ t. t.pushed) pushed-logged job hash s

  pub db-log_hash :
      (job : Job) (hash : Option String) (s : State) → (log_hash m o job hash s).db ≡ s.db
  db-log_hash job hash s = log_hash-kept (λ t. t.db) db-logged job hash s

  act-ResultKept :
      (job : Job) (jobs : List Job) (rest : ResultPc × State) (b : Begun) (s : State)
      → IsOwn m listed job
      → AreListed listed jobs
      → ResultKept s rest
      → BegunOk job b
      → ResultKept s (act m job jobs rest b s)
  act-ResultKept job jobs rest passes s own h k c = k
  act-ResultKept job jobs rest (stops t) s own h k c = recall-ResultKept t job jobs s own c h
  act-ResultKept job jobs rest (sends signature) s own h k c = (
    Pushes-one s _ _ refl (record {
      job = job;
      loaded = own.among;
      known = own.known;
      signature = signature;
      combines = c;
      action = inl refl;
    }),
    Serial-none s.db s.db refl,
    (own, c, h),
  )

  pub next_result-ResultKept :
      (jobs : List Job) (s : State) → AreListed listed jobs → ResultKept s (next_result m o jobs s)
  unfolding next_result
  next_result-ResultKept [] s h = quiet s s (resting none) refl refl tt
  next_result-ResultKept (job ∷ jobs) s h =
      elim (Bool-cases (acts_on m.active_key_version job.ver)) [
        | inl known ↦
            let hash = message o job in
            let logged = log_hash m o job hash s in
            rw (known-is_known m job s known) (
              ResultKept-after _ (pushed-log_hash job hash s) (db-log_hash job hash s) (
                act-ResultKept job jobs _ (use_hash m o job hash) logged
                  (record { among = h.0; known = known }) h.1
                  (next_result-ResultKept jobs logged h.1) (use_hash-BegunOk job hash refl)))
        | inr unknown ↦ rw (unknown-is_known m job s unknown) (
            ResultKept-after _ (pushed-skipped m job s) (db-skipped m job s)
              (next_result-ResultKept jobs (is_known_key_version m job s).1 h.1))
      ]

-- ===== src/Interleaved/Unbroken.antt =====
-- How `pollJobsToExecute` keeps the record of a failed job while it waits.
use wax_rng_oracle.Prelude.{
  ℕ, String, ◌≡◌, refl, not, ◌&&◌, Option, none, some, List, [], ◌∷◌, arith, Bool-cases, inl, inr,
  includes, text_eq, ltb, length,
}
use wax_rng_oracle.Dict.{Dict, lookup, put, lookup-put}
use wax_rng_oracle.Model.{Job}
use wax_rng_oracle.RngPusher.{
  RpcJson, no_error, no_detail, detail, Thrown, rpc, type_error, other, Pushed, sent, refused,
  silent, threw, refuse, setrand_refusals, markfailed_refusals,
}
use wax_rng_oracle.RngPusher.Refusals.{Unexpected, refuse-rpc}
use wax_rng_oracle.ShareKey.{Combined, combined, combine_error, combine_threw}
use wax_rng_oracle.Storage.{Failure, failure_after}
use wax_rng_oracle.Poller.{
  State, Member, Outside, count, acts_on, job_collision, is_known_key_version,
}
use wax_rng_oracle.Poller.SetPart.{message}
use wax_rng_oracle.Poller.Execute.{usable, combination}
use wax_rng_oracle.Interleaved.Own.{known-is_known, unknown-is_known}
use wax_rng_oracle.Interleaved.Results.{
  Trouble, uncombined, crash, ResultPc, resting, recalling, writing, Begun, passes, stops, sends,
  use_combination, use_hash, log_hash, recall, act, next_result, after_send, meta_of, recalled,
  catch_rpc, catch_thrown, written, after_marking, ResultMove, loaded, not_loaded, answers, reads,
  writes, is_marked, mark_is_posted, is_posted,
}

-- An error that the `catch` block can read.
abbrev pub Readable : Trouble → Type 0
Readable (crash signature (rpc no_error)) = ⊥
Readable _ = Unit

-- The storage has a record of the job.
abbrev pub Recorded : Dict Failure → Job → Type 0
Recorded d job = (f : Failure) × (lookup job.id d ≡ some f)

-- While the poll waits between reading a record and reading it again, the record is there.
abbrev pub Unbroken : Dict Failure → ResultPc → Type 0
Unbroken d (resting none) = Unit
Unbroken d (resting (some e)) = ⊥
Unbroken d (recalling t job jobs none) = Readable t
Unbroken d (recalling t job jobs (some f)) = Readable t × Recorded d job
Unbroken d (writing t job jobs) = Readable t × Recorded d job
Unbroken d _ = Unit

abbrev Sound : ResultPc × State → Type 0
Sound r = Unbroken r.1.db.failures r.0

recall-Sound :
    (t : Trouble) (job : Job) (jobs : List Job) (s : State)
    → Readable t
    → Sound (recall t job jobs s)
recall-Sound t job jobs s h = split (lookup job.id s.db.failures) refl
  where
    split :
        (found : Option Failure)
        → lookup job.id s.db.failures ≡ found
        → Sound (recalling t job jobs found, s)
    split none e = h
    split (some f) e = (h, (f, e))

module _ (m : Member) (o : Outside) where
  abbrev Stops : Begun → Type 0
  Stops (stops t) = Readable t
  Stops _ = Unit

  use_combination-Stops : (c : Combined) → Stops (use_combination c)
  use_combination-Stops (combined signature d) = elim (Bool-cases (text_eq signature "")) [
    | inl blank ↦ rw blank tt
    | inr there ↦ rw there tt
  ]
  use_combination-Stops (combine_error code rejected) = tt
  use_combination-Stops combine_threw = tt

  use_hash-Stops : (job : Job) (hash : Option String) → Stops (use_hash m o job hash)
  use_hash-Stops job none = tt
  use_hash-Stops job (some hash) = elim (Bool-cases (ltb (length job.parts) m.threshold)) [
    | inl few ↦ rw few tt
    | inr many ↦ rw many (use_combination-Stops (combination m o job hash))
  ]

  act-Sound :
      (job : Job) (jobs : List Job) (rest : ResultPc × State) (b : Begun) (s : State)
      → Sound rest
      → Stops b
      → Sound (act m job jobs rest b s)
  act-Sound job jobs rest passes s k h = k
  act-Sound job jobs rest (stops t) s k h = recall-Sound t job jobs s h
  act-Sound job jobs rest (sends signature) s k h = tt

  next_result-Sound : (jobs : List Job) (s : State) → Sound (next_result m o jobs s)
  unfolding next_result
  next_result-Sound [] s = tt
  next_result-Sound (job ∷ jobs) s = elim (Bool-cases (acts_on m.active_key_version job.ver)) [
    | inl known ↦
        let logged = log_hash m o job (message o job) s in
        rw (known-is_known m job s known) (
          act-Sound job jobs _ (use_hash m o job (message o job)) logged
            (next_result-Sound jobs logged) (use_hash-Stops job (message o job)))
    | inr unknown ↦
        rw (unknown-is_known m job s unknown)
          (next_result-Sound jobs (is_known_key_version m job s).1)
  ]

  thrown-Readable :
      (signature : String) (e : Thrown)
      → ((j : RpcJson) → threw e ≡ threw (rpc j) → Unexpected setrand_refusals j)
      → Readable (crash (some signature) e)
  thrown-Readable signature (rpc no_error) h = h no_error refl
  thrown-Readable signature (rpc no_detail) h = tt
  thrown-Readable signature (rpc (detail text)) h = tt
  thrown-Readable signature type_error h = tt
  thrown-Readable signature (other e) h = tt

  after_send-Sound :
      (signature : String) (job : Job) (jobs : List Job) (p : Pushed) (s : State)
      → ((j : RpcJson) → p ≡ threw (rpc j) → Unexpected setrand_refusals j)
      → Sound (after_send m o signature job jobs p s)
  after_send-Sound signature job jobs (threw e) s h =
      recall-Sound (crash (some signature) e) job jobs s (thrown-Readable signature e h)
  after_send-Sound signature job jobs (sent id) s h = next_result-Sound jobs _
  after_send-Sound signature job jobs refused s h = next_result-Sound jobs _
  after_send-Sound signature job jobs silent s h = next_result-Sound jobs _

  Recorded-put :
      (now : ℕ) (job : Job) (meta : Option String) (old : Option Failure) (d : Dict Failure)
      → Recorded (put job.id (failure_after now job meta old) d) job
  Recorded-put now job meta old d = (failure_after now job meta old, rw lookup-put (ground arith))

  recalled-Sound :
      (now : ℕ) (t : Trouble) (job : Job) (jobs : List Job) (found : Option Failure) (s : State)
      → Unbroken s.db.failures (recalling t job jobs found)
      → Sound (recalled o now t job jobs found s)
  recalled-Sound now t job jobs none s h =
      (h, Recorded-put now job (meta_of o job t) none s.db.failures)
  recalled-Sound now t job jobs (some f) s (h, (g, e)) =
      (h, rw e (Recorded-put now job (meta_of o job t) (some g) s.db.failures))

  catch_rpc-Sound :
      (f : Failure) (jobs : List Job) (signature : Option String) (j : RpcJson) (s : State)
      → Readable (crash signature (rpc j))
      → Sound (catch_rpc m o f jobs signature j s)
  catch_rpc-Sound f jobs signature no_error s h = h
  catch_rpc-Sound f jobs none no_detail s h = tt
  catch_rpc-Sound f jobs (some signature) no_detail s h = elim (Bool-cases (usable signature)) [
    | inl worth ↦ rw worth tt
    | inr idle ↦ rw idle tt
  ]
  catch_rpc-Sound f jobs none (detail text) s h =
      elim (Bool-cases (includes text "no request found")) [
        | inl found ↦ rw found (next_result-Sound jobs (count job_collision s))
        | inr new ↦ rw new tt
      ]
  catch_rpc-Sound f jobs (some signature) (detail text) s h =
      elim (Bool-cases (includes text "no request found")) [
        | inl found ↦ rw found (next_result-Sound jobs (count job_collision s))
        | inr new ↦ elim (Bool-cases (usable signature && not (text_eq text ""))) [
          | inl worth ↦ rw (new, worth) tt
          | inr idle ↦ rw (new, idle) tt
        ]
      ]

  catch_thrown-Sound :
      (f : Failure) (jobs : List Job) (signature : Option String) (e : Thrown) (s : State)
      → Readable (crash signature e)
      → Sound (catch_thrown m o f jobs signature e s)
  catch_thrown-Sound f jobs signature (rpc j) s h = catch_rpc-Sound f jobs signature j s h
  catch_thrown-Sound f jobs signature type_error s h = tt
  catch_thrown-Sound f jobs signature (other e) s h = tt

  written-Sound :
      (now : ℕ) (t : Trouble) (job : Job) (jobs : List Job) (s : State)
      → Unbroken s.db.failures (writing t job jobs)
      → Sound (written m o now t jobs (lookup job.id s.db.failures) s)
  written-Sound now uncombined job jobs s h = tt
  written-Sound now (crash signature e) job jobs s (h, (f, there)) =
      rw there (catch_thrown-Sound f jobs signature e s h)

  after_marking-Sound : (jobs : List Job) (p : Pushed) (s : State) → Sound (after_marking jobs p s)
  after_marking-Sound jobs (threw e) s = tt
  after_marking-Sound jobs (sent id) s = tt
  after_marking-Sound jobs refused s = tt
  after_marking-Sound jobs silent s = tt

  -- The load of the jobs does not throw.
  abbrev pub Loads :
      {listed : List Job} {s : State} {p : ResultPc} {r : ResultPc × State}
      → ResultMove m o listed s p r
      → Type 0
  Loads (not_loaded e) = ⊥
  Loads _ = Unit

  pub ResultMove-Unbroken :
      {listed : List Job} {s : State} {p : ResultPc} {r : ResultPc × State}
      (mv : ResultMove m o listed s p r)
      → Loads mv
      → Unbroken s.db.failures p
      → Unbroken r.1.db.failures r.0
  ResultMove-Unbroken {s} (loaded jobs h) loads ok = next_result-Sound jobs s
  ResultMove-Unbroken (not_loaded e) loads ok = absurd loads
  ResultMove-Unbroken {s} (answers {signature} {job} {jobs} a) loads ok =
      after_send-Sound signature job jobs (refuse setrand_refusals a) s
        (refuse-rpc setrand_refusals a)
  ResultMove-Unbroken {s} (reads {t} {job} {jobs} {found} now) loads ok =
      recalled-Sound now t job jobs found s ok
  ResultMove-Unbroken {s} (writes {t} {job} {jobs} now) loads ok = written-Sound now t job jobs s ok
  ResultMove-Unbroken {s} (is_marked {jobs} a) loads ok =
      after_marking-Sound jobs (refuse markfailed_refusals a) s
  ResultMove-Unbroken mark_is_posted loads ok = tt
  ResultMove-Unbroken {s} (is_posted {jobs}) loads ok = next_result-Sound jobs s

-- ===== src/Interleaved/Added.antt =====
-- `pollJobsToExecute` deletes no failure record (lib/poller.js, `jobFailed` of lib/storage.js).
use wax_rng_oracle.Prelude.{
  ℕ, String, ◌≡◌, refl, ◌∙◌, subst, not, ◌&&◌, Option, none, some, List, [], ◌∷◌, arith, Bool-cases,
  inl, inr, includes, text_eq,
}
use wax_rng_oracle.Dict.{Dict, lookup, put, lookup-put}
use wax_rng_oracle.Model.{Job}
use wax_rng_oracle.RngPusher.{
  RpcJson, no_error, no_detail, detail, rpc, type_error, other, Pushed, sent, refused, silent,
  threw, refuse, setrand_refusals, markfailed_refusals,
}
use wax_rng_oracle.Storage.{Storage, Failure, failure_after}
use wax_rng_oracle.Poller.{
  State, Member, Outside, count, acts_on, is_known_key_version, job_collision, execute_failed,
  combine_failed,
}
use wax_rng_oracle.Poller.SetPart.{message}
use wax_rng_oracle.Poller.Execute.{usable}
use wax_rng_oracle.Interleaved.Own.{db-skipped, known-is_known, unknown-is_known}
use wax_rng_oracle.Interleaved.Results.{
  Trouble, uncombined, crash, ResultPc, Begun, passes, stops, sends, use_hash, log_hash, act,
  next_result, after_send, meta_of, remember, change_in_place, catch_rpc, written, after_marking,
  ResultMove, loaded, not_loaded, answers, reads, writes, is_marked, mark_is_posted, is_posted,
}
use wax_rng_oracle.Interleaved.Results.Kept.{db-log_hash}
use wax_rng_oracle.Interleaved.Results.Caught.{db-alert}

-- The ids without a record had none before.
abbrev pub Adds : Dict Failure → Dict Failure → Type 0
Adds d d' = (id : ℕ) → lookup id d' ≡ none → lookup id d ≡ none

Adds-put : (k : ℕ) (f : Failure) (d : Dict Failure) → Adds d (put k f d)
Adds-put k f d id e = ground (arith, lookup-put k id f d, e)

-- Most steps leave the storage as it is.
abbrev Still : State → ResultPc × State → Type 0
Still s r = r.1.db ≡ s.db

module _ (m : Member) (o : Outside) (listed : List Job) where
  act-Still :
      (job : Job) (jobs : List Job) (rest : ResultPc × State) (b : Begun) (s : State)
      → Still s rest
      → Still s (act m job jobs rest b s)
  act-Still job jobs rest passes s h = h
  act-Still job jobs rest (stops t) s h = refl
  act-Still job jobs rest (sends signature) s h = refl

  pub next_result-Still : (jobs : List Job) (s : State) → Still s (next_result m o jobs s)
  unfolding next_result
  next_result-Still [] s = refl
  next_result-Still (job ∷ jobs) s = elim (Bool-cases (acts_on m.active_key_version job.ver)) [
    | inl known ↦
        let hash = message o job in
        let logged = log_hash m o job hash s in
        rw (known-is_known m job s known) (
          act-Still job jobs _ (use_hash m o job hash) logged (next_result-Still jobs logged)
          ∙ db-log_hash m o listed job hash s)
    | inr unknown ↦
        rw (unknown-is_known m job s unknown)
          (next_result-Still jobs (is_known_key_version m job s).1 ∙ db-skipped m job s)
  ]

  pub after_send-Still :
      (signature : String) (job : Job) (jobs : List Job) (p : Pushed) (s : State)
      → Still s (after_send m o signature job jobs p s)
  after_send-Still signature job jobs (threw e) s = refl
  after_send-Still signature job jobs (sent id) s = next_result-Still jobs _
  after_send-Still signature job jobs refused s = next_result-Still jobs _
  after_send-Still signature job jobs silent s = next_result-Still jobs _

  catch_rpc-Still :
      (f : Failure) (jobs : List Job) (signature : Option String) (j : RpcJson) (s : State)
      → Still s (catch_rpc m o f jobs signature j s)
  catch_rpc-Still f jobs signature no_error s = refl
  catch_rpc-Still f jobs none no_detail s = refl
  catch_rpc-Still f jobs (some signature) no_detail s = elim (Bool-cases (usable signature)) [
    | inl worth ↦ rw worth refl
    | inr idle ↦ rw idle refl
  ]
  catch_rpc-Still f jobs none (detail text) s =
      elim (Bool-cases (includes text "no request found")) [
        | inl found ↦ rw found (next_result-Still jobs (count job_collision s))
        | inr new ↦ rw new refl
      ]
  catch_rpc-Still f jobs (some signature) (detail text) s =
      elim (Bool-cases (includes text "no request found")) [
        | inl found ↦ rw found (next_result-Still jobs (count job_collision s))
        | inr new ↦ elim (Bool-cases (usable signature && not (text_eq text ""))) [
          | inl worth ↦ rw (new, worth) refl
          | inr idle ↦ rw (new, idle) refl
        ]
      ]

  pub written-Still :
      (now : ℕ) (t : Trouble) (jobs : List Job) (found : Option Failure) (s : State)
      → Still s (written m o now t jobs found s)
  written-Still now uncombined jobs found s =
      db-alert m o listed now (count execute_failed (count combine_failed s))
  written-Still now (crash signature e) jobs none s = refl
  written-Still now (crash signature (rpc j)) jobs (some f) s = catch_rpc-Still f jobs signature j s
  written-Still now (crash signature type_error) jobs (some f) s = refl
  written-Still now (crash signature (other e)) jobs (some f) s = refl

  pub after_marking-Still :
      (jobs : List Job) (p : Pushed) (s : State) → Still s (after_marking jobs p s)
  after_marking-Still jobs (threw e) s = refl
  after_marking-Still jobs (sent id) s = refl
  after_marking-Still jobs refused s = refl
  after_marking-Still jobs silent s = refl

  remember-Adds :
      (now : ℕ) (job : Job) (meta : Option String) (found : Option Failure) (d : Dict Failure)
      → Adds d (remember now job meta found d)
  remember-Adds now job meta none d = Adds-put job.id (failure_after now job meta none) d
  remember-Adds now job meta (some f) d = changed (lookup job.id d)
    where
      changed : (current : Option Failure) → Adds d (change_in_place now job meta current d)
      changed none id e = e
      changed (some g) id e = Adds-put job.id (failure_after now job meta (some g)) d id e

  Adds-same : (d d' : Storage) → d' ≡ d → Adds d.failures d'.failures
  Adds-same d d' h id e = subst (λ (x : Storage). lookup id x.failures ≡ none) h e

  pub ResultMove-Adds :
      {s : State} {p : ResultPc} {r : ResultPc × State}
      → ResultMove m o listed s p r
      → Adds s.db.failures r.1.db.failures
  ResultMove-Adds {s} (loaded jobs h) = Adds-same s.db _ (next_result-Still jobs s)
  ResultMove-Adds (not_loaded x) = λ id e. e
  ResultMove-Adds {s} (answers {signature} {job} {jobs} a) =
      Adds-same s.db _ (after_send-Still signature job jobs (refuse setrand_refusals a) s)
  ResultMove-Adds {s} (reads {t} {job} {jobs} {found} now) =
      remember-Adds now job (meta_of o job t) found s.db.failures
  ResultMove-Adds {s} (writes {t} {job} {jobs} now) =
      Adds-same s.db _ (written-Still now t jobs (lookup job.id s.db.failures) s)
  ResultMove-Adds {s} (is_marked {jobs} a) =
      Adds-same s.db _ (after_marking-Still jobs (refuse markfailed_refusals a) s)
  ResultMove-Adds mark_is_posted = λ id e. e
  ResultMove-Adds {s} (is_posted {jobs}) = Adds-same s.db _ (next_result-Still jobs s)

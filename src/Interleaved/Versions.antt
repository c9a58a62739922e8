-- ===== src/Interleaved/Versions.antt =====
-- Under which key version `pollJobsToExecute` pushes `markfailed` (lib/poller.js): the one of the
-- failure record, which is that of the job as the failure was first recorded (lib/storage.js).
use wax_rng_oracle.Prelude.{
  ℕ, String, ◌≡◌, ◌⊎◌, inl, inr, refl, sym, subst, not, ◌&&◌, ◌==◌, ==_iff, Option, none, some,
  List, [], ◌∷◌, includes, text_eq, any, Bool-cases, arith,
}
use wax_rng_oracle.Dict.{Dict, lookup, put, lookup-put, lookup-remove_all}
use wax_rng_oracle.Dict.Table.{key-lookup}
use wax_rng_oracle.Model.{Job}
use wax_rng_oracle.Contract.{Action, markfailed}
use wax_rng_oracle.RngPusher.{
  RpcJson, no_error, no_detail, detail, rpc, type_error, other, Pushed, sent, refused, silent,
  threw, refuse, setrand_refusals, markfailed_refusals,
}
use wax_rng_oracle.Storage.{
  Storage, Failure, failure_after, job_failed, clear_failed_jobs, job_deliver_fail,
  clear_delivery_failures,
}
use wax_rng_oracle.Storage.Cleared.{
  Call, job_failed_call, clear_failed_call, deliver_fail_call, clear_deliveries_call, perform,
  IsValid,
}
use wax_rng_oracle.Poller.{
  State, Member, Outside, acts_on, is_known_key_version, count, executed_job, job_collision,
  execute_failed, combine_failed,
}
use wax_rng_oracle.Poller.Pushing.{Pushes, Pushes-none, Pushes-one, Pushes-trans}
use wax_rng_oracle.Poller.SetPart.{message}
use wax_rng_oracle.Poller.Execute.{usable}
use wax_rng_oracle.Interleaved.Own.{IsOwn, pushed-skipped, known-is_known, unknown-is_known}
use wax_rng_oracle.Interleaved.Results.{
  Trouble, uncombined, crash, ResultPc, Begun, passes, stops, sends, use_hash, log_hash, act,
  next_result, after_send, catch_rpc, written, after_marking, ResultMove, loaded, not_loaded,
  answers, reads, writes, is_marked, mark_is_posted, is_posted,
}
use wax_rng_oracle.Interleaved.Results.Kept.{pushed-log_hash}
use wax_rng_oracle.Interleaved.Results.Caught.{pushed-alert}
use wax_rng_oracle.Interleaved.Calls.{after_call}

module _ (m : Member) (listed : List Job) (origin : Storage) where
  -- The version of a listed job of this id that the member acts on, or of the record that the storage
  -- had of the id at first.
  abbrev pub VersionFrom : ℕ → ℕ → Type 0
  VersionFrom id ver =
      ((job : Job) × IsOwn m listed job × (job.id ≡ id) × (job.ver ≡ ver))
      ⊎ ((f : Failure) × (lookup id origin.failures ≡ some f) × (f.ver ≡ ver))

  -- Every record has such a version.
  abbrev pub Versions : Storage → Type 0
  Versions d = (id : ℕ) (f : Failure) → lookup id d.failures ≡ some f → VersionFrom id f.ver

  pub Versions-origin : Versions origin
  Versions-origin id f e = inr (f, e, refl)

  -- The calls that the polls make: a failure is recorded of a listed job that the member acts on.
  abbrev pub CallOk : Option Call → Type 0
  CallOk none = Unit
  CallOk (some (job_failed_call now job meta)) = IsOwn m listed job
  CallOk (some (clear_failed_call ids)) = Unit
  CallOk (some (deliver_fail_call now u)) = Unit
  CallOk (some (clear_deliveries_call ids)) = Unit
  CallOk (some _) = ⊥

  put-Versions :
      (now : ℕ) (job : Job) (meta : Option String) (d : Dict Failure)
      → IsOwn m listed job
      → ((id : ℕ) (f : Failure) → lookup id d ≡ some f → VersionFrom id f.ver)
      → (id : ℕ) (f : Failure)
      → lookup id (put job.id (failure_after now job meta (lookup job.id d)) d) ≡ some f
      → VersionFrom id f.ver
  put-Versions now job meta d own h id f e =
      let was = lookup-put job.id id (failure_after now job meta (lookup job.id d)) d in
      elim (Bool-cases (job.id == id)) [
        | inl same ↦
            let at : job.id ≡ id = (==_iff job.id id).0 same in
            let now_there : some (failure_after now job meta (lookup job.id d)) ≡ some f =
              ground (arith, was, e, same) in
            split (lookup job.id d) refl at now_there
        | inr apart ↦
            let before : lookup id d ≡ some f = ground (arith, was, e, apart) in h id f before
      ]
    where
      split :
          (old : Option Failure)
          → lookup job.id d ≡ old
          → job.id ≡ id
          → some (failure_after now job meta old) ≡ some f
          → VersionFrom id f.ver
      split none k at q = inl (job, own, at, cc)
      split (some g) k at q =
          let same : g.ver ≡ f.ver = cc in
          subst (λ v. VersionFrom id v) same (h id g (subst (λ (i : ℕ). lookup i d ≡ some g) at k))

  pub after_call-Versions :
      (c : Option Call) (d : Storage) → CallOk c → Versions d → Versions (after_call c d)
  unfolding perform job_failed clear_failed_jobs job_deliver_fail clear_delivery_failures
  after_call-Versions none d ok h = h
  after_call-Versions (some (job_failed_call now job meta)) d ok h =
      put-Versions now job meta d.failures ok h
  after_call-Versions (some (clear_failed_call ids)) d ok h = λ id f e.
      elim (Bool-cases (any (λ k. k == id) ids)) [
        | inl dropped ↦
            let gone : none ≡ some f =
              ground (arith, lookup-remove_all ids id d.failures, e, dropped) in
            absurd (cc)
        | inr kept ↦ h id f (ground (arith, lookup-remove_all ids id d.failures, e, kept))
      ]
  after_call-Versions (some (deliver_fail_call now u)) d ok h = h
  after_call-Versions (some (clear_deliveries_call ids)) d ok h = h
  after_call-Versions (some c) d ok h = absurd ok

  -- A `markfailed` is under such a version.
  abbrev pub IsVersioned : Action → Type 0
  IsVersioned (markfailed owner id ver signature text) = VersionFrom id ver
  IsVersioned _ = Unit

  -- Only such actions are pushed from the one state to the other.
  abbrev Fair : State → State → Type 0
  Fair s t = Pushes IsVersioned s t

  same-Fair : (s t : State) → t.pushed ≡ s.pushed → Fair s t
  same-Fair s t e = Pushes-none s t e

  after-Fair : {s t u : State} → t.pushed ≡ s.pushed → Fair t u → Fair s u
  after-Fair {s} {t} e h = Pushes-trans (same-Fair s t e) h

  module _ (o : Outside) where
    act-Fair :
        (job : Job) (jobs : List Job) (rest : ResultPc × State) (b : Begun) (s : State)
        → Fair s rest.1
        → Fair s (act m job jobs rest b s).1
    act-Fair job jobs rest passes s h = h
    act-Fair job jobs rest (stops t) s h = same-Fair s s refl
    act-Fair job jobs rest (sends signature) s h = Pushes-one s _ _ refl tt

    next_result-Fair : (jobs : List Job) (s : State) → Fair s (next_result m o jobs s).1
    unfolding next_result
    next_result-Fair [] s = same-Fair s s refl
    next_result-Fair (job ∷ jobs) s = elim (Bool-cases (acts_on m.active_key_version job.ver)) [
      | inl known ↦
          let hash = message o job in
          let logged = log_hash m o job hash s in
          rw (known-is_known m job s known) (
            after-Fair (pushed-log_hash m o listed job hash s)
              (act-Fair job jobs _ (use_hash m o job hash) logged (next_result-Fair jobs logged)))
      | inr unknown ↦ rw (unknown-is_known m job s unknown) (
          after-Fair (pushed-skipped m job s)
            (next_result-Fair jobs (is_known_key_version m job s).1))
    ]

    counted-Fair :
        (jobs : List Job) (s t : State) → t.pushed ≡ s.pushed → Fair s (next_result m o jobs t).1
    counted-Fair jobs s t e = after-Fair e (next_result-Fair jobs t)

    after_send-Fair :
        (signature : String) (job : Job) (jobs : List Job) (p : Pushed) (s : State)
        → Fair s (after_send m o signature job jobs p s).1
    after_send-Fair signature job jobs (threw e) s = same-Fair s s refl
    after_send-Fair signature job jobs (sent id) s = counted-Fair jobs s (count executed_job s) refl
    after_send-Fair signature job jobs refused s = counted-Fair jobs s (count executed_job s) refl
    after_send-Fair signature job jobs silent s = counted-Fair jobs s (count executed_job s) refl

    catch_rpc-Fair :
        (f : Failure) (jobs : List Job) (signature : Option String) (j : RpcJson) (s : State)
        → VersionFrom f.id f.ver
        → Fair s (catch_rpc m o f jobs signature j s).1
    catch_rpc-Fair f jobs signature no_error s v = same-Fair s s refl
    catch_rpc-Fair f jobs none no_detail s v = same-Fair s _ refl
    catch_rpc-Fair f jobs (some signature) no_detail s v = elim (Bool-cases (usable signature)) [
      | inl worth ↦ rw worth (same-Fair s _ refl)
      | inr idle ↦ rw idle (same-Fair s _ refl)
    ]
    catch_rpc-Fair f jobs none (detail text) s v =
        elim (Bool-cases (includes text "no request found")) [
          | inl found ↦ rw found (counted-Fair jobs s (count job_collision s) refl)
          | inr new ↦ rw new (same-Fair s _ refl)
        ]
    catch_rpc-Fair f jobs (some signature) (detail text) s v =
        elim (Bool-cases (includes text "no request found")) [
          | inl found ↦ rw found (counted-Fair jobs s (count job_collision s) refl)
          | inr new ↦ elim (Bool-cases (usable signature && not (text_eq text ""))) [
            | inl worth ↦
                rw (new, worth)
                  (Pushes-one s _ (markfailed m.owner f.id f.ver signature text) refl v)
            | inr idle ↦ rw (new, idle) (same-Fair s _ refl)
          ]
        ]

    written-Fair :
        (now : ℕ) (t : Trouble) (jobs : List Job) (found : Option Failure) (s : State)
        → ((f : Failure) → found ≡ some f → VersionFrom f.id f.ver)
        → Fair s (written m o now t jobs found s).1
    written-Fair now uncombined jobs found s v =
        same-Fair s _ (pushed-alert m o listed now (count execute_failed (count combine_failed s)))
    written-Fair now (crash signature e) jobs none s v = same-Fair s s refl
    written-Fair now (crash signature (rpc j)) jobs (some f) s v =
        catch_rpc-Fair f jobs signature j s (v f refl)
    written-Fair now (crash signature type_error) jobs (some f) s v = same-Fair s _ refl
    written-Fair now (crash signature (other e)) jobs (some f) s v = same-Fair s _ refl

    after_marking-Fair :
        (jobs : List Job) (p : Pushed) (s : State) → Fair s (after_marking jobs p s).1
    after_marking-Fair jobs (threw e) s = same-Fair s _ refl
    after_marking-Fair jobs (sent id) s = same-Fair s _ refl
    after_marking-Fair jobs refused s = same-Fair s _ refl
    after_marking-Fair jobs silent s = same-Fair s _ refl

    -- What a step of `pollJobsToExecute` pushes.
    pub ResultMove-Fair :
        {s : State} {p : ResultPc} {r : ResultPc × State}
        → ResultMove m o listed s p r
        → IsValid s.db
        → Versions s.db
        → Pushes IsVersioned s r.1
    ResultMove-Fair {s} (loaded jobs h) w v = next_result-Fair jobs s
    ResultMove-Fair {s} (not_loaded e) w v = same-Fair s s refl
    ResultMove-Fair {s} (answers {signature} {job} {jobs} a) w v =
        after_send-Fair signature job jobs (refuse setrand_refusals a) s
    ResultMove-Fair {s} (reads now) w v = same-Fair s _ refl
    ResultMove-Fair {s} (writes {t} {job} {jobs} now) w v =
        written-Fair now t jobs (lookup job.id s.db.failures) s (λ f e.
          let same = key-lookup (λ (x : Failure). x.id) job.id s.db.failures w.failures e in
          subst (λ id. VersionFrom id f.ver) (sym same) (v job.id f e))
    ResultMove-Fair {s} (is_marked {jobs} a) w v =
        after_marking-Fair jobs (refuse markfailed_refusals a) s
    ResultMove-Fair {s} mark_is_posted w v = same-Fair s _ refl
    ResultMove-Fair {s} (is_posted {jobs}) w v = next_result-Fair jobs s

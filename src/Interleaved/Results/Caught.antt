-- ===== src/Interleaved/Results/Caught.antt =====
-- What the `catch` block of `pollJobsToExecute` keeps, from `await` to `await`.
use wax_rng_oracle.Prelude.{
  ℕ, String, ◌≡◌, refl, ap, not, ◌&&◌, Option, none, some, List, arith, Bool-cases, inl, inr,
  includes, text_eq, if◌then◌else◌,
}
use wax_rng_oracle.Dict.{lookup}
use wax_rng_oracle.Dict.Table.{key-lookup}
use wax_rng_oracle.Model.{Job}
use wax_rng_oracle.Contract.{markfailed}
use wax_rng_oracle.RngPusher.{
  RpcJson, no_error, no_detail, detail, Thrown, rpc, type_error, other, Pushed, sent, refused,
  silent, threw, refuse, setrand_refusals, markfailed_refusals,
}
use wax_rng_oracle.Storage.{Failure, job_failed}
use wax_rng_oracle.Storage.Cleared.{IsValid, perform, job_failed_call}
use wax_rng_oracle.Poller.{
  State, Member, Outside, count, push, post_combine_alert, executed_job, job_collision,
  execute_failed, combine_failed,
}
use wax_rng_oracle.Poller.Pushing.{Pushes-none, Pushes-one}
use wax_rng_oracle.Poller.Execute.{usable}
use wax_rng_oracle.Poller.Execute.Pushes.{CombinesTo}
use wax_rng_oracle.Interleaved.Own.{IsOwn, AreListed}
use wax_rng_oracle.Interleaved.Effect.{Serial, Serial-none, Serial-one}
use wax_rng_oracle.Interleaved.Results.{
  Trouble, uncombined, crash, ResultPc, resting, marking, mark_posting, posting, next_result,
  after_send, meta_of, change_in_place, recalled, give_up, mark_lost, catch_rpc, catch_thrown,
  written, after_marking, ResultMove, loaded, not_loaded, answers, reads, writes, is_marked,
  mark_is_posted, is_posted,
}
use wax_rng_oracle.Interleaved.Results.Kept.{
  OriginOf, Fits, ResultOk, ResultKept, quiet, ResultKept-after, recall-ResultKept,
  next_result-ResultKept,
}

module _ (m : Member) (o : Outside) (listed : List Job) where
  abbrev Kept : State → ResultPc × State → Type 0
  Kept = ResultKept m o listed

  after_send-Kept :
      (signature : String) (job : Job) (jobs : List Job) (p : Pushed) (s : State)
      → IsOwn m listed job
      → CombinesTo m o job signature
      → AreListed listed jobs
      → Kept s (after_send m o signature job jobs p s)
  after_send-Kept signature job jobs (threw e) s own c h =
      recall-ResultKept m o listed (crash (some signature) e) job jobs s own c h
  after_send-Kept signature job jobs (sent id) s own c h =
      ResultKept-after m o listed _ refl refl
        (next_result-ResultKept m o listed jobs (count executed_job s) h)
  after_send-Kept signature job jobs refused s own c h =
      ResultKept-after m o listed _ refl refl
        (next_result-ResultKept m o listed jobs (count executed_job s) h)
  after_send-Kept signature job jobs silent s own c h =
      ResultKept-after m o listed _ refl refl
        (next_result-ResultKept m o listed jobs (count executed_job s) h)

  give_up-Kept : (jobs : List Job) (s : State) → AreListed listed jobs → Kept s (give_up jobs s)
  give_up-Kept jobs s h = quiet m o listed s (give_up jobs s).1 (posting jobs) refl refl h

  mark_lost-Kept : (jobs : List Job) (s : State) → AreListed listed jobs → Kept s (mark_lost jobs s)
  mark_lost-Kept jobs s h = quiet m o listed s (mark_lost jobs s).1 (mark_posting jobs) refl refl h

  after_marking-Kept :
      (jobs : List Job) (p : Pushed) (s : State)
      → AreListed listed jobs
      → Kept s (after_marking jobs p s)
  after_marking-Kept jobs (threw e) s h = mark_lost-Kept jobs s h
  after_marking-Kept jobs (sent id) s h = give_up-Kept jobs s h
  after_marking-Kept jobs refused s h = give_up-Kept jobs s h
  after_marking-Kept jobs silent s h = give_up-Kept jobs s h

  collided :
      (jobs : List Job) (s : State)
      → AreListed listed jobs
      → Kept s (next_result m o jobs (count job_collision s))
  collided jobs s h =
      ResultKept-after m o listed _ refl refl
        (next_result-ResultKept m o listed jobs (count job_collision s) h)

  -- One step changes the storage as a call of `jobFailed`, or not at all.
  recalled-Kept :
      (now : ℕ) (t : Trouble) (job : Job) (jobs : List Job) (found : Option Failure) (s : State)
      → IsOwn m listed job
      → OriginOf m o listed job t
      → AreListed listed jobs
      → Fits m o listed s.db job found
      → Kept s (recalled o now t job jobs found s)
  unfolding perform job_failed
  recalled-Kept now t job jobs none s own c h fits = (
    Pushes-none s _ refl,
    Serial-one s.db _ (job_failed_call now job (meta_of o job t)) tt (rw fits refl),
    (own, c, h),
  )
  recalled-Kept now t job jobs (some f) s own c h fits =
      (Pushes-none s _ refl, changed (lookup job.id s.db.failures) refl, (own, c, h))
    where
      changed :
          (current : Option Failure)
          → lookup job.id s.db.failures ≡ current
          → Serial s.db (record s.db {
            failures = change_in_place now job (meta_of o job t) current s.db.failures;
          })
      changed none e = Serial-none s.db _ refl
      changed (some g) e =
          Serial-one s.db _ (job_failed_call now job (meta_of o job t)) tt (rw e refl)

  module _ (job : Job) (jobs : List Job) (f : Failure) (own : IsOwn m listed job)
      (h : AreListed listed jobs) (same : f.id ≡ job.id) where
    marks-Kept :
        (signature text : String) (s : State)
        → CombinesTo m o job signature
        → Kept s (
            if usable signature && not (text_eq text "")
            then (marking jobs, push (markfailed m.owner f.id f.ver signature text) s)
            else give_up jobs s)
    marks-Kept signature text s c = elim (Bool-cases (usable signature && not (text_eq text ""))) [
      | inl worth ↦ rw worth (
        Pushes-one s _ _ refl (record {
          job = job;
          loaded = own.among;
          known = own.known;
          signature = signature;
          combines = c;
          action = inr (f.ver, text, ap (λ id. markfailed m.owner id f.ver signature text) same);
        }),
        Serial-none s.db s.db refl,
        h,
      )
      | inr idle ↦ rw idle (give_up-Kept jobs s h)
    ]

    catch_rpc-Kept :
        (signature : Option String) (e : Thrown) (j : RpcJson) (s : State)
        → OriginOf m o listed job (crash signature e)
        → Kept s (catch_rpc m o f jobs signature j s)
    catch_rpc-Kept signature e no_error s c =
        quiet m o listed s s (resting (some type_error)) refl refl tt
    catch_rpc-Kept none e no_detail s c = give_up-Kept jobs s h
    catch_rpc-Kept (some signature) e no_detail s c = elim (Bool-cases (usable signature)) [
      | inl worth ↦ rw worth (mark_lost-Kept jobs s h)
      | inr idle ↦ rw idle (give_up-Kept jobs s h)
    ]
    catch_rpc-Kept none e (detail text) s c = elim (Bool-cases (includes text "no request found")) [
      | inl found ↦ rw found (collided jobs s h)
      | inr new ↦ rw new (give_up-Kept jobs s h)
    ]
    catch_rpc-Kept (some signature) e (detail text) s c =
        elim (Bool-cases (includes text "no request found")) [
          | inl found ↦ rw found (collided jobs s h)
          | inr new ↦ rw new (marks-Kept signature text s c)
        ]

    catch_thrown-Kept :
        (signature : Option String) (e : Thrown) (s : State)
        → OriginOf m o listed job (crash signature e)
        → Kept s (catch_thrown m o f jobs signature e s)
    catch_thrown-Kept signature (rpc j) s c = catch_rpc-Kept signature (rpc j) j s c
    catch_thrown-Kept signature type_error s c = give_up-Kept jobs s h
    catch_thrown-Kept signature (other e) s c = give_up-Kept jobs s h

  pub pushed-alert : (now : ℕ) (s : State) → (post_combine_alert m now s).1.pushed ≡ s.pushed
  unfolding post_combine_alert
  pushed-alert now s = ground arith

  pub db-alert : (now : ℕ) (s : State) → (post_combine_alert m now s).1.db ≡ s.db
  unfolding post_combine_alert
  db-alert now s = ground arith

  written-Kept :
      (now : ℕ) (t : Trouble) (job : Job) (jobs : List Job) (found : Option Failure) (s : State)
      → IsOwn m listed job
      → OriginOf m o listed job t
      → AreListed listed jobs
      → ((f : Failure) → found ≡ some f → f.id ≡ job.id)
      → Kept s (written m o now t jobs found s)
  written-Kept now uncombined job jobs found s own c h same =
      let s' = count execute_failed (count combine_failed s) in
      quiet m o listed s _ (posting jobs) (pushed-alert now s') (db-alert now s') h
  written-Kept now (crash signature e) job jobs none s own c h same =
      quiet m o listed s s (resting (some type_error)) refl refl tt
  written-Kept now (crash signature e) job jobs (some f) s own c h same =
      catch_thrown-Kept job jobs f own h (same f refl) signature e s c

  -- Every step of `pollJobsToExecute` on a valid storage.
  pub ResultMove-ResultKept :
      {s : State} {p : ResultPc} {r : ResultPc × State}
      → ResultMove m o listed s p r
      → IsValid s.db
      → ResultOk m o listed s.db p
      → ResultKept m o listed s r
  ResultMove-ResultKept {s} (loaded jobs h) v ok = next_result-ResultKept m o listed jobs s h
  ResultMove-ResultKept {s} (not_loaded e) v ok =
      quiet m o listed s s (resting (some e)) refl refl tt
  ResultMove-ResultKept {s} (answers {signature} {job} {jobs} a) v ok =
      after_send-Kept signature job jobs (refuse setrand_refusals a) s ok.0 ok.1 ok.2
  ResultMove-ResultKept {s} (reads {t} {job} {jobs} {found} now) v ok =
      recalled-Kept now t job jobs found s ok.0 ok.1 ok.2 ok.3
  ResultMove-ResultKept {s} (writes {t} {job} {jobs} now) v ok =
      written-Kept now t job jobs (lookup job.id s.db.failures) s ok.0 ok.1 ok.2
        (λ f e. key-lookup (λ (x : Failure). x.id) job.id s.db.failures v.failures e)
  ResultMove-ResultKept {s} (is_marked {jobs} a) v ok =
      after_marking-Kept jobs (refuse markfailed_refusals a) s ok
  ResultMove-ResultKept {s} (mark_is_posted {jobs}) v ok = give_up-Kept jobs s ok
  ResultMove-ResultKept {s} (is_posted {jobs}) v ok = next_result-ResultKept m o listed jobs s ok

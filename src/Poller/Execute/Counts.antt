-- ===== src/Poller/Execute/Counts.antt =====
-- `pollJobsToExecute` ends by itself whatever the chain answers, and never sees a collision.
use wax_rng_oracle.Prelude.{
  ℕ, ◌+◌, ◌≤◌, String, ◌≡◌, refl, ◌∙◌, false, ◌&&◌, not, Option, none, some, List, [], ◌∷◌, arith,
  includes, length, Bool-cases, inl, inr, ltb, text_eq,
}
use wax_rng_oracle.Model.{Job}
use wax_rng_oracle.RngPusher.{
  RpcJson, no_error, no_detail, detail, Thrown, rpc, type_error, other, Pushed, sent, refused,
  silent, threw, setrand_refusals, set_random_number, mark_failed,
}
use wax_rng_oracle.RngPusher.Refusals.{Unexpected, refuse-rpc}
use wax_rng_oracle.ShareKey.{Diagnostics, Combined, combined, combine_error, combine_threw}
use wax_rng_oracle.Storage.{Failure}
use wax_rng_oracle.Poller.{
  Loading, rows, load_failed, OfLoading, State, Member, Outside, Run, acts_on, is_known_key_version,
  post_combine_alert,
}
use wax_rng_oracle.Poller.SetPart.{
  Round, skipped, success, failure, breaks, throws, continue_with, message, push_to,
}
use wax_rng_oracle.Poller.SetPart.Counts.{collisions}
use wax_rng_oracle.Poller.Execute.Logged.{log-kept}
use wax_rng_oracle.Poller.Execute.{
  log_combine_diagnostics, Tried, passed_over, executed, not_combined, crashed, after_setrand,
  combination, use_combined, try_hash, try_job, usable, after_mark, mark, catch_other, alerted,
  record_failure, after_try, execute_job, execute_jobs, poll_jobs_to_execute, execute_round,
}

-- An `RpcError` that ends the `try` block has a message that `setRandomNumber` does not expect.
abbrev IsCalm : Tried → Type 0
IsCalm (crashed signature (rpc j)) = Unexpected setrand_refusals j
IsCalm _ = Unit

after_setrand-IsCalm :
    (signature : String) (p : Pushed)
    → ((j : RpcJson) → p ≡ threw (rpc j) → Unexpected setrand_refusals j)
    → IsCalm (after_setrand signature p)
after_setrand-IsCalm signature (threw (rpc j)) h = h j refl
after_setrand-IsCalm signature (threw type_error) h = tt
after_setrand-IsCalm signature (threw (other e)) h = tt
after_setrand-IsCalm signature (sent id) h = tt
after_setrand-IsCalm signature refused h = tt
after_setrand-IsCalm signature silent h = tt

collisions-logged :
    (d : Diagnostics) (s : State) → collisions (log_combine_diagnostics d s) ≡ collisions s
collisions-logged = log-kept collisions (λ s. refl) (λ s. refl)

-- The `try` block: how it ends, and that it counts no collision.
module _ (m : Member) (o : Outside) (job : Job) where
  abbrev Calm : State → Tried × State → Type 0
  Calm s r = IsCalm r.0 × (collisions r.1 ≡ collisions s)

  use_combined-Calm : (c : Combined) (s : State) → Calm s (use_combined m o job c s)
  unfolding set_random_number
  use_combined-Calm (combined signature d) s = elim (Bool-cases (text_eq signature "")) [
    | inl blank ↦ rw blank (tt, collisions-logged d s)
    | inr there ↦
        rw there
          (after_setrand-IsCalm signature _ (refuse-rpc setrand_refusals _), collisions-logged d s)
  ]
  use_combined-Calm (combine_error code rejected) s = (tt, refl)
  use_combined-Calm combine_threw s = (tt, refl)

  try_hash-Calm : (hash : Option String) (s : State) → Calm s (try_hash m o job hash s)
  try_hash-Calm none s = (tt, refl)
  try_hash-Calm (some hash) s = elim (Bool-cases (ltb (length job.parts) m.threshold)) [
    | inl few ↦ rw few (tt, refl)
    | inr many ↦ rw many (use_combined-Calm (combination m o job hash) s)
  ]

  try_job-Calm : (s : State) → Calm s (try_job m o job s)
  unfolding try_job
  try_job-Calm s = try_hash-Calm (message o job) s

-- A round that counts no collision, and neither breaks nor throws.
abbrev Quiet : State → Round → Type 0
Quiet s (skipped s') = collisions s' ≡ collisions s
Quiet s (success s') = collisions s' ≡ collisions s
Quiet s (failure s') = collisions s' ≡ collisions s
Quiet s (breaks s') = ⊥
Quiet s (throws e s') = ⊥

collisions-alerted :
    (m : Member) (o : Outside) (s : State) → collisions (alerted m o s) ≡ collisions s
unfolding post_combine_alert
collisions-alerted m o s = ground arith

collisions-after_mark : (p : Pushed) (s : State) → collisions (after_mark p s) ≡ collisions s
collisions-after_mark (threw e) s = refl
collisions-after_mark (sent id) s = refl
collisions-after_mark refused s = refl
collisions-after_mark silent s = refl

Unexpected-first :
    (text : String)
    → Unexpected setrand_refusals (detail text)
    → includes text "no request found" ≡ false
Unexpected-first text h = ground arith

module _ (m : Member) (o : Outside) (f : Failure) where
  collisions-mark :
      (signature : Option String) (j : RpcJson) (s : State)
      → collisions (mark m o f signature j s) ≡ collisions s
  unfolding mark_failed
  collisions-mark none j s = refl
  collisions-mark (some signature) no_error s = refl
  collisions-mark (some signature) no_detail s = ground arith
  collisions-mark (some signature) (detail text) s =
      elim (Bool-cases (usable signature && not (text_eq text ""))) [
        | inl worth ↦
            let (r, s') = mark_failed (push_to o) f.id m.owner f.ver signature text s in
            rw worth (collisions-after_mark r s')
        | inr idle ↦ rw idle
      ]

  catch_other-Quiet :
      (signature : Option String) (e : Thrown) (s : State)
      → IsCalm (crashed signature e)
      → Quiet s (catch_other m o f signature e s)
  catch_other-Quiet signature (rpc no_error) s h = h
  catch_other-Quiet signature (rpc no_detail) s h = absurd h
  catch_other-Quiet signature (rpc (detail text)) s h =
      rw (Unexpected-first text h) (collisions-mark signature (detail text) s)
  catch_other-Quiet signature type_error s h = refl
  catch_other-Quiet signature (other e) s h = refl

after_try-Quiet :
    (m : Member) (o : Outside) (job : Job) (t : Tried) (s : State)
    → IsCalm t
    → Quiet s (after_try m o job t s)
unfolding after_try
after_try-Quiet m o job passed_over s h = refl
after_try-Quiet m o job executed s h = refl
after_try-Quiet m o job not_combined s h = collisions-alerted m o _
after_try-Quiet m o job (crashed signature e) s h =
    let (f, s') = record_failure o job none s in catch_other-Quiet m o f signature e s' h

Quiet-trans : (s t : State) (r : Round) → collisions t ≡ collisions s → Quiet t r → Quiet s r
Quiet-trans s t (skipped u) e q = q ∙ e
Quiet-trans s t (success u) e q = q ∙ e
Quiet-trans s t (failure u) e q = q ∙ e
Quiet-trans s t (breaks u) e q = q
Quiet-trans s t (throws x u) e q = q

execute_job-Quiet :
    (m : Member) (o : Outside) (job : Job) (s : State) → Quiet s (execute_job m o job s)
unfolding execute_job is_known_key_version
execute_job-Quiet m o job s = elim (Bool-cases (acts_on m.active_key_version job.ver)) [
  | inl known ↦
      let c = try_job-Calm m o job s in
      rw known (
        Quiet-trans s (try_job m o job s).1 _ c.1
          (after_try-Quiet m o job (try_job m o job s).0 (try_job m o job s).1 c.0))
  | inr unknown ↦ rw unknown (ground arith)
]

-- How the poll ends from `s`: without a throw or a collision, and with at most one count for each job.
pub record Ended (jobs : List Job) (s : State) (done bad : ℕ) (r : Run) : Type 0 where
  pub no_throw : r.thrown ≡ none
  pub no_collision : collisions r.state ≡ collisions s
  pub least : done + bad ≤ r.succeeded + r.failed
  pub most : r.succeeded + r.failed ≤ done + bad + length jobs

continue_with-Ended :
    (job : Job) (jobs : List Job) (s : State) (done bad : ℕ) (r : Round)
    (next : State → ℕ → ℕ → Run)
    → Quiet s r
    → ((s' : State) (d b : ℕ) → Ended jobs s' d b (next s' d b))
    → Ended (job ∷ jobs) s done bad (continue_with r done bad next)
continue_with-Ended job jobs s done bad (skipped s') next q h =
    let c = h s' done bad in
    record {
      no_throw = c.no_throw;
      no_collision = c.no_collision ∙ q;
      least = c.least;
      most = omega (arith, c.most);
    }
continue_with-Ended job jobs s done bad (success s') next q h =
    let c = h s' (done + 1) bad in
    record {
      no_throw = c.no_throw;
      no_collision = c.no_collision ∙ q;
      least = omega (arith, c.least);
      most = omega (arith, c.most);
    }
continue_with-Ended job jobs s done bad (failure s') next q h =
    let c = h s' done (bad + 1) in
    record {
      no_throw = c.no_throw;
      no_collision = c.no_collision ∙ q;
      least = omega (arith, c.least);
      most = omega (arith, c.most);
    }
continue_with-Ended job jobs s done bad (breaks s') next q h = absurd q
continue_with-Ended job jobs s done bad (throws e s') next q h = absurd q

execute_jobs-Ended :
    (m : Member) (o : Outside) (jobs : List Job) (s : State) (done bad : ℕ)
    → Ended jobs s done bad (execute_jobs m o jobs s done bad)
unfolding execute_jobs
execute_jobs-Ended m o [] s done bad = record {
  no_throw = refl;
  no_collision = refl;
  least = omega arith;
  most = omega arith;
}
execute_jobs-Ended m o (job ∷ jobs) s done bad =
    continue_with-Ended job jobs s done bad (execute_job m o job s) (execute_jobs m o jobs)
      (execute_job-Quiet m o job s) (λ s' d b. execute_jobs-Ended m o jobs s' d b)

-- If `getJobsToExecute` throws, `pollJobsToExecute` throws the same and does nothing. If it returns jobs
-- and no other poll goes on between the waits of this one, then whatever the chain answers to what is
-- pushed, the poll throws nothing, counts no collision, and its two counts sum to no more than the
-- number of the jobs.
pub poll_jobs_to_execute-Ended :
    (m : Member) (o : Outside) (loading : Loading Job) (s : State)
    → OfLoading (λ jobs r. Ended jobs s 0 0 r) loading s (execute_round m o loading s)
unfolding execute_round poll_jobs_to_execute
poll_jobs_to_execute-Ended m o (rows jobs) s = execute_jobs-Ended m o jobs s 0 0
poll_jobs_to_execute-Ended m o (load_failed e) s = refl

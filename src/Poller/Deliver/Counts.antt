-- ===== src/Poller/Deliver/Counts.antt =====
-- What `pollJobToRetryDeliver` and `cleanupDelivered` push and count.
use wax_rng_oracle.Prelude.{
  ℕ, ◌+◌, String, ◌≡◌, ◌⊎◌, refl, ap, ◌∙◌, false, Option, none, List, [], ◌∷◌, arith, includes,
  length, inl, inr,
}
use wax_rng_oracle.Model.{Undelivered}
use wax_rng_oracle.Contract.{Action, retrydeliver, cleanup}
use wax_rng_oracle.RngPusher.{
  RpcJson, no_error, no_detail, detail, Thrown, rpc, type_error, other, Pushed, sent, refused,
  silent, threw, refuse, expected, retry_deliver, clean_up, retrydeliver_refusals, cleanup_refusals,
}
use wax_rng_oracle.RngPusher.Refusals.{Unexpected, refuse-rpc}
use wax_rng_oracle.Storage.Cleared.{IsValid, job_deliver_fail-IsValid}
use wax_rng_oracle.Poller.{
  Loading, rows, load_failed, OfLoading, State, Member, Outside, Run, counted, posted,
  cleanup_success, cleanup_failed,
}
use wax_rng_oracle.Poller.SetPart.{
  Round, skipped, success, failure, breaks, throws, continue_with, push_to,
}
use wax_rng_oracle.Poller.Deliver.{
  deliver_failed, catch_deliver, after_deliver, deliver, deliver_all, poll_job_to_retry_deliver,
  deliver_round, catch_cleanup, after_cleanup, cleanup_delivered,
}

-- The transactions that were pushed, with a delivery of each row after them, the latest first.
abbrev pub deliveries : Member → List Undelivered → List Action → List Action
deliveries m [] pushed = pushed
deliveries m (u ∷ us) pushed = deliveries m us (retrydeliver m.owner u.request_id ∷ pushed)

-- How a round ends: it is counted, the action is pushed, and the storage stays valid.
abbrev Settled : Action → State → Round → Type 0
Settled a s (success t) = (t.pushed ≡ a ∷ s.pushed) × (IsValid s.db → IsValid t.db)
Settled a s (failure t) = (t.pushed ≡ a ∷ s.pushed) × (IsValid s.db → IsValid t.db)
Settled a s _ = ⊥

deliver_failed-Settled :
    (o : Outside) (u : Undelivered) (a : Action) (s t : State)
    → t.pushed ≡ a ∷ s.pushed
    → t.db ≡ s.db
    → Settled a s (deliver_failed o u t)
deliver_failed-Settled o u a s t e d =
    (e, λ v. job_deliver_fail-IsValid (o.clock t) t.db u (rw d v))

unexpected_found :
    (text : String)
    → expected retrydeliver_refusals text ≡ false
    → includes text "No undelivered result found" ≡ false
unexpected_found text h = ground arith

after_deliver-Settled :
    (o : Outside) (u : Undelivered) (a : Action) (p : Pushed) (s t : State)
    → ((j : RpcJson) → p ≡ threw (rpc j) → Unexpected retrydeliver_refusals j)
    → t.pushed ≡ a ∷ s.pushed
    → t.db ≡ s.db
    → Settled a s (after_deliver o u p t)
unfolding catch_deliver
after_deliver-Settled o u a (sent id) s t h e d = (e, λ v. rw d v)
after_deliver-Settled o u a refused s t h e d = (e, λ v. rw d v)
after_deliver-Settled o u a silent s t h e d = (e, λ v. rw d v)
after_deliver-Settled o u a (threw (rpc no_error)) s t h e d = absurd (h no_error refl)
after_deliver-Settled o u a (threw (rpc no_detail)) s t h e d = absurd (h no_detail refl)
after_deliver-Settled o u a (threw (rpc (detail text))) s t h e d =
    rw (unexpected_found text (h (detail text) refl)) (deliver_failed-Settled o u a s t e d)
after_deliver-Settled o u a (threw type_error) s t h e d = deliver_failed-Settled o u a s t e d
after_deliver-Settled o u a (threw (other x)) s t h e d = deliver_failed-Settled o u a s t e d

deliver-Settled :
    (m : Member) (o : Outside) (u : Undelivered) (s : State)
    → Settled (retrydeliver m.owner u.request_id) s (deliver m o u s)
unfolding deliver retry_deliver
deliver-Settled m o u s =
    let a = retrydeliver m.owner u.request_id in
    after_deliver-Settled o u a (refuse retrydeliver_refusals (o.answer s.pushed a)) s
      (push_to o a s).1 (refuse-rpc retrydeliver_refusals (o.answer s.pushed a)) refl refl

-- From `s`, with the counts so far.
pub record Delivered (m : Member) (us : List Undelivered) (s : State) (done bad : ℕ) (r : Run)
    : Type 0 where
  pub pushed : r.state.pushed ≡ deliveries m us s.pushed
  pub all : r.succeeded + r.failed ≡ done + bad + length us
  pub no_throw : r.thrown ≡ none
  pub valid : IsValid s.db → IsValid r.state.db

continue_with-Delivered :
    (m : Member) (u : Undelivered) (us : List Undelivered) (s : State) (done bad : ℕ) (r : Round)
    (next : State → ℕ → ℕ → Run)
    → Settled (retrydeliver m.owner u.request_id) s r
    → ((t : State) (d b : ℕ) → Delivered m us t d b (next t d b))
    → Delivered m (u ∷ us) s done bad (continue_with r done bad next)
continue_with-Delivered m u us s done bad (success t) next (e, v) h =
    let c = h t (done + 1) bad in
    record {
      pushed = c.pushed ∙ ap (λ (l : List Action). deliveries m us l) e;
      all = omega (arith, c.all);
      no_throw = c.no_throw;
      valid = λ w. c.valid (v w);
    }
continue_with-Delivered m u us s done bad (failure t) next (e, v) h =
    let c = h t done (bad + 1) in
    record {
      pushed = c.pushed ∙ ap (λ (l : List Action). deliveries m us l) e;
      all = omega (arith, c.all);
      no_throw = c.no_throw;
      valid = λ w. c.valid (v w);
    }
continue_with-Delivered m u us s done bad (skipped t) next p h = absurd p
continue_with-Delivered m u us s done bad (breaks t) next p h = absurd p
continue_with-Delivered m u us s done bad (throws e t) next p h = absurd p

deliver_all-Delivered :
    (m : Member) (o : Outside) (us : List Undelivered) (s : State) (done bad : ℕ)
    → Delivered m us s done bad (deliver_all m o us s done bad)
unfolding deliver_all
deliver_all-Delivered m o [] s done bad = record {
  pushed = refl;
  all = omega arith;
  no_throw = refl;
  valid = λ v. v;
}
deliver_all-Delivered m o (u ∷ us) s done bad =
    continue_with-Delivered m u us s done bad (deliver m o u s) (deliver_all m o us)
      (deliver-Settled m o u s) (λ t d b. deliver_all-Delivered m o us t d b)

-- If `getJobsToRetryDeliver` throws, `pollJobToRetryDeliver` throws the same and does nothing. If it
-- returns rows and no other poll goes on between the waits of this one, then whatever the chain answers
-- to what is pushed, the poll throws nothing, pushes `retrydeliver` once for each row, in their order, counts each as delivered or as failed, and keeps a
-- valid storage valid.
pub poll_job_to_retry_deliver-Delivered :
    (m : Member) (o : Outside) (loading : Loading Undelivered) (s : State)
    → OfLoading (λ us r. Delivered m us s 0 0 r) loading s (deliver_round m o loading s)
unfolding deliver_round poll_job_to_retry_deliver
poll_job_to_retry_deliver-Delivered m o (rows us) s = deliver_all-Delivered m o us s 0 0
poll_job_to_retry_deliver-Delivered m o (load_failed e) s = refl

-- The events of a cleanup, which throws nothing.
abbrev pub CleanedUp : Member → State → State × Option Thrown → Type 0
CleanedUp m s (t, e) =
    (e ≡ none)
    × (t.pushed ≡ cleanup m.owner 10 ∷ s.pushed)
    × ((t.events ≡ counted cleanup_success ∷ s.events)
        ⊎ (t.events ≡ posted ∷ counted cleanup_failed ∷ s.events))

unexpected_pause :
    (text : String) → expected cleanup_refusals text ≡ false → includes text "paused" ≡ false
unexpected_pause text h = ground arith

after_cleanup-CleanedUp :
    (m : Member) (p : Pushed) (s : State)
    → ((j : RpcJson) → p ≡ threw (rpc j) → Unexpected cleanup_refusals j)
    → CleanedUp m s (after_cleanup p (record s { pushed = cleanup m.owner 10 ∷ s.pushed }))
unfolding catch_cleanup
after_cleanup-CleanedUp m (sent id) s h = (refl, refl, inl refl)
after_cleanup-CleanedUp m refused s h = (refl, refl, inl refl)
after_cleanup-CleanedUp m silent s h = (refl, refl, inl refl)
after_cleanup-CleanedUp m (threw (rpc no_error)) s h = absurd (h no_error refl)
after_cleanup-CleanedUp m (threw (rpc no_detail)) s h = absurd (h no_detail refl)
after_cleanup-CleanedUp m (threw (rpc (detail text))) s h =
    rw (unexpected_pause text (h (detail text) refl)) (refl, refl, inr refl)
after_cleanup-CleanedUp m (threw type_error) s h = (refl, refl, inr refl)
after_cleanup-CleanedUp m (threw (other x)) s h = (refl, refl, inr refl)

-- Whatever the chain answers, a cleanup throws nothing, pushes one `cleanup` of ten rows, and counts
-- one success, or counts one failure and posts it.
cleanup_delivered-CleanedUp :
    (m : Member) (o : Outside) (s : State) → CleanedUp m s (cleanup_delivered m o s)
unfolding cleanup_delivered clean_up
cleanup_delivered-CleanedUp m o s =
    let a = o.answer s.pushed (cleanup m.owner 10) in
    after_cleanup-CleanedUp m (refuse cleanup_refusals a) s (refuse-rpc cleanup_refusals a)

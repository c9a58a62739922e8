-- ===== src/Poller/Alerts.antt =====
-- `postCombineAlert` and `monitorPendingJob` of lib/poller.js.
use wax_rng_oracle.Prelude.{
  ℕ, refl, sym, subst, ◌+◌, ◌≤◌, ◌<◌, ◌≡◌, true, false, List, length, [], ◌∷◌, arith, ltb, leb,
  if◌then◌else◌, any, All, Bool-cases, inl, inr, Result, ok, ◌>>=◌,
}
use wax_rng_oracle.Model.{Job}
use wax_rng_oracle.JobService.{Reader, get_pending_job_number}
use wax_rng_oracle.JobService.Paging.{IsReaderOf}
use wax_rng_oracle.JobService.Selection.{id_of, get_pending_job_number-table}
use wax_rng_oracle.Poller.{State, Member, post, post_combine_alert}

-- With `max_job_pending` of the configuration; a count that throws makes the method throw.
unfoldable pub monitor_pending_job : Reader Job → ℕ → ℕ → State → Result State
monitor_pending_job reqs fuel max_job_pending s = do
  pending ← get_pending_job_number reqs fuel
  ok (if leb max_job_pending pending then post s else s)

-- On a table that the node gives page by page, with more fuel than rows, `monitorPendingJob`
-- posts exactly when the table has at least the configured number of rows.
monitor_pending_job-table :
    (table : List Job) (reqs : Reader Job) (fuel max_job_pending : ℕ) (s : State)
    → IsReaderOf id_of table reqs
    → length table < fuel
    → monitor_pending_job reqs fuel max_job_pending s
      ≡ ok (if leb max_job_pending (length table) then post s else s)
unfolding monitor_pending_job
monitor_pending_job-table table reqs fuel max_job_pending s reads h =
    rw (get_pending_job_number-table table reqs fuel reads h) refl

-- The times of the calls that post, of calls at the times `ts`.
unfoldable pub post_times : Member → List ℕ → State → List ℕ
post_times m [] s = []
post_times m (t ∷ ts) s =
    let (posts, s') = post_combine_alert m t s in
    let later = post_times m ts s' in if posts then t ∷ later else later

-- Each time is at least an interval after the one before it, the first after `last`.
abbrev pub Spaced : ℕ → ℕ → List ℕ → Type 0
Spaced interval last [] = Unit
Spaced interval last (t ∷ ts) = (last + interval ≤ t) × Spaced interval t ts

-- Less than an interval after one of the times.
abbrev pub Near : ℕ → List ℕ → ℕ → Type 0
Near interval posts t = any (λ p. ltb t (p + interval)) posts ≡ true

Near-later :
    (interval a : ℕ) (posts ts : List ℕ)
    → All (Near interval posts) ts
    → All (Near interval (a ∷ posts)) ts
Near-later interval a posts [] h = tt
Near-later interval a posts (t ∷ ts) h = (ground (arith, h.0), Near-later interval a posts ts h.1)

early_alert :
    (m : Member) (t : ℕ) (ts : List ℕ) (s : State)
    → ltb t (s.last_post_at + m.combine_alert_interval) ≡ true
    → post_times m (t ∷ ts) s ≡ post_times m ts (record s { suppressed = s.suppressed + 1 })
unfolding post_times post_combine_alert
early_alert m t ts s e = rw e refl

due_alert :
    (m : Member) (t : ℕ) (ts : List ℕ) (s : State)
    → ltb t (s.last_post_at + m.combine_alert_interval) ≡ false
    → post_times m (t ∷ ts) s
      ≡ t ∷ post_times m ts (post (record s { last_post_at = t; suppressed = 0 }))
unfolding post_times post_combine_alert
due_alert m t ts s e = rw e refl

-- What the posts at `posts` do for the calls at `ts` after a post at `last`.
abbrev pub Throttled : ℕ → ℕ → List ℕ → List ℕ → Type 0
Throttled interval last ts posts =
    Spaced interval last posts × All (Near interval (last ∷ posts)) ts

-- For a positive interval and calls at any times, posts are at least an interval apart, and every
-- call comes less than an interval after a post, which may be its own or the last before the calls.
pub post_times-Throttled :
    (m : Member) (ts : List ℕ) (s : State)
    → 0 < m.combine_alert_interval
    → Throttled m.combine_alert_interval s.last_post_at ts (post_times m ts s)
unfolding post_times
post_times-Throttled m [] s h = (tt, tt)
post_times-Throttled m (t ∷ ts) s h =
    elim (Bool-cases (ltb t (s.last_post_at + m.combine_alert_interval))) [
      | inl early ↦
          let r = post_times-Throttled m ts (record s { suppressed = s.suppressed + 1 }) h in
          subst (Throttled m.combine_alert_interval s.last_post_at (t ∷ ts))
            (sym (early_alert m t ts s early)) (r.0, (ground (arith, early), r.1))
      | inr due ↦
          let s' = post (record s { last_post_at = t; suppressed = 0 }) in
          let r = post_times-Throttled m ts s' h in
          subst (Throttled m.combine_alert_interval s.last_post_at (t ∷ ts))
            (sym (due_alert m t ts s due))
            (
              (ground (arith, due), r.0),
              (
                ground (arith, h),
                Near-later m.combine_alert_interval s.last_post_at (t ∷ post_times m ts s') ts r.1,
              ),
            )
    ]

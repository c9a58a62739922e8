-- ===== src/Poller/SetPart/Kept.antt =====
-- `pollJobsToSetPart` of lib/poller.js leaves the storage as it is.
use wax_rng_oracle.Prelude.{
  ℕ, ◌+◌, ◌≡◌, refl, ◌∙◌, Option, none, some, List, [], ◌∷◌, arith, Bool-cases, inl, inr,
}
use wax_rng_oracle.Model.{Job}
use wax_rng_oracle.RngPusher.{
  Pushed, Thrown, sent, refused, silent, threw, submit_partial_signature,
}
use wax_rng_oracle.ShareKey.Signing.{SignResult}
use wax_rng_oracle.Poller.{State, Member, Outside, Run, acts_on, is_known_key_version}
use wax_rng_oracle.Poller.SetPart.{
  Round, skipped, success, failure, breaks, throws, catch_part, after_attempt, attempt_part,
  submitted, unsignable, set_part, continue_with, set_parts, poll_jobs_to_set_part,
}
use wax_rng_oracle.Poller.SetPart.Pushes.{own_signature, left}

db-catch_part : (e : Thrown) (s : State) → (left (catch_part e s)).db ≡ s.db
unfolding catch_part
db-catch_part e s = ground arith

pub db-after_attempt : (r : Pushed) (s : State) → (left (after_attempt r s)).db ≡ s.db
db-after_attempt (threw e) s = db-catch_part e s
db-after_attempt (sent id) s = refl
db-after_attempt refused s = refl
db-after_attempt silent s = refl

db-submitted :
    (m : Member) (o : Outside) (job : Job) (r : Option SignResult) (s : State)
    → (submitted m o job r s).1.db ≡ s.db
unfolding submit_partial_signature
db-submitted m o job none s = refl
db-submitted m o job (some r) s = refl

db-attempt_part :
    (m : Member) (o : Outside) (job : Job) (s : State) → (attempt_part m o job s).1.db ≡ s.db
unfolding attempt_part
db-attempt_part m o job s = elim (Bool-cases (unsignable job)) [
  | inl bad ↦ rw bad refl
  | inr fine ↦ rw fine (db-submitted m o job (own_signature m o job) s)
]

db-set_part :
    (m : Member) (o : Outside) (job : Job) (s : State) → (left (set_part m o job s)).db ≡ s.db
unfolding set_part is_known_key_version
db-set_part m o job s = elim (Bool-cases (acts_on m.active_key_version job.ver)) [
  | inl known ↦
      let (r, t) = attempt_part m o job s in
      rw known (
        db-after_attempt (attempt_part m o job s).0 (attempt_part m o job s).1
        ∙ db-attempt_part m o job s)
  | inr unknown ↦ rw unknown (ground arith)
]

db-continue_with :
    (r : Round) (done bad : ℕ) (next : State → ℕ → ℕ → Run)
    → ((s : State) (d b : ℕ) → (next s d b).state.db ≡ s.db)
    → (continue_with r done bad next).state.db ≡ (left r).db
db-continue_with (skipped s) done bad next h = h s done bad
db-continue_with (success s) done bad next h = h s (done + 1) bad
db-continue_with (failure s) done bad next h = h s done (bad + 1)
db-continue_with (breaks s) done bad next h = refl
db-continue_with (throws e s) done bad next h = refl

db-set_parts :
    (m : Member) (o : Outside) (jobs : List Job) (s : State) (done bad : ℕ)
    → (set_parts m o jobs s done bad).state.db ≡ s.db
unfolding set_parts
db-set_parts m o [] s done bad = refl
db-set_parts m o (job ∷ jobs) s done bad =
    db-continue_with (set_part m o job s) done bad (set_parts m o jobs) (db-set_parts m o jobs)
    ∙ db-set_part m o job s

pub db-poll_jobs_to_set_part :
    (m : Member) (o : Outside) (jobs : List Job) (s : State)
    → (poll_jobs_to_set_part m o jobs s).state.db ≡ s.db
unfolding poll_jobs_to_set_part
db-poll_jobs_to_set_part m o jobs s = db-set_parts m o jobs s 0 0

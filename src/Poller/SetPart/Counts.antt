-- ===== src/Poller/SetPart/Counts.antt =====
-- `pollJobsToSetPart` counts every job that it works on, and never sees a collision.
use wax_rng_oracle.Prelude.{
  ℕ, ◌+◌, String, ◌≡◌, refl, ap, ◌∙◌, Bool, true, false, Option, none, some, List, [], ◌∷◌, arith,
  if◌then◌else◌, length, keep, Bool-cases, inl, inr,
}
use wax_rng_oracle.Model.{Job}
use wax_rng_oracle.RngPusher.{
  RpcJson, no_error, no_detail, detail, Thrown, rpc, type_error, other, Pushed, sent, refused,
  silent, threw, submit_refusals, submit_partial_signature,
}
use wax_rng_oracle.RngPusher.Refusals.{Unexpected, refuse-rpc}
use wax_rng_oracle.ShareKey.Signing.{SignResult}
use wax_rng_oracle.Poller.{
  Loading, rows, load_failed, OfLoading, State, Member, Outside, Run, Event, counted, job_collision,
  acts_on, is_known_key_version,
}
use wax_rng_oracle.Poller.SetPart.{
  Round, skipped, success, failure, breaks, throws, catch_part, count_failure, after_attempt,
  attempt_part, submitted, unsignable, set_part, continue_with, set_parts, poll_jobs_to_set_part,
  set_part_round,
}

abbrev pub is_collision : Event → Bool
is_collision (counted job_collision) = true
is_collision _ = false

-- How many collisions were counted.
abbrev pub collisions : State → ℕ
collisions s = length (keep is_collision s.events)

-- The handler counts a failure.
abbrev IsBenign : Thrown → Type 0
IsBenign e = (s : State) → catch_part e s ≡ count_failure s

Unexpected-IsBenign : (j : RpcJson) → Unexpected submit_refusals j → IsBenign (rpc j)
unfolding catch_part
Unexpected-IsBenign no_error h s = absurd h
Unexpected-IsBenign no_detail h s = absurd h
Unexpected-IsBenign (detail text) h s = ground arith

submitted-Unexpected :
    (m : Member) (o : Outside) (job : Job) (r : Option SignResult) (s : State) (j : RpcJson)
    → (submitted m o job r s).0 ≡ threw (rpc j)
    → Unexpected submit_refusals j
unfolding submit_partial_signature
submitted-Unexpected m o job none s j h = absurd (cc)
submitted-Unexpected m o job (some r) s j h = refuse-rpc submit_refusals _ j h

guarded-Unexpected :
    (b : Bool) (m : Member) (o : Outside) (job : Job) (r : Option SignResult) (s : State)
    (text : String) (j : RpcJson)
    → (if b then (threw (other text), s) else submitted m o job r s).0 ≡ threw (rpc j)
    → Unexpected submit_refusals j
guarded-Unexpected true m o job r s text j h = absurd (cc)
guarded-Unexpected false m o job r s text j h = submitted-Unexpected m o job r s j h

attempt_part-IsBenign :
    (m : Member) (o : Outside) (job : Job) (s : State) (e : Thrown)
    → (attempt_part m o job s).0 ≡ threw e
    → IsBenign e
unfolding attempt_part catch_part
attempt_part-IsBenign m o job s (rpc j) h =
    Unexpected-IsBenign j (guarded-Unexpected (unsignable job) m o job _ s _ j h)
attempt_part-IsBenign m o job s type_error h = λ s. refl
attempt_part-IsBenign m o job s (other e) h = λ s. refl

events-submitted :
    (m : Member) (o : Outside) (job : Job) (r : Option SignResult) (s : State)
    → (submitted m o job r s).1.events ≡ s.events
unfolding submit_partial_signature
events-submitted m o job none s = refl
events-submitted m o job (some r) s = refl

events-attempt_part :
    (m : Member) (o : Outside) (job : Job) (s : State)
    → (attempt_part m o job s).1.events ≡ s.events
unfolding attempt_part
events-attempt_part m o job s = elim (Bool-cases (unsignable job)) [
  | inl bad ↦ rw bad
  | inr fine ↦ rw fine (events-submitted m o job _ s)
]

-- What a round may do for a job that starts in a state: it counts no collision, and it neither
-- breaks nor throws.
pub data Ends (known : Bool) (s : State) : Round → Type 0 where
  ends_skipped :
      (s' : State) → known ≡ false → collisions s' ≡ collisions s → Ends known s (skipped s')
  ends_success :
      (s' : State) → known ≡ true → collisions s' ≡ collisions s → Ends known s (success s')
  ends_failure :
      (s' : State) → known ≡ true → collisions s' ≡ collisions s → Ends known s (failure s')

after_attempt-Ends :
    (r : Pushed) (s s' : State)
    → s'.events ≡ s.events
    → ((e : Thrown) → r ≡ threw e → IsBenign e)
    → Ends true s (after_attempt r s')
after_attempt-Ends (sent id) s s' h k =
    ends_success _ refl (ap (λ l. length (keep is_collision l)) h)
after_attempt-Ends refused s s' h k = ends_success _ refl (ap (λ l. length (keep is_collision l)) h)
after_attempt-Ends silent s s' h k = ends_success _ refl (ap (λ l. length (keep is_collision l)) h)
after_attempt-Ends (threw e) s s' h k =
    rw (k e refl s') (ends_failure _ refl (ap (λ l. length (keep is_collision l)) h))

pub set_part-Ends :
    (m : Member) (o : Outside) (job : Job) (s : State)
    → Ends (acts_on m.active_key_version job.ver) s (set_part m o job s)
unfolding set_part is_known_key_version
set_part-Ends m o job s = elim (Bool-cases (acts_on m.active_key_version job.ver)) [
  | inl known ↦ rw known (
      after_attempt-Ends (attempt_part m o job s).0 s (attempt_part m o job s).1
        (events-attempt_part m o job s) (attempt_part-IsBenign m o job s))
  | inr unknown ↦ rw unknown (ends_skipped _ refl (ground arith))
]

abbrev pub known_job : Member → Job → Bool
known_job m job = acts_on m.active_key_version job.ver

pub record Counted (m : Member) (jobs : List Job) (s : State) (done bad : ℕ) (r : Run)
    : Type 0 where
  pub all : r.succeeded + r.failed ≡ done + bad + length (keep (known_job m) jobs)
  pub no_throw : r.thrown ≡ none
  pub no_collision : collisions r.state ≡ collisions s

continue_with-Counted :
    (m : Member) (job : Job) (jobs : List Job) (s : State) (done bad : ℕ) (r : Round)
    (next : State → ℕ → ℕ → Run)
    → Ends (known_job m job) s r
    → ((s' : State) (d b : ℕ) → Counted m jobs s' d b (next s' d b))
    → Counted m (job ∷ jobs) s done bad (continue_with r done bad next)
continue_with-Counted m job jobs s done bad (skipped s') next (ends_skipped _ k e) h =
    let c = h s' done bad in
    record {
      all = ground (arith, c.all, k);
      no_throw = c.no_throw;
      no_collision = c.no_collision ∙ e;
    }
continue_with-Counted m job jobs s done bad (success s') next (ends_success _ k e) h =
    let c = h s' (done + 1) bad in
    record {
      all = ground (arith, c.all, k);
      no_throw = c.no_throw;
      no_collision = c.no_collision ∙ e;
    }
continue_with-Counted m job jobs s done bad (failure s') next (ends_failure _ k e) h =
    let c = h s' done (bad + 1) in
    record {
      all = ground (arith, c.all, k);
      no_throw = c.no_throw;
      no_collision = c.no_collision ∙ e;
    }
continue_with-Counted m job jobs s done bad (breaks s') next e h = elim e [ ]
continue_with-Counted m job jobs s done bad (throws x s') next e h = elim e [ ]

set_parts-Counted :
    (m : Member) (o : Outside) (jobs : List Job) (s : State) (done bad : ℕ)
    → Counted m jobs s done bad (set_parts m o jobs s done bad)
unfolding set_parts
set_parts-Counted m o [] s done bad = record {
  all = omega arith;
  no_throw = refl;
  no_collision = refl;
}
set_parts-Counted m o (job ∷ jobs) s done bad =
    continue_with-Counted m job jobs s done bad (set_part m o job s) (set_parts m o jobs)
      (set_part-Ends m o job s) (λ s' d b. set_parts-Counted m o jobs s' d b)

-- If `getJobsToProcess` throws, `pollJobsToSetPart` throws the same and does nothing. If it returns jobs
-- and no other poll goes on between the waits of this one, then whatever the chain answers to what is
-- pushed, the poll throws nothing and breaks off nowhere: every loaded job of a key version that the member acts on is counted as sent or as failed, and no
-- collision is ever counted.
pub poll_jobs_to_set_part-Counted :
    (m : Member) (o : Outside) (loading : Loading Job) (s : State)
    → OfLoading (λ jobs r. Counted m jobs s 0 0 r) loading s (set_part_round m o loading s)
unfolding set_part_round poll_jobs_to_set_part
poll_jobs_to_set_part-Counted m o (rows jobs) s = set_parts-Counted m o jobs s 0 0
poll_jobs_to_set_part-Counted m o (load_failed e) s = refl

-- ===== src/Interleaved/PartsAlone.antt =====
-- `pollJobsToSetPart` when no other poll goes on between its waits.
use wax_rng_oracle.Prelude.{
  ℕ, ◌+◌, ◌≡◌, refl, sym, subst, Option, none, some, List, [], ◌∷◌, Bool-cases, inl, inr,
  hexadecimal,
}
use wax_rng_oracle.Model.{Job}
use wax_rng_oracle.Contract.{submitpart}
use wax_rng_oracle.RngPusher.{Thrown, refuse, submit_refusals, submit_partial_signature}
use wax_rng_oracle.ShareKey.Signing.{SignResult}
use wax_rng_oracle.Poller.{
  State, Member, Outside, Run, acts_on, is_known_key_version, push, post, count, set_part_failed,
}
use wax_rng_oracle.Poller.SetPart.{
  Round, skipped, success, failure, breaks, throws, unsignable, message, signed, submitted,
  after_attempt, attempt_part, catch_part, continue_with, set_part, set_parts,
  poll_jobs_to_set_part,
}
use wax_rng_oracle.Interleaved.Alone.{given_answer, EndsIn, rests, goes}
use wax_rng_oracle.Interleaved.Own.{AreListed, known-is_known, unknown-is_known}
use wax_rng_oracle.Interleaved.Parts.{
  PartPc, resting, signing, sending, posting, part_lost, begin_message, begin_part, next_part,
  send_part, part_over, PartMove, loaded, signs, answers, is_posted,
}
use wax_rng_oracle.Interleaved.System.{System, part, Runs, done, Runs-first}

-- From its wait to its next wait.
abbrev pub follow : Member → Outside → PartPc → State → PartPc × State
follow m o (resting last) s = (resting last, s)
follow m o (signing job jobs) s = send_part m job jobs (signed m o (message o job)) s
follow m o (sending jobs) s =
    part_over m o jobs (after_attempt (refuse submit_refusals (given_answer o s.pushed)) s)
follow m o (posting jobs) s = next_part m o jobs s

abbrev pub follow_on : Member → Outside → PartPc × State → PartPc × State
follow_on m o r = follow m o r.0 r.1

module _ (m : Member) (o : Outside) where
  -- The poll rests after the run.
  abbrev Ends : PartPc × State → Run → Type 0
  Ends r run = EndsIn (follow_on m o) r (resting run.thrown, run.state)

  module _ (job : Job) (jobs : List Job)
      (rest : (s : State) (d b : ℕ) → Ends (next_part m o jobs s) (set_parts m o jobs s d b)) where
    over :
        (r : Round) (d b : ℕ)
        → Ends (part_over m o jobs r) (continue_with r d b (set_parts m o jobs))
    over (skipped s) d b = rest s d b
    over (success s) d b = rest s (d + 1) b
    over (failure s) d b = goes (rest s d (b + 1))
    over (breaks s) d b = rests refl
    over (throws e s) d b = rests refl

    lost :
        (s : State) (d b : ℕ)
        → Ends (part_lost jobs s) (set_parts m o jobs (post (count set_part_failed s)) d (b + 1))
    lost s d b = over (failure (post (count set_part_failed s))) d b

    sends :
        (r : Option SignResult) (s : State) (d b : ℕ)
        → Ends (send_part m job jobs r s) (
            continue_with
              (after_attempt (submitted m o job r s).0 (submitted m o job r s).1)
              d
              b
              (set_parts m o jobs))
    unfolding catch_part submit_partial_signature
    sends none s d b = lost s d b
    sends (some r) s d b =
        let a = submitpart m.owner job.id job.ver (hexadecimal r.signature_share) in
        goes (over (after_attempt (refuse submit_refusals (o.answer s.pushed a)) (push a s)) d b)

    begins :
        (hash : Option _) (s : State) (d b : ℕ)
        → message o job ≡ hash
        → Ends (begin_message job jobs hash s) (
            continue_with
              (after_attempt
                (submitted m o job (signed m o hash) s).0
                (submitted m o job (signed m o hash) s).1)
              d
              b
              (set_parts m o jobs))
    unfolding catch_part
    begins none s d b e = lost s d b
    begins (some hash) s d b e = goes (rw e (sends (signed m o (some hash)) s d b))

    tries :
        (s : State) (d b : ℕ)
        → Ends (begin_part o job jobs s) (
            continue_with
              (after_attempt (attempt_part m o job s).0 (attempt_part m o job s).1)
              d
              b
              (set_parts m o jobs))
    unfolding attempt_part catch_part
    tries s d b = elim (Bool-cases (unsignable job)) [
      | inl bad ↦ rw bad (lost s d b)
      | inr fine ↦ rw fine (begins (message o job) s d b refl)
    ]

  runs_on :
      (jobs : List Job) (s : State) (d b : ℕ)
      → Ends (next_part m o jobs s) (set_parts m o jobs s d b)
  unfolding next_part set_parts set_part
  runs_on [] s d b = rests refl
  runs_on (job ∷ jobs) s d b = elim (Bool-cases (acts_on m.active_key_version job.ver)) [
    | inl known ↦
        rw (known-is_known m job s known) (tries job jobs (λ s' d' b'. runs_on jobs s' d' b') s d b)
    | inr unknown ↦
        rw (unknown-is_known m job s unknown) (runs_on jobs (is_known_key_version m job s).1 d b)
  ]

module _ (m : Member) (o : Outside) (listed : List Job) (t : System) where
  abbrev at : PartPc × State → System
  at r = record t { shared = r.1; parts = r.0 }

  -- A step of the poll alone is a step of the system, unless it rests.
  follows :
      (p : PartPc) (s : State) (u : System)
      → Runs m o listed (at (follow m o p s)) u
      → Runs m o listed (at (p, s)) u
  follows (resting last) s u r = r
  follows (signing job jobs) s u r = Runs-first (part signs) r
  follows (sending jobs) s u r = Runs-first (part (answers (given_answer o s.pushed))) r
  follows (posting jobs) s u r = Runs-first (part is_posted) r

  all_follow : {r v : PartPc × State} → EndsIn (follow_on m o) r v → Runs m o listed (at r) (at v)
  all_follow (rests e) = done
  all_follow (goes {a} h) = follows a.0 a.1 _ (all_follow h)

  -- From a rest, if it loads the listed jobs: `pollJobsToSetPart`, going on alone, each answer being the
  -- one that the chain gives to its latest push, comes to a rest, in exactly the state and with exactly
  -- the error that the poll as one function gives; and its steps are steps of the interleaved polls.
  pub poll_jobs_to_set_part-Runs :
      (last : Option Thrown) (jobs : List Job)
      → t.parts ≡ resting last
      → AreListed listed jobs
      → let run = poll_jobs_to_set_part m o jobs t.shared in
        EndsIn (follow_on m o) (next_part m o jobs t.shared) (resting run.thrown, run.state)
        × Runs m o listed t (record t { shared = run.state; parts = resting run.thrown })
  unfolding poll_jobs_to_set_part
  poll_jobs_to_set_part-Runs last jobs e h =
      let ends = runs_on m o jobs t.shared 0 0 in
      (
        ends,
        Runs-first
            (part (
              subst (λ p. PartMove m o listed t.shared p (next_part m o jobs t.shared)) (sym e)
                (loaded jobs h)))
            (all_follow ends),
      )

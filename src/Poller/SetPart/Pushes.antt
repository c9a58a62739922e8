-- ===== src/Poller/SetPart/Pushes.antt =====
-- What `pollJobsToSetPart` pushes.
use mathlib.Core.List.{Memᴰ}
use wax_rng_oracle.Prelude.{
  ℕ, ◌+◌, ◌≡◌, refl, ◌∙◌, true, Option, none, some, List, [], ◌∷◌, arith, hexadecimal, Bool-cases,
  inl, inr,
}
use wax_rng_oracle.Model.{Job}
use wax_rng_oracle.Contract.{Action, submitpart}
use wax_rng_oracle.RngPusher.{
  Pushed, Thrown, sent, refused, silent, threw, submit_partial_signature,
}
use wax_rng_oracle.ShareKey.Signing.{SignResult}
use wax_rng_oracle.Poller.{State, Member, Outside, Run, acts_on, is_known_key_version}
use wax_rng_oracle.Poller.Pushing.{Pushes, Pushes-none, Pushes-one, Pushes-trans, Pushes-map}
use wax_rng_oracle.Poller.SetPart.{
  Round, skipped, success, failure, breaks, throws, catch_part, after_attempt, attempt_part,
  submitted, unsignable, signed, message, set_part, continue_with, set_parts, poll_jobs_to_set_part,
}

-- The member's partial signature of the job's message, by its own key, as the text that is pushed.
abbrev pub own_signature : Member → Outside → Job → Option SignResult
own_signature m o job = signed m o (message o job)

-- A push that is right for one of the jobs: a part in the member's name, of a key version that it
-- acts on, with its signature of the job's message, which is below the modulus.
pub record PartOf (m : Member) (o : Outside) (jobs : List Job) (a : Action) : Type 0 where
  pub job : Job
  pub loaded : Memᴰ job jobs
  pub known : acts_on m.active_key_version job.ver ≡ true
  pub signature : SignResult
  pub by_member : own_signature m o job ≡ some signature
  pub action : a ≡ submitpart m.owner job.id job.ver (hexadecimal signature.signature_share)

-- The states that a round leaves.
abbrev pub left : Round → State
left (skipped s) = s
left (success s) = s
left (failure s) = s
left (breaks s) = s
left (throws e s) = s

pushed-catch_part : (e : Thrown) (s : State) → (left (catch_part e s)).pushed ≡ s.pushed
unfolding catch_part
pushed-catch_part e s = ground arith

pub pushed-after_attempt : (r : Pushed) (s : State) → (left (after_attempt r s)).pushed ≡ s.pushed
pushed-after_attempt (threw e) s = pushed-catch_part e s
pushed-after_attempt (sent id) s = refl
pushed-after_attempt refused s = refl
pushed-after_attempt silent s = refl

module _ (m : Member) (o : Outside) (job : Job) (jobs : List Job)
    (known : acts_on m.active_key_version job.ver ≡ true) where
  submitted-Pushes :
      (r : Option SignResult) (s : State)
      → own_signature m o job ≡ r
      → Pushes (PartOf m o (job ∷ jobs)) s (submitted m o job r s).1
  unfolding submit_partial_signature
  submitted-Pushes none s e = Pushes-none s _ refl
  submitted-Pushes (some r) s e = Pushes-one s _ _ refl (record {
    job = job;
    loaded = Memᴰ.head refl;
    known = known;
    signature = r;
    by_member = e;
    action = refl;
  })

  attempt_part-Pushes : (s : State) → Pushes (PartOf m o (job ∷ jobs)) s (attempt_part m o job s).1
  unfolding attempt_part
  attempt_part-Pushes s = elim (Bool-cases (unsignable job)) [
    | inl bad ↦ rw bad (Pushes-none s s refl)
    | inr fine ↦ rw fine (submitted-Pushes (own_signature m o job) s refl)
  ]

set_part-Pushes :
    (m : Member) (o : Outside) (job : Job) (jobs : List Job) (s : State)
    → Pushes (PartOf m o (job ∷ jobs)) s (left (set_part m o job s))
unfolding set_part is_known_key_version
set_part-Pushes m o job jobs s = elim (Bool-cases (acts_on m.active_key_version job.ver)) [
  | inl known ↦
      let p = attempt_part-Pushes m o job jobs known s in
      let (r, t) = attempt_part m o job s in
      rw known
        (record { latest = p.latest; split = pushed-after_attempt r t ∙ p.split; right = p.right })
  | inr unknown ↦ rw unknown (Pushes-none s _ (ground arith))
]

PartOf-cons :
    (m : Member) (o : Outside) (job : Job) (jobs : List Job) (a : Action)
    → PartOf m o jobs a
    → PartOf m o (job ∷ jobs) a
PartOf-cons m o job jobs a p = record {
  job = p.job;
  loaded = Memᴰ.tail p.loaded;
  known = p.known;
  signature = p.signature;
  by_member = p.by_member;
  action = p.action;
}

continue_with-Pushes :
    (P : Action → Type 0) (s : State) (done bad : ℕ) (r : Round) (next : State → ℕ → ℕ → Run)
    → Pushes P s (left r)
    → ((s' : State) (d b : ℕ) → Pushes P s' (next s' d b).state)
    → Pushes P s (continue_with r done bad next).state
continue_with-Pushes P s done bad (skipped s') next p h = Pushes-trans p (h s' done bad)
continue_with-Pushes P s done bad (success s') next p h = Pushes-trans p (h s' (done + 1) bad)
continue_with-Pushes P s done bad (failure s') next p h = Pushes-trans p (h s' done (bad + 1))
continue_with-Pushes P s done bad (breaks s') next p h = p
continue_with-Pushes P s done bad (throws e s') next p h = p

set_parts-Pushes :
    (m : Member) (o : Outside) (jobs : List Job) (s : State) (done bad : ℕ)
    → Pushes (PartOf m o jobs) s (set_parts m o jobs s done bad).state
unfolding set_parts
set_parts-Pushes m o [] s done bad = Pushes-none s s refl
set_parts-Pushes m o (job ∷ jobs) s done bad =
    continue_with-Pushes (PartOf m o (job ∷ jobs)) s done bad (set_part m o job s)
      (set_parts m o jobs) (set_part-Pushes m o job jobs s)
      (λ s' d b.
        Pushes-map (PartOf m o jobs) (PartOf m o (job ∷ jobs)) (PartOf-cons m o job jobs)
          (set_parts-Pushes m o jobs s' d b))

-- Whatever the chain answers, `pollJobsToSetPart` pushes nothing but the member's own partial signatures of
-- loaded jobs, each in the member's name and of a key version that the member acts on.
pub poll_jobs_to_set_part-Pushes :
    (m : Member) (o : Outside) (jobs : List Job) (s : State)
    → Pushes (PartOf m o jobs) s (poll_jobs_to_set_part m o jobs s).state
unfolding poll_jobs_to_set_part
poll_jobs_to_set_part-Pushes m o jobs s = set_parts-Pushes m o jobs s 0 0

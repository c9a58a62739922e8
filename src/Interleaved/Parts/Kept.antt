-- ===== src/Interleaved/Parts/Kept.antt =====
-- What a step of `pollJobsToSetPart` keeps.
use wax_rng_oracle.Prelude.{◌≡◌, refl, ◌∙◌, Option, none, some, List, [], ◌∷◌, Bool-cases, inl, inr}
use wax_rng_oracle.Model.{Job}
use wax_rng_oracle.RngPusher.{refuse, submit_refusals}
use wax_rng_oracle.ShareKey.Signing.{SignResult}
use wax_rng_oracle.Poller.{State, Member, Outside, acts_on, is_known_key_version}
use wax_rng_oracle.Poller.Pushing.{Pushes, Pushes-none, Pushes-one, Pushes-trans}
use wax_rng_oracle.Poller.SetPart.{
  Round, skipped, success, failure, breaks, throws, unsignable, message, after_attempt,
}
use wax_rng_oracle.Poller.SetPart.Pushes.{PartOf, own_signature, left, pushed-after_attempt}
use wax_rng_oracle.Poller.SetPart.Kept.{db-after_attempt}
use wax_rng_oracle.Interleaved.Own.{
  IsOwn, AreListed, db-skipped, pushed-skipped, known-is_known, unknown-is_known,
}
use wax_rng_oracle.Interleaved.Parts.{
  PartPc, resting, signing, sending, posting, begin_message, begin_part, next_part, send_part,
  part_over, PartMove, loaded, not_loaded, signs, answers, is_posted,
}

module _ (m : Member) (o : Outside) (listed : List Job) where
  -- What the poll holds while it waits.
  abbrev pub PartOk : PartPc → Type 0
  PartOk (resting last) = Unit
  PartOk (signing job jobs) = IsOwn m listed job × AreListed listed jobs
  PartOk (sending jobs) = AreListed listed jobs
  PartOk (posting jobs) = AreListed listed jobs

  -- Only own parts of listed jobs are pushed, the storage is the same, and so on at the next wait.
  abbrev pub PartKept : State → PartPc × State → Type 0
  PartKept s r = Pushes (PartOf m o listed) s r.1 × (r.1.db ≡ s.db) × PartOk r.0

  begin_part-PartKept :
      (job : Job) (jobs : List Job) (s : State)
      → IsOwn m listed job
      → AreListed listed jobs
      → PartKept s (begin_part o job jobs s)
  begin_part-PartKept job jobs s own h = elim (Bool-cases (unsignable job)) [
    | inl bad ↦ rw bad (Pushes-none s _ refl, refl, h)
    | inr fine ↦ rw fine (begun (message o job))
  ]
    where
      begun : (hash : Option _) → PartKept s (begin_message job jobs hash s)
      begun none = (Pushes-none s _ refl, refl, h)
      begun (some hash) = (Pushes-none s s refl, refl, (own, h))

  -- One part of a step after the other.
  PartKept-after :
      {s t : State} (r : PartPc × State)
      → t.pushed ≡ s.pushed
      → t.db ≡ s.db
      → PartKept t r
      → PartKept s r
  PartKept-after {s} {t} r e f k = (Pushes-trans (Pushes-none s t e) k.0, k.1 ∙ f, k.2)

  next_part-PartKept :
      (jobs : List Job) (s : State) → AreListed listed jobs → PartKept s (next_part m o jobs s)
  unfolding next_part
  next_part-PartKept [] s h = (Pushes-none s s refl, refl, tt)
  next_part-PartKept (job ∷ jobs) s h = elim (Bool-cases (acts_on m.active_key_version job.ver)) [
    | inl known ↦
        rw (known-is_known m job s known)
          (begin_part-PartKept job jobs s (record { among = h.0; known = known }) h.1)
    | inr unknown ↦ rw (unknown-is_known m job s unknown) (
        PartKept-after _ (pushed-skipped m job s) (db-skipped m job s)
          (next_part-PartKept jobs (is_known_key_version m job s).1 h.1))
  ]

  part_over-PartKept :
      (jobs : List Job) (s : State) (r : Round)
      → AreListed listed jobs
      → (left r).pushed ≡ s.pushed
      → (left r).db ≡ s.db
      → PartKept s (part_over m o jobs r)
  part_over-PartKept jobs s (skipped t) h e f = PartKept-after _ e f (next_part-PartKept jobs t h)
  part_over-PartKept jobs s (success t) h e f = PartKept-after _ e f (next_part-PartKept jobs t h)
  part_over-PartKept jobs s (failure t) h e f = (Pushes-none s t e, f, h)
  part_over-PartKept jobs s (breaks t) h e f = (Pushes-none s t e, f, tt)
  part_over-PartKept jobs s (throws x t) h e f = (Pushes-none s t e, f, tt)

  send_part-PartKept :
      (job : Job) (jobs : List Job) (s : State) (r : Option SignResult)
      → IsOwn m listed job
      → AreListed listed jobs
      → own_signature m o job ≡ r
      → PartKept s (send_part m job jobs r s)
  send_part-PartKept job jobs s none own h e = (Pushes-none s _ refl, refl, h)
  send_part-PartKept job jobs s (some r) own h e = (
    Pushes-one s _ _ refl (record {
      job = job;
      loaded = own.among;
      known = own.known;
      signature = r;
      by_member = e;
      action = refl;
    }),
    refl,
    h,
  )

  pub PartMove-PartKept :
      {s : State} {p : PartPc} {r : PartPc × State}
      → PartMove m o listed s p r
      → PartOk p
      → PartKept s r
  PartMove-PartKept {s} (loaded jobs h) ok = next_part-PartKept jobs s h
  PartMove-PartKept {s} (not_loaded e) ok = (Pushes-none s s refl, refl, tt)
  PartMove-PartKept {s} (signs {job} {jobs}) ok =
      send_part-PartKept job jobs s (own_signature m o job) ok.0 ok.1 refl
  PartMove-PartKept {s} (answers {jobs} a) ok =
      let r = refuse submit_refusals a in
      part_over-PartKept jobs s (after_attempt r s) ok (pushed-after_attempt r s)
        (db-after_attempt r s)
  PartMove-PartKept {s} (is_posted {jobs}) ok = next_part-PartKept jobs s ok

-- ===== src/Interleaved/Lost.antt =====
-- When the process loses a failure record (lib/jobService.js, `clearResolvedFailures`).
use wax_rng_oracle.Prelude.{
  ℕ, ◌≡◌, ◌⊎◌, refl, ap, subst, Bool, true, false, none, some, List, inl, inr, leb, if◌then◌else◌,
}
use wax_rng_oracle.Dict.{Dict, lookup}
use wax_rng_oracle.Model.{Job}
use wax_rng_oracle.Storage.{Storage, Failure}
use wax_rng_oracle.Poller.{post, State, Member, Outside}
use wax_rng_oracle.Interleaved.Parts.Kept.{PartOk, PartMove-PartKept}
use wax_rng_oracle.Interleaved.Added.{ResultMove-Adds}
use wax_rng_oracle.Interleaved.Undisturbed.{DeliveryMove-Same, CleanupMove-Same, DeliveredMove-Same}
use wax_rng_oracle.Interleaved.System.{
  System, part, result, delivery, cleans, clears, clears_delivered, monitors, Runs, done, later,
  Reach,
}
use wax_rng_oracle.Interleaved.Dropped.{ReadsGone, ClearOk, ClearMove-Ok}

failures-monitored : (b : Bool) (s : State) → (if b then post s else s).db.failures ≡ s.db.failures
failures-monitored true s = refl
failures-monitored false s = refl

module _ (m : Member) (o : Outside) (listed : List Job) where
  -- Somewhere in the run `clearResolvedFailures` read the job of the id as gone.
  unfoldable pub WasGone : {t u : System} → Runs m o listed t u → ℕ → Type 0
  WasGone done id = ⊥
  WasGone (later r (clears mv)) id = ReadsGone mv id ⊎ WasGone r id
  WasGone (later r (part mv)) id = WasGone r id
  WasGone (later r (result mv)) id = WasGone r id
  WasGone (later r (delivery mv)) id = WasGone r id
  WasGone (later r (cleans mv)) id = WasGone r id
  WasGone (later r (clears_delivered mv)) id = WasGone r id
  WasGone (later r (monitors max_job_pending pending)) id = WasGone r id

  -- With the ids that had no record at the start.
  abbrev Excused : {t u : System} → Runs m o listed t u → ℕ → Type 0
  Excused {t} r id = (lookup id t.shared.db.failures ≡ none) ⊎ WasGone r id

  record Told {t u : System} (r : Runs m o listed t u) : Type 0 where
    lost : (id : ℕ) → lookup id u.shared.db.failures ≡ none → Excused r id
    held : ClearOk (Excused r) u.clearing
    parts : PartOk m o listed u.parts

  -- A step that drops no record.
  same_none : (d d' : Dict Failure) (id : ℕ) → d' ≡ d → lookup id d' ≡ none → lookup id d ≡ none
  same_none d d' id h e = subst (λ x. lookup id x ≡ none) h e

  Runs-Told : {s : State} {u : System} (r : Reach m o listed s u) → Told r
  unfolding WasGone
  Runs-Told done = record { lost = λ id e. inl e; held = tt; parts = tt }
  Runs-Told (later {u} r (part {s} mv)) =
      let before = Runs-Told r in
      let (p, same, ok) = PartMove-PartKept m o listed mv before.parts in
      record {
        lost = λ id e. before.lost id (
            same_none u.shared.db.failures s.db.failures id (ap (λ (d : Storage). d.failures) same)
              e);
        held = before.held;
        parts = ok;
      }
  Runs-Told (later r (result mv)) =
      let before = Runs-Told r in
      record {
        lost = λ id e. before.lost id (ResultMove-Adds m o listed mv id e);
        held = before.held;
        parts = before.parts;
      }
  Runs-Told (later {u} r (delivery {s} mv)) =
      let before = Runs-Told r in
      record {
        lost = λ id e.
            before.lost id
              (same_none u.shared.db.failures s.db.failures id (DeliveryMove-Same m mv) e);
        held = before.held;
        parts = before.parts;
      }
  Runs-Told (later {u} r (cleans {s} mv)) =
      let before = Runs-Told r in
      record {
        lost = λ id e.
            before.lost id
              (same_none u.shared.db.failures s.db.failures id (CleanupMove-Same mv) e);
        held = before.held;
        parts = before.parts;
      }
  Runs-Told (later {u} r (clears mv)) =
      let before = Runs-Told r in
      let (held, lost) =
        ClearMove-Ok (Excused r) (Excused (later r (clears mv))) u.shared before.lost
          (λ id x. elim x [ inl never ↦ inl never | inr gone ↦ inr (inr gone) ]) mv
          (λ id gone. inr (inl gone)) before.held in
      record { lost = lost; held = held; parts = before.parts }
  Runs-Told (later {u} r (clears_delivered {s} mv)) =
      let before = Runs-Told r in
      record {
        lost = λ id e.
            before.lost id
              (same_none u.shared.db.failures s.db.failures id (DeliveredMove-Same mv) e);
        held = before.held;
        parts = before.parts;
      }
  Runs-Told (later {u} r (monitors max_job_pending pending)) =
      let before = Runs-Told r in
      record {
        lost = λ id e. before.lost id (
            same_none u.shared.db.failures _ id
              (failures-monitored (leb max_job_pending pending) u.shared) e);
        held = before.held;
        parts = before.parts;
      }

  -- However the polls interleave, if the storage has a record of a failed job at the start and has none
  -- at the end, then in between `clearResolvedFailures` read a record of that id again and found the
  -- job gone from the chain, or there with another seed.
  pub Reach-WasGone :
      (s : State) (t : System) (id : ℕ) (f : Failure) (r : Reach m o listed s t)
      → lookup id s.db.failures ≡ some f
      → lookup id t.shared.db.failures ≡ none
      → WasGone r id
  Reach-WasGone s t id f r had lost = elim ((Runs-Told r).lost id lost) [
    | inl never ↦ absurd (cc)
    | inr gone ↦ gone
  ]

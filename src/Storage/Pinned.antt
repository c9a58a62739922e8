-- ===== src/Storage/Pinned.antt =====
-- A combine failure parks its job until the parts change (lib/storage.js).
use mathlib.Core.List.{Perm}
use wax_rng_oracle.Prelude.{
  ℕ, String, ◌≡◌, ◌∙◌, sym, not, List, ◌≢◌, Bool, false, some, arith, ==_refl, ◌&&◌, text_eq_iff,
}
use wax_rng_oracle.Dict.{lookup, lookup-put}
use wax_rng_oracle.Model.{Job, Part}
use wax_rng_oracle.Storage.Fingerprint.{parts_fingerprint}
use wax_rng_oracle.Storage.Fingerprint.Order.{parts_fingerprint-perm}
use wax_rng_oracle.Storage.{
  Storage, Failure, failure_after, pin, pinned_to, job_failed, retry_due, should_execute_job,
}
use wax_rng_oracle.Storage.Backoff.{should_execute_job-some}

parts_fingerprint_nonempty :
    (sha256 : String → String) (parts : List Part)
    → ((text : String) → sha256 text ≢ "")
    → parts_fingerprint sha256 parts ≢ ""
unfolding parts_fingerprint
parts_fingerprint_nonempty sha256 parts h = h _

held :
    (fp current : String) (due : Bool)
    → fp ≢ ""
    → fp ≡ current
    → (not (pinned_to (pin (some fp)) current) && due) ≡ false
held fp current due h e = ground (arith, text_eq_iff fp "", text_eq_iff fp current)

released :
    (fp current : String) (due : Bool)
    → fp ≢ current
    → (not (pinned_to (pin (some fp)) current) && due) ≡ due
released fp current due h = ground (arith, text_eq_iff fp current)

module _ (sha256 : String → String) (s : Storage) (at now : ℕ) (job job' : Job)
    (same : job'.id ≡ job.id) where
  abbrev parked : Storage
  parked = (job_failed at s job (some (parts_fingerprint sha256 job.parts))).0

  abbrev record_left : Failure
  record_left =
      failure_after at job (some (parts_fingerprint sha256 job.parts)) (lookup job.id s.failures)

  lookup-parked : lookup job'.id parked.failures ≡ some record_left
  unfolding job_failed
  lookup-parked = rw (same, lookup-put, ==_refl)

  -- A job that failed to combine is not tried again with the same parts in any order, however much
  -- time has passed, if a digest is never the empty text.
  pub should_execute_job-parked :
      ((text : String) → sha256 text ≢ "")
      → Perm job.parts job'.parts
      → should_execute_job sha256 now parked job' ≡ false
  should_execute_job-parked nonempty p =
      let e = parts_fingerprint-perm sha256 job.parts job'.parts p in
      should_execute_job-some sha256 now parked job' record_left lookup-parked
      ∙ held (parts_fingerprint sha256 job.parts) _ _
          (parts_fingerprint_nonempty sha256 job.parts nonempty) e

  -- A job that failed to combine and has parts of another fingerprint by now is tried again by the
  -- delay of its failure record alone.
  pub should_execute_job-changed :
      parts_fingerprint sha256 job'.parts ≢ parts_fingerprint sha256 job.parts
      → should_execute_job sha256 now parked job'
        ≡ retry_due s.max_retry_duration now record_left.created_at record_left.next_retry
  unfolding job_failed
  should_execute_job-changed other =
      should_execute_job-some sha256 now parked job' record_left lookup-parked
      ∙ released (parts_fingerprint sha256 job.parts) _ _ (λ e. other (sym e))

-- ===== src/Poller/Execute/Parked.antt =====
-- A job whose parts do not combine is left alone by `pollJobsToExecute` until its parts change.
use mathlib.Core.List.{Perm}
use wax_rng_oracle.Prelude.{
  ℕ, ◌≤◌, String, ◌≡◌, ◌≢◌, refl, Bool, true, false, some, List, [], ◌∷◌, arith, if◌then◌else◌,
  length, ltb,
}
use wax_rng_oracle.Model.{Job}
use wax_rng_oracle.ShareKey.{Rejected, combine_error}
use wax_rng_oracle.JobService.{should_execute_job}
use wax_rng_oracle.Storage.{job_failed}
use wax_rng_oracle.Storage.Fingerprint.{parts_fingerprint}
use wax_rng_oracle.Storage.Pinned.{should_execute_job-parked}
use wax_rng_oracle.Poller.{
  State, Member, Outside, acts_on, count, execute_failed, combine_failed, is_known_key_version,
  post_combine_alert,
}
use wax_rng_oracle.Poller.SetPart.{failure, message}
use wax_rng_oracle.Poller.Execute.{
  not_combined, combination, use_combined, try_job, record_failure, alerted, after_try, execute_job,
  execute_jobs, poll_jobs_to_execute,
}

db-alerted : (m : Member) (o : Outside) (s : State) → (alerted m o s).db ≡ s.db
unfolding post_combine_alert
db-alerted m o s = ground arith

pushed-alerted : (m : Member) (o : Outside) (s : State) → (alerted m o s).pushed ≡ s.pushed
unfolding post_combine_alert
pushed-alerted m o s = ground arith

held_back :
    (threshold n : ℕ) {b : Bool} → b ≡ false → (if ltb n threshold then false else b) ≡ false
held_back threshold n e = ground arith

try_job-not_combined :
    (m : Member) (o : Outside) (job : Job) (hash code : String) (rs : List Rejected) (s : State)
    → message o job ≡ some hash
    → m.threshold ≤ length job.parts
    → combination m o job hash ≡ combine_error code rs
    → try_job m o job s ≡ (not_combined, s)
unfolding try_job
try_job-not_combined m o job hash code rs s e many c =
    rw e (rw (parts_suffice (length job.parts) m.threshold many) (rw (c, use_combined)))
  where
    parts_suffice : (n k : ℕ) → k ≤ n → ltb n k ≡ false
    parts_suffice n k h = ground arith

db-execute_job :
    (m : Member) (o : Outside) (job : Job) (hash code : String) (rs : List Rejected) (s : State)
    → acts_on m.active_key_version job.ver ≡ true
    → message o job ≡ some hash
    → m.threshold ≤ length job.parts
    → combination m o job hash ≡ combine_error code rs
    → (s' : State) × (execute_job m o job s ≡ failure s')
      × (s'.pushed ≡ s.pushed)
      × (s'.db ≡ (job_failed (o.clock s) s.db job (some (parts_fingerprint o.sha256 job.parts))).0)
unfolding execute_job is_known_key_version after_try
db-execute_job m o job hash code rs s known e many c =
    let (f, s') = record_failure o job (some (parts_fingerprint o.sha256 job.parts)) s in
    let counted_twice = count execute_failed (count combine_failed s') in
    (
      alerted m o counted_twice,
      rw (known, try_job-not_combined m o job hash code rs s e many c),
      pushed-alerted m o counted_twice,
      db-alerted m o counted_twice,
    )

-- If the parts of a job of a known version are enough and the library finds that they do not combine,
-- the poll of the job counts a failure and pushes nothing; the job is not loaded again with the same
-- parts in any order at any time after, if a digest is never the empty text.
pub poll_jobs_to_execute-parks :
    (m : Member) (o : Outside) (job job' : Job) (hash code : String) (rs : List Rejected)
    (s : State) (now : ℕ)
    → ((text : String) → o.sha256 text ≢ "")
    → acts_on m.active_key_version job.ver ≡ true
    → message o job ≡ some hash
    → m.threshold ≤ length job.parts
    → combination m o job hash ≡ combine_error code rs
    → job'.id ≡ job.id
    → Perm job.parts job'.parts
    → let r = poll_jobs_to_execute m o (job ∷ []) s in
      (r.failed ≡ 1)
      × (r.state.pushed ≡ s.pushed)
      × (should_execute_job m.threshold o.sha256 now r.state.db job' ≡ false)
unfolding poll_jobs_to_execute execute_jobs should_execute_job
poll_jobs_to_execute-parks m o job job' hash code rs s now nonempty known e many c same p =
    let (s', ran, pushed, db) = db-execute_job m o job hash code rs s known e many c in
    rw ran (
      refl,
      pushed,
      rw db (
          held_back m.threshold (length job'.parts)
            (should_execute_job-parked o.sha256 s.db (o.clock s) now job job' same nonempty p)),
    )

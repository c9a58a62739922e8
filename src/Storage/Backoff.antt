-- ===== src/Storage/Backoff.antt =====
-- How failures of lib/storage.js add up: the record of a job after any sequence of failures of
-- any jobs, and when the job is tried again.
use wax_rng_oracle.Prelude.{
  ℕ, ◌+◌, ◌*◌, ◌^◌, String, ◌≡◌, refl, ap, ◌∙◌, Bool, true, false, not, ◌&&◌, Option, none, some,
  List, [], ◌∷◌, arith, pow-add, ltb-delay, ltb, leb, ◌==◌, ==_iff, ==_refl, if◌then◌else◌,
  Bool-cases, inl, inr,
}
use wax_rng_oracle.Dict.{lookup, lookup-put}
use wax_rng_oracle.Model.{Job}
use wax_rng_oracle.Storage.Fingerprint.{parts_fingerprint}
use wax_rng_oracle.Storage.{
  Storage, Failure, new_failure, pin, job_failed, pinned_to, retry_due, should_execute_job,
}

if_not : (b c : Bool) → (if b then false else c) ≡ (not b && c)
if_not true c = refl
if_not false c = refl

-- A call of `jobFailed`.
pub record Attempt : Type 0 where
  pub at : ℕ
  pub job : Job
  pub meta : Option String

pub fail_all : List Attempt → Storage → Storage
fail_all [] s = s
fail_all (a ∷ later) s = fail_all later (job_failed a.at s a.job a.meta).0

-- How often the job `id` fails.
abbrev pub failures_of : ℕ → List Attempt → ℕ
failures_of id [] = 0
failures_of id (a ∷ later) = (if a.job.id == id then 1 else 0) + failures_of id later

-- The parts that its last failure was pinned to.
abbrev pub last_pin : ℕ → Option String → List Attempt → Option String
last_pin id old [] = old
last_pin id old (a ∷ later) = last_pin id (if a.job.id == id then pin a.meta else old) later

abbrev doubled : Failure → ℕ → Option String → Failure
doubled f n fp = record f { next_retry = f.next_retry * 2 ^ n; parts_fingerprint = fp }

next_retry_path :
    (f : Failure) (m n : ℕ) (p : Option String)
    → m ≡ n
    → ◌≡◌ {A = Failure}
        (record f { next_retry = m; parts_fingerprint = p })
        (record f { next_retry = n; parts_fingerprint = p })
next_retry_path f m n p e = ap (λ k. record f { next_retry = k; parts_fingerprint = p }) e

lookup-job_failed :
    (id : ℕ) (a : Attempt) (s : Storage) (f : Failure)
    → lookup id s.failures ≡ some f
    → lookup id (job_failed a.at s a.job a.meta).0.failures
      ≡ some (
          doubled f
            (if a.job.id == id then 1 else 0)
            (if a.job.id == id then pin a.meta else f.parts_fingerprint))
unfolding job_failed
lookup-job_failed id a s f h = rw lookup-put (elim (Bool-cases (a.job.id == id)) [
  | inl same ↦
      let e : a.job.id ≡ id = (==_iff a.job.id id).0 same in
      rw same (rw e (rw h (ap some (next_retry_path f _ _ (pin a.meta) refl))))
  | inr other ↦ rw other (rw h (ap some (next_retry_path f _ _ f.parts_fingerprint (omega arith))))
])

double_again :
    (f : Failure) (m n : ℕ) (p q : Option String)
    → doubled (doubled f m p) n q ≡ doubled f (m + n) q
double_again f m n p q = next_retry_path f _ _ q (rw pow-add (omega arith))

pub lookup-fail_all :
    (later : List Attempt) (id : ℕ) (s : Storage) (f : Failure)
    → lookup id s.failures ≡ some f
    → lookup id (fail_all later s).failures
      ≡ some (doubled f (failures_of id later) (last_pin id f.parts_fingerprint later))
unfolding fail_all
lookup-fail_all [] id s f h = h ∙ ap some (next_retry_path f _ _ f.parts_fingerprint (omega arith))
lookup-fail_all (a ∷ later) id s f h =
    lookup-fail_all later id _ _ (lookup-job_failed id a s f h)
    ∙ ap some (double_again f _ _ (if a.job.id == id then pin a.meta else f.parts_fingerprint) _)

pub max-fail_all :
    (later : List Attempt) (s : Storage)
    → (fail_all later s).max_retry_duration ≡ s.max_retry_duration
unfolding fail_all job_failed
max-fail_all [] s = refl
max-fail_all (a ∷ later) s = max-fail_all later (job_failed a.at s a.job a.meta).0

-- The record that the first failure of a job leaves.
abbrev first_failure : Attempt → Failure
first_failure a = record (new_failure a.at a.job) { parts_fingerprint = pin a.meta }

lookup-first :
    (a : Attempt) (id : ℕ) (s : Storage)
    → lookup a.job.id s.failures ≡ none
    → id ≡ a.job.id
    → lookup id (job_failed a.at s a.job a.meta).0.failures ≡ some (first_failure a)
unfolding job_failed
lookup-first a id s fresh same = rw (same, lookup-put, ==_refl, fresh)

pub should_execute_job-some :
    (sha256 : String → String) (now : ℕ) (s : Storage) (job : Job) (f : Failure)
    → lookup job.id s.failures ≡ some f
    → should_execute_job sha256 now s job ≡ (
        not (pinned_to f.parts_fingerprint (parts_fingerprint sha256 job.parts))
        && retry_due s.max_retry_duration now f.created_at f.next_retry)
unfolding should_execute_job
should_execute_job-some sha256 now s job f h = rw h (
    if_not (pinned_to f.parts_fingerprint (parts_fingerprint sha256 job.parts))
      (retry_due s.max_retry_duration now f.created_at f.next_retry))

-- In a storage with the maximum delay 500 * 2 ^ `max_retries`, a job without a failure record that
-- fails at `first.at`, and `n` times more among any further failures of any jobs, is tried again
-- exactly when its parts are not those that its last failure is pinned to, the time is at least
-- 500 * 2 ^ `n` ms after the first failure, and `n` is below `max_retries`.
pub should_execute_job-fail_all :
    (sha256 : String → String) (now max_retries : ℕ) (s : Storage) (first : Attempt)
    (later : List Attempt) (job : Job)
    → s.max_retry_duration ≡ 2 ^ max_retries * 500
    → lookup first.job.id s.failures ≡ none
    → job.id ≡ first.job.id
    → should_execute_job sha256 now (fail_all (first ∷ later) s) job ≡ (
        not
          (pinned_to (last_pin job.id (pin first.meta) later) (parts_fingerprint sha256 job.parts))
        && (leb (first.at + 500 * 2 ^ failures_of job.id later) now
            && ltb (failures_of job.id later) max_retries))
unfolding fail_all job_failed retry_due
should_execute_job-fail_all sha256 now max_retries s first later job hmax fresh same =
    let started = (job_failed first.at s first.job first.meta).0 in
    should_execute_job-some sha256 now (fail_all later started) job _ (
      lookup-fail_all later job.id started (first_failure first)
        (lookup-first first job.id s fresh same))
    ∙ rw (max-fail_all, hmax, ltb-delay)

-- ===== src/Interleaved/Results/Follow.antt =====
-- `pollJobsToExecute` of lib/poller.js going on alone: what it does next, with the answers that the
-- chain gives and the times that the clock shows.
use wax_rng_oracle.Prelude.{ℕ, ◌≡◌, refl, Option, none, some, List, arith}
use wax_rng_oracle.Dict.{Dict, lookup, put, lookup-put}
use wax_rng_oracle.Model.{Job}
use wax_rng_oracle.RngPusher.{refuse, setrand_refusals, markfailed_refusals}
use wax_rng_oracle.Storage.{Failure, job_failed}
use wax_rng_oracle.Poller.{State, Member, Outside, count, execute_failed, combine_failed}
use wax_rng_oracle.Interleaved.Alone.{given_answer}
use wax_rng_oracle.Interleaved.Results.{
  Trouble, uncombined, crash, ResultPc, resting, writing, next_result, after_send, meta_of,
  recalled, written, sending, recalling, marking, mark_posting, posting, give_up, after_marking,
}

-- The record that is read again is the one that was put.
pub lookup-put-same : (id : ℕ) (f : Failure) (d : Dict Failure) → lookup id (put id f d) ≡ some f
lookup-put-same id f d = rw lookup-put (ground arith)

pub recalled-alone :
    (o : Outside) (now : ℕ) (t : Trouble) (job : Job) (jobs : List Job) (s : State)
    → recalled o now t job jobs (lookup job.id s.db.failures) s
      ≡ (writing t job jobs, record s { db = (job_failed now s.db job (meta_of o job t)).0 })
unfolding job_failed
recalled-alone o now t job jobs s = split (lookup job.id s.db.failures) refl
  where
    split :
        (found : Option Failure)
        → lookup job.id s.db.failures ≡ found
        → recalled o now t job jobs found s
          ≡ (writing t job jobs, record s { db = (job_failed now s.db job (meta_of o job t)).0 })
    split none e = rw e refl
    split (some f) e = rw e refl

-- The time that is read after the write: the alert of a combine error reads it.
abbrev pub write_time : Outside → Trouble → State → ℕ
write_time o uncombined s = o.clock (count execute_failed (count combine_failed s))
write_time o (crash signature e) s = o.clock s

-- From its wait to its next wait.
abbrev pub follow : Member → Outside → ResultPc → State → ResultPc × State
follow m o (resting last) s = (resting last, s)
follow m o (sending signature job jobs) s =
    after_send m o signature job jobs (refuse setrand_refusals (given_answer o s.pushed)) s
follow m o (recalling t job jobs found) s = recalled o (o.clock s) t job jobs found s
follow m o (writing t job jobs) s =
    written m o (write_time o t s) t jobs (lookup job.id s.db.failures) s
follow m o (marking jobs) s =
    after_marking jobs (refuse markfailed_refusals (given_answer o s.pushed)) s
follow m o (mark_posting jobs) s = give_up jobs s
follow m o (posting jobs) s = next_result m o jobs s

abbrev pub follow_on : Member → Outside → ResultPc × State → ResultPc × State
follow_on m o r = follow m o r.0 r.1

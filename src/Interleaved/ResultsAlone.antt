-- ===== src/Interleaved/ResultsAlone.antt =====
-- `pollJobsToExecute` when no other poll goes on between its waits.
use wax_rng_oracle.Prelude.{
  ℕ, String, ◌+◌, ◌≡◌, refl, sym, subst, not, ◌&&◌, Option, none, some, List, [], ◌∷◌, Bool-cases,
  inl, inr, includes, text_eq, ltb, length,
}
use wax_rng_oracle.Dict.{lookup}
use wax_rng_oracle.Model.{Job}
use wax_rng_oracle.Contract.{setrand, markfailed}
use wax_rng_oracle.RngPusher.{
  no_error, no_detail, detail, Thrown, rpc, type_error, other, Pushed, sent, refused, silent, threw,
  refuse, setrand_refusals, markfailed_refusals, set_random_number, mark_failed,
}
use wax_rng_oracle.ShareKey.{Combined, combined, combine_error, combine_threw}
use wax_rng_oracle.Storage.{Failure, job_failed, failure_after}
use wax_rng_oracle.Poller.{
  State, Member, Outside, Run, acts_on, is_known_key_version, push, post, count, execute_failed,
  combine_failed, markfail_failed,
}
use wax_rng_oracle.Poller.SetPart.{Round, message, continue_with}
use wax_rng_oracle.Poller.Execute.{
  log_combine_diagnostics, Tried, crashed, not_combined, after_setrand, after_mark, usable,
  combination, use_combined, try_hash, try_job, after_try, catch_other, record_failure, execute_job,
  execute_jobs, poll_jobs_to_execute,
}
use wax_rng_oracle.Poller.Execute
use wax_rng_oracle.Interleaved.Alone.{given_answer, EndsIn, rests, goes}
use wax_rng_oracle.Interleaved.Own.{AreListed, known-is_known, unknown-is_known}
use wax_rng_oracle.Interleaved.Results.{
  Trouble, uncombined, crash, ResultPc, resting, writing, Begun, use_combination, use_hash,
  log_combination, log_hash, recall, act, next_result, after_send, meta_of, sending, recalling,
  marking, mark_posting, posting, give_up, mark_lost, catch_thrown, after_marking, ResultMove,
  loaded, answers, reads, writes, is_marked, mark_is_posted, is_posted,
}
use wax_rng_oracle.Interleaved.Results.Follow.{
  lookup-put-same, recalled-alone, write_time, follow, follow_on,
}
use wax_rng_oracle.Interleaved.System.{System, result, Runs, done, Runs-first}

module _ (m : Member) (o : Outside) where
  -- The poll rests after the run.
  abbrev Ends : ResultPc × State → Run → Type 0
  Ends r run = EndsIn (follow_on m o) r (resting run.thrown, run.state)

  module _ (job : Job) (jobs : List Job)
      (rest : (s : State) (d b : ℕ)
        → Ends (next_result m o jobs s) (execute_jobs m o jobs s d b)) where
    -- From a wait to what a round leads to.
    abbrev Leads : ResultPc × State → Round → Type 0
    Leads r e = (d b : ℕ) → Ends r (continue_with e d b (execute_jobs m o jobs))

    gives_up : (s : State) → Leads (give_up jobs s) (Execute.give_up s)
    gives_up s d b = goes (rest (post (count execute_failed s)) d (b + 1))

    loses_mark :
        (s : State) → Leads (mark_lost jobs s) (Execute.give_up (post (count markfail_failed s)))
    loses_mark s d b = goes (gives_up (post (count markfail_failed s)) d b)

    marks :
        (p : Pushed) (s : State) → Leads (after_marking jobs p s) (Execute.give_up (after_mark p s))
    marks (threw e) s d b = loses_mark s d b
    marks (sent id) s d b = gives_up s d b
    marks refused s d b = gives_up s d b
    marks silent s d b = gives_up s d b

    catches :
        (f : Failure) (signature : Option String) (e : Thrown) (s : State)
        → Leads (catch_thrown m o f jobs signature e s) (catch_other m o f signature e s)
    unfolding mark_failed
    catches f signature (rpc no_error) s d b = rests refl
    catches f none (rpc no_detail) s d b = gives_up s d b
    catches f (some signature) (rpc no_detail) s d b = elim (Bool-cases (usable signature)) [
      | inl worth ↦ rw worth (loses_mark s d b)
      | inr idle ↦ rw idle (gives_up s d b)
    ]
    catches f none (rpc (detail text)) s d b =
        elim (Bool-cases (includes text "no request found")) [
          | inl found ↦ rw found (rest _ d b)
          | inr new ↦ rw new (gives_up s d b)
        ]
    catches f (some signature) (rpc (detail text)) s d b =
        elim (Bool-cases (includes text "no request found")) [
          | inl found ↦ rw found (rest _ d b)
          | inr new ↦ elim (Bool-cases (usable signature && not (text_eq text ""))) [
            | inl worth ↦
                let a = markfailed m.owner f.id f.ver signature text in
                rw (new, worth)
                  (goes (marks (refuse markfailed_refusals (o.answer s.pushed a)) (push a s) d b))
            | inr idle ↦ rw (new, idle) (gives_up s d b)
          ]
        ]
    catches f signature type_error s d b = gives_up s d b
    catches f signature (other e) s d b = gives_up s d b

    -- The record that is there again after the write.
    found_again :
        (now : ℕ) (s : State) (meta : Option String)
        → lookup job.id (job_failed now s.db job meta).0.failures
          ≡ some (job_failed now s.db job meta).1
    unfolding job_failed
    found_again now s meta =
        lookup-put-same job.id (failure_after now job meta (lookup job.id s.db.failures))
          s.db.failures

    recalls :
        (tr : Trouble) (s : State) (v : ResultPc × State)
        → EndsIn
            (follow_on m o)
            (
              writing tr job jobs,
              record s { db = (job_failed (o.clock s) s.db job (meta_of o job tr)).0 },
            )
            v
        → EndsIn (follow_on m o) (recall tr job jobs s) v
    recalls tr s v r = goes (
        subst (λ q. EndsIn (follow_on m o) q v) (sym (recalled-alone o (o.clock s) tr job jobs s))
          r)

    crashes :
        (signature : Option String) (e : Thrown) (s : State)
        → Leads (recall (crash signature e) job jobs s) (after_try m o job (crashed signature e) s)
    unfolding after_try
    crashes signature e s d b =
        let now = o.clock s in
        let (f, s') = record_failure o job none s in
        recalls (crash signature e) s _
          (goes (rw (found_again now s none) (catches f signature e s' d b)))

    parks : (s : State) → Leads (recall uncombined job jobs s) (after_try m o job not_combined s)
    unfolding after_try
    parks s d b =
        let s' = (record_failure o job (meta_of o job uncombined) s).1 in
        let s'' = count execute_failed (count combine_failed s') in
        recalls uncombined s _ (goes (goes (rest _ d (b + 1))))

    after_answer :
        (signature : String) (p : Pushed) (s : State)
        → Leads
            (after_send m o signature job jobs p s)
            (after_try m o job (after_setrand signature p) s)
    unfolding after_try
    after_answer signature (threw e) s d b = crashes (some signature) e s d b
    after_answer signature (sent id) s d b = rest _ (d + 1) b
    after_answer signature refused s d b = rest _ (d + 1) b
    after_answer signature silent s d b = rest _ (d + 1) b

    abbrev Does : Begun → Tried × State → State → Type 0
    Does begun tried s =
        Leads (act m job jobs (next_result m o jobs s) begun s) (after_try m o job tried.0 tried.1)

    uses :
        (c : Combined) (s : State)
        → Does (use_combination c) (use_combined m o job c s) (log_combination c s)
    unfolding after_try set_random_number
    uses (combined signature g) s d b = elim (Bool-cases (text_eq signature "")) [
      | inl blank ↦ rw blank (rest (log_combine_diagnostics g s) d b)
      | inr there ↦
          let a = setrand m.owner job.id job.ver signature in
          let logged = log_combine_diagnostics g s in
          rw there (
            goes (
              after_answer signature (refuse setrand_refusals (o.answer logged.pushed a))
                (push a logged) d b))
    ]
    uses (combine_error code rejected) s d b = parks s d b
    uses combine_threw s d b = crashes none (other "combine") s d b

    tries_hash :
        (hash : Option String) (s : State)
        → Does (use_hash m o job hash) (try_hash m o job hash s) (log_hash m o job hash s)
    unfolding after_try
    tries_hash none s d b = crashes none (other "make_msg") s d b
    tries_hash (some hash) s d b = elim (Bool-cases (ltb (length job.parts) m.threshold)) [
      | inl few ↦ rw few (rest s d b)
      | inr many ↦ rw many (uses (combination m o job hash) s d b)
    ]

  runs_on :
      (jobs : List Job) (s : State) (d b : ℕ)
      → Ends (next_result m o jobs s) (execute_jobs m o jobs s d b)
  unfolding next_result execute_jobs execute_job try_job
  runs_on [] s d b = rests refl
  runs_on (job ∷ jobs) s d b = elim (Bool-cases (acts_on m.active_key_version job.ver)) [
    | inl known ↦
        rw (known-is_known m job s known)
          (tries_hash job jobs (λ s' d' b'. runs_on jobs s' d' b') (message o job) s d b)
    | inr unknown ↦
        rw (unknown-is_known m job s unknown) (runs_on jobs (is_known_key_version m job s).1 d b)
  ]

module _ (m : Member) (o : Outside) (listed : List Job) (t : System) where
  abbrev at : ResultPc × State → System
  at r = record t { shared = r.1; results = r.0 }

  -- A step of the poll alone is a step of the system, unless it rests.
  follows :
      (p : ResultPc) (s : State) (u : System)
      → Runs m o listed (at (follow m o p s)) u
      → Runs m o listed (at (p, s)) u
  follows (resting last) s u r = r
  follows (sending signature job jobs) s u r =
      Runs-first (result (answers (given_answer o s.pushed))) r
  follows (recalling tr job jobs found) s u r = Runs-first (result (reads (o.clock s))) r
  follows (writing tr job jobs) s u r = Runs-first (result (writes (write_time o tr s))) r
  follows (marking jobs) s u r = Runs-first (result (is_marked (given_answer o s.pushed))) r
  follows (mark_posting jobs) s u r = Runs-first (result mark_is_posted) r
  follows (posting jobs) s u r = Runs-first (result is_posted) r

  all_follow : {r v : ResultPc × State} → EndsIn (follow_on m o) r v → Runs m o listed (at r) (at v)
  all_follow (rests e) = done
  all_follow (goes {a} h) = follows a.0 a.1 _ (all_follow h)

  -- From a rest, if it loads the listed jobs: `pollJobsToExecute`, going on alone, each answer being the
  -- one that the chain gives to its latest push and each time the clock's, comes to a rest, in exactly
  -- the state and with exactly the error that the poll as one function gives; and its steps are steps
  -- of the interleaved polls.
  pub poll_jobs_to_execute-Runs :
      (last : Option Thrown) (jobs : List Job)
      → t.results ≡ resting last
      → AreListed listed jobs
      → let run = poll_jobs_to_execute m o jobs t.shared in
        EndsIn (follow_on m o) (next_result m o jobs t.shared) (resting run.thrown, run.state)
        × Runs m o listed t (record t { shared = run.state; results = resting run.thrown })
  unfolding poll_jobs_to_execute
  poll_jobs_to_execute-Runs last jobs e h =
      let ends = runs_on m o jobs t.shared 0 0 in
      (
        ends,
        Runs-first
            (result (
              subst (λ p. ResultMove m o listed t.shared p (next_result m o jobs t.shared)) (sym e)
                (loaded jobs h)))
            (all_follow ends),
      )

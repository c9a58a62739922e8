-- ===== src/Interleaved/Ending.antt =====
-- How long a round of `pollJobsToExecute` may go on (lib/poller.js).
use wax_rng_oracle.Prelude.{
  ℕ, ◌+◌, ◌*◌, ◌≤◌, ◌<◌, String, ◌≡◌, not, ◌&&◌, Option, none, some, List, [], ◌∷◌, arith,
  Bool-cases, inl, inr, includes, text_eq, length,
}
use wax_rng_oracle.Dict.{lookup}
use wax_rng_oracle.Model.{Job}
use wax_rng_oracle.RngPusher.{
  RpcJson, no_error, no_detail, detail, Thrown, rpc, type_error, other, Pushed, sent, refused,
  silent, threw, refuse, setrand_refusals, markfailed_refusals, accepted,
}
use wax_rng_oracle.Storage.{Failure}
use wax_rng_oracle.Poller.{
  State, Member, Outside, count, acts_on, is_known_key_version, job_collision,
}
use wax_rng_oracle.Poller.SetPart.{message}
use wax_rng_oracle.Poller.Execute.{usable}
use wax_rng_oracle.Interleaved.Own.{known-is_known, unknown-is_known}
use wax_rng_oracle.Interleaved.Results.{
  Trouble, uncombined, crash, ResultPc, resting, sending, recalling, writing, marking, mark_posting,
  posting, Begun, passes, stops, sends, use_hash, log_hash, act, next_result, after_send, catch_rpc,
  catch_thrown, written, after_marking, ResultMove, loaded, not_loaded, answers, reads, writes,
  is_marked, mark_is_posted, is_posted,
}
use wax_rng_oracle.Interleaved.System.{
  System, part, result, delivery, cleans, clears, clears_delivered, monitors, Runs, done, later,
}

-- A bound on the waits that are left: at most six for each job.
abbrev pub waits_left : ResultPc → ℕ
waits_left (resting last) = 0
waits_left (sending signature job jobs) = 6 + 6 * length jobs
waits_left (recalling t job jobs found) = 5 + 6 * length jobs
waits_left (writing t job jobs) = 4 + 6 * length jobs
waits_left (marking jobs) = 3 + 6 * length jobs
waits_left (mark_posting jobs) = 2 + 6 * length jobs
waits_left (posting jobs) = 1 + 6 * length jobs

abbrev Within : ℕ → ResultPc × State → Type 0
Within n r = waits_left r.0 ≤ n

module _ (m : Member) (o : Outside) where
  act-Within :
      (job : Job) (jobs : List Job) (rest : ResultPc × State) (b : Begun) (s : State)
      → Within (6 * length jobs) rest
      → Within (6 * length (job ∷ jobs)) (act m job jobs rest b s)
  act-Within job jobs rest passes s h = omega (arith, h)
  act-Within job jobs rest (stops t) s h = omega arith
  act-Within job jobs rest (sends signature) s h = omega arith

  pub next_result-Within :
      (jobs : List Job) (s : State) → Within (6 * length jobs) (next_result m o jobs s)
  unfolding next_result
  next_result-Within [] s = omega arith
  next_result-Within (job ∷ jobs) s = elim (Bool-cases (acts_on m.active_key_version job.ver)) [
    | inl known ↦
        let logged = log_hash m o job (message o job) s in
        rw (known-is_known m job s known) (
          act-Within job jobs _ (use_hash m o job (message o job)) logged
            (next_result-Within jobs logged))
    | inr unknown ↦
        let s1 = (is_known_key_version m job s).1 in
        let h : waits_left (next_result m o jobs s1).0 ≤ 6 * length jobs =
          next_result-Within jobs s1 in
        rw (unknown-is_known m job s unknown) (omega (arith, h))
  ]

  after_send-Within :
      (signature : String) (job : Job) (jobs : List Job) (p : Pushed) (s : State)
      → Within (5 + 6 * length jobs) (after_send m o signature job jobs p s)
  after_send-Within signature job jobs (threw e) s = omega arith
  after_send-Within signature job jobs (sent id) s = omega (arith, next_result-Within jobs _)
  after_send-Within signature job jobs refused s = omega (arith, next_result-Within jobs _)
  after_send-Within signature job jobs silent s = omega (arith, next_result-Within jobs _)

  module _ (f : Failure) (jobs : List Job) (s : State) where
    collided-Within : Within (3 + 6 * length jobs) (next_result m o jobs (count job_collision s))
    collided-Within = omega (arith, next_result-Within jobs (count job_collision s))

    catch_rpc-Within :
        (signature : Option String) (j : RpcJson)
        → Within (3 + 6 * length jobs) (catch_rpc m o f jobs signature j s)
    catch_rpc-Within signature no_error = omega arith
    catch_rpc-Within none no_detail = omega arith
    catch_rpc-Within (some signature) no_detail = elim (Bool-cases (usable signature)) [
      | inl worth ↦ rw worth (omega arith)
      | inr idle ↦ rw idle (omega arith)
    ]
    catch_rpc-Within none (detail text) = elim (Bool-cases (includes text "no request found")) [
      | inl found ↦ rw found collided-Within
      | inr new ↦ rw new (omega arith)
    ]
    catch_rpc-Within (some signature) (detail text) =
        elim (Bool-cases (includes text "no request found")) [
          | inl found ↦ rw found collided-Within
          | inr new ↦ elim (Bool-cases (usable signature && not (text_eq text ""))) [
            | inl worth ↦ rw (new, worth) (omega arith)
            | inr idle ↦ rw (new, idle) (omega arith)
          ]
        ]

    catch_thrown-Within :
        (signature : Option String) (e : Thrown)
        → Within (3 + 6 * length jobs) (catch_thrown m o f jobs signature e s)
    catch_thrown-Within signature (rpc j) = catch_rpc-Within signature j
    catch_thrown-Within signature type_error = omega arith
    catch_thrown-Within signature (other e) = omega arith

  written-Within :
      (now : ℕ) (t : Trouble) (jobs : List Job) (found : Option Failure) (s : State)
      → Within (3 + 6 * length jobs) (written m o now t jobs found s)
  written-Within now uncombined jobs found s = omega arith
  written-Within now (crash signature e) jobs none s = omega arith
  written-Within now (crash signature e) jobs (some f) s = catch_thrown-Within f jobs s signature e

  after_marking-Within :
      (jobs : List Job) (p : Pushed) (s : State)
      → Within (2 + 6 * length jobs) (after_marking jobs p s)
  after_marking-Within jobs (threw e) s = omega arith
  after_marking-Within jobs (sent id) s = omega arith
  after_marking-Within jobs refused s = omega arith
  after_marking-Within jobs silent s = omega arith

  abbrev pub Waits : ResultPc → Type 0
  Waits (resting last) = ⊥
  Waits _ = Unit

  -- Every step of the poll from a wait within its round leaves fewer.
  ResultMove-shortens :
      {listed : List Job} {s : State} {p : ResultPc} {r : ResultPc × State}
      → ResultMove m o listed s p r
      → Waits p
      → waits_left r.0 < waits_left p
  ResultMove-shortens (loaded jobs h) w = absurd w
  ResultMove-shortens (not_loaded e) w = absurd w
  ResultMove-shortens {s} (answers {signature} {job} {jobs} a) w =
      omega (arith, after_send-Within signature job jobs (refuse setrand_refusals a) s)
  ResultMove-shortens (reads now) w = omega arith
  ResultMove-shortens {s} (writes {t} {job} {jobs} now) w =
      omega (arith, written-Within now t jobs (lookup job.id s.db.failures) s)
  ResultMove-shortens {s} (is_marked {jobs} a) w =
      omega (arith, after_marking-Within jobs (refuse markfailed_refusals a) s)
  ResultMove-shortens mark_is_posted w = omega arith
  ResultMove-shortens {s} (is_posted {jobs}) w = omega (arith, next_result-Within jobs s)

module _ (m : Member) (o : Outside) (listed : List Job) where
  -- The steps of `pollJobsToExecute` among those of a run.
  unfoldable pub result_steps : {t u : System} → Runs m o listed t u → ℕ
  result_steps done = 0
  result_steps (later r (result mv)) = 1 + result_steps r
  result_steps (later r (part mv)) = result_steps r
  result_steps (later r (delivery mv)) = result_steps r
  result_steps (later r (cleans mv)) = result_steps r
  result_steps (later r (clears mv)) = result_steps r
  result_steps (later r (clears_delivered mv)) = result_steps r
  result_steps (later r (monitors max_job_pending pending)) = result_steps r

  -- None of them starts a new round.
  unfoldable pub InRound : {t u : System} → Runs m o listed t u → Type 0
  InRound done = Unit
  InRound (later {u} r (result mv)) = Waits m o u.results × InRound r
  InRound (later r (part mv)) = InRound r
  InRound (later r (delivery mv)) = InRound r
  InRound (later r (cleans mv)) = InRound r
  InRound (later r (clears mv)) = InRound r
  InRound (later r (clears_delivered mv)) = InRound r
  InRound (later r (monitors max_job_pending pending)) = InRound r

  shortens :
      {t u : System} (r : Runs m o listed t u)
      → InRound r
      → result_steps r + waits_left u.results ≤ waits_left t.results
  unfolding result_steps InRound
  shortens done h = omega arith
  shortens (later r (result mv)) h = omega (arith, shortens r h.1, ResultMove-shortens m o mv h.0)
  shortens (later r (part mv)) h = shortens r h
  shortens (later r (delivery mv)) h = shortens r h
  shortens (later r (cleans mv)) h = shortens r h
  shortens (later r (clears mv)) h = shortens r h
  shortens (later r (clears_delivered mv)) h = shortens r h
  shortens (later r (monitors max_job_pending pending)) h = shortens r h

  goes_on :
      (s : State) (p : ResultPc)
      → Waits m o p
      → (next : ResultPc × State) × ResultMove m o listed s p next
  goes_on s (resting last) w = absurd w
  goes_on s (sending signature job jobs) w = (_, answers (accepted ""))
  goes_on s (recalling t job jobs found) w = (_, reads 0)
  goes_on s (writing t job jobs) w = (_, writes 0)
  goes_on s (marking jobs) w = (_, is_marked (accepted ""))
  goes_on s (mark_posting jobs) w = (_, mark_is_posted)
  goes_on s (posting jobs) w = (_, is_posted)

  -- After it has loaded its jobs, `pollJobsToExecute` takes at most six steps for each of them in its
  -- round, whatever the other polls do between them; and as long as the round is not over, it can go
  -- on: no state of the process or of another poll keeps it waiting.
  pub round-Ends :
      (jobs : List Job) (s : State) (t u : System) (r : Runs m o listed t u)
      → t.results ≡ (next_result m o jobs s).0
      → InRound r
      → (result_steps r ≤ 6 * length jobs)
        × (Waits m o u.results
            → (next : ResultPc × State) × ResultMove m o listed u.shared u.results next)
  round-Ends jobs s t u r e h =
      let start : waits_left t.results ≤ 6 * length jobs = rw e (next_result-Within m o jobs s) in
      (omega (arith, shortens r h, start), goes_on u.shared u.results)

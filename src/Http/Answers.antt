-- ===== src/Http/Answers.antt =====
-- With which status each request is answered (lib/routes/index.js, lib/controller, lib/middleware).
use wax_rng_oracle.Prelude.{
  ℕ, String, ◌≡◌, inl, inr, refl, Bool, true, false, ◌&&◌, Option, none, some, List, Bool-cases,
  if◌then◌else◌, Result, ok, threw, out_of_fuel, Error, eos_error, type_error, bad_index, ap, ◌>>=◌,
}
use wax_rng_oracle.Model.{Job}
use wax_rng_oracle.JobService.{first}
use wax_rng_oracle.Http.{
  Request, jobs_request, job_request, health_request, version_request, other_request, Server,
  Response, Body, job_body, jobs_body, error_handler, get_boot_check_status, get_status,
  invalid_parameter, thrown_by, answered, get_paged, get_jobs, get_job, respond,
}

-- Whether a request's values are accepted, if it matches a route.
abbrev pub is_accepted : (Option String → Bool) → Request → Bool
is_accepted is_int (jobs_request from limit) = is_int from && is_int limit
is_accepted is_int (job_request id) = is_int (some id)
is_accepted is_int _ = true

-- The status of what a read of the chain gives.
abbrev pub of_read {ℓ} : {A : Type ℓ} → Result A → Option ℕ
of_read (ok a) = some 200
of_read (threw e) = some 500
of_read out_of_fuel = none

-- The status of an accepted request.
abbrev pub expected : Server → Request → Option ℕ
expected v (jobs_request from limit) = of_read (get_paged v from limit)
expected v (job_request id) = of_read (v.find id)
expected v health_request = some (if v.eos && v.last_status.ok then 200 else 500)
expected v version_request = some 200
expected v other_request = some 404

abbrev pub status_of : Result Response → Option ℕ
status_of (ok r) = some r.status
status_of (threw e) = none
status_of out_of_fuel = none

invalid : (messages : List String) → (error_handler (invalid_parameter messages)).status ≡ 400
unfolding error_handler
invalid messages = refl

failed_read : (e : Error) → (error_handler (thrown_by e)).status ≡ 500
unfolding error_handler
failed_read eos_error = refl
failed_read type_error = refl
failed_read bad_index = refl

status-answered {ℓ} :
    {A : Type ℓ} (body : A → Body) (r : Result A) → status_of (answered body r) ≡ of_read r
status-answered body (ok a) = refl
status-answered body (threw e) = ap some (failed_read e)
status-answered body out_of_fuel = refl

module _ (is_int : Option String → Bool) where
  -- What a handler with values of the query or path answers.
  abbrev Judged : Bool → Option ℕ → (Server → Result Response) → Server → Type 0
  Judged accepted expected handler v =
      (status_of (handler v) ≡ (if accepted then expected else some 400))
      × (accepted ≡ false → (v' : Server) → handler v ≡ handler v')

  get_jobs-Judged :
      (v : Server) (from limit : Option String)
      → Judged
          (is_int from && is_int limit)
          (of_read (get_paged v from limit))
          (λ w. get_jobs is_int w from limit)
          v
  unfolding get_jobs
  get_jobs-Judged v from limit = elim (Bool-cases (is_int from)) [
    | inl a ↦ elim (Bool-cases (is_int limit)) [
      | inl b ↦ rw (a, b) (status-answered jobs_body (get_paged v from limit), λ h. absurd (cc))
      | inr b ↦ rw (a, b) (ap some (invalid _), λ h v'. refl)
    ]
    | inr a ↦ rw a (ap some (invalid _), λ h v'. refl)
  ]

  get_job-Judged :
      (v : Server) (id : String)
      → Judged (is_int (some id)) (of_read (v.find id)) (λ w. get_job is_int w id) v
  unfolding get_job
  get_job-Judged v id = elim (Bool-cases (is_int (some id))) [
    | inl a ↦ rw a (read (v.find id), λ h. absurd (cc))
    | inr a ↦ rw a (ap some (invalid _), λ h v'. refl)
  ]
    where
      read :
          (rows : Result (List Job))
          → status_of (answered job_body (rows >>= λ found. ok (first found))) ≡ of_read rows
      read (ok rows) = refl
      read (threw e) = ap some (failed_read e)
      read out_of_fuel = refl

  -- A request without a route is answered with 404. One whose values are no natural numbers, as the
  -- validator judges them, is answered with 400, and the answer does not depend on the node or on
  -- anything else of the server. Any other request for jobs is answered with 200 if the node can be
  -- read and with 500 if not; the health check with 200 if the node answers and the boot checks
  -- ended with ok and with 500 if not; and the version with 200.
  pub respond-Judged :
      (v : Server) (r : Request)
      → (status_of (respond is_int v r) ≡ (if is_accepted is_int r then expected v r else some 400))
        × (is_accepted is_int r ≡ false → (v' : Server) → respond is_int v r ≡ respond is_int v' r)
  unfolding respond get_status get_boot_check_status error_handler
  respond-Judged v (jobs_request from limit) = get_jobs-Judged v from limit
  respond-Judged v (job_request id) = get_job-Judged v id
  respond-Judged v health_request = (refl, λ h. absurd (cc))
  respond-Judged v version_request = (refl, λ h. absurd (cc))
  respond-Judged v other_request = (refl, λ h. absurd (cc))

-- ===== src/Http.antt =====
-- The HTTP interface: lib/app.js, lib/routes/index.js, lib/controller and lib/middleware. Express
-- matches a request to a route, and express-validator's `isInt({ min: 0 })` judges a value: `is_int`
-- is a parameter. The pages of the user interface are left out.
pub mod Answers
pub mod Health
use wax_rng_oracle.Prelude.{
  ℕ, String, Bool, true, false, not, ◌&&◌, Option, none, some, List, [], ◌∷◌, ◌++◌, ◌==◌,
  if◌then◌else◌, text_eq, Result, ok, threw, out_of_fuel, ◌>>=◌,
}
use wax_rng_oracle.Prelude
use wax_rng_oracle.Model.{Job}
use wax_rng_oracle.BootChecks.{Status}
use wax_rng_oracle.JobService.{first}
use wax_rng_oracle.ShareKey.Service.{Parsed, not_a_number, parse_int}

-- A request by the route that it matches.
pub data Request : Type 0 where
  -- `GET /jobs` with `from` and `limit` of its query
  jobs_request : (from limit : Option String) → Request
  -- `GET /jobs/:id`
  job_request : String → Request
  -- `GET /health-check`
  health_request : Request
  -- `GET /version`
  version_request : Request
  -- no route
  other_request : Request

-- What the error handler reads of an error; the message of an `InvalidParameterError` joins its texts.
pub record HttpError : Type 0 where
  pub name : String
  pub messages : List String
  pub status : Option ℕ

-- `getBootCheckStatus`
pub record BootCheck : Type 0 where
  pub ran : Bool
  pub ok : Bool
  pub rpc_reachable : Bool
  pub active_key_found : Bool
  pub oracle_index_matches : Bool
  pub share_consistent : Bool
  pub active_ver : Option ℕ

pub record HealthBody : Type 0 where
  pub healthy : Bool
  pub eos : Bool
  pub boot_check : Option BootCheck

pub data Body : Type 0 where
  -- `res.json(undefined)` for a job that is not there
  job_body : Option Job → Body
  jobs_body : List Job → Body
  health_body : HealthBody → Body
  version_body : String → Body
  errors_body : HttpError → Body

pub record Response : Type 0 where
  pub status : ℕ
  pub body : Body

unfoldable pub get_boot_check_status : Status → BootCheck
get_boot_check_status last = record {
  ran = last.ran;
  ok = last.ok;
  rpc_reachable = last.rpc_reachable;
  active_key_found = last.active_key_found;
  oracle_index_matches = last.oracle_index_matches;
  share_consistent = last.share_consistent;
  active_ver = last.active_ver;
}

-- `healthy && bootCheck.ok === true`, if the controller was given `getBootCheckStatus`
abbrev pub checked_body : Bool → Option BootCheck → HealthBody
checked_body eos none = record { healthy = eos; eos = eos; boot_check = none }
checked_body eos (some boot) = record {
  healthy = eos && boot.ok;
  eos = eos;
  boot_check = some boot;
}

-- `getStatus`, where `eos` says whether `get_info` returned.
unfoldable pub get_status : Bool → Option BootCheck → Response
get_status eos boot =
    let body = checked_body eos boot in
    record { status = if body.healthy then 200 else 500; body = health_body body }

abbrev pub not_found : HttpError
not_found = record { name = "NotFoundError"; messages = "Not Found" ∷ []; status = some 404 }

-- `errorParser`
unfoldable pub error_parser : HttpError → HttpError
error_parser e =
    if text_eq e.name "InvalidParameterError" then record e { status = some 400 } else e

abbrev is_not_found : Option ℕ → Bool
is_not_found none = false
is_not_found (some status) = status == 404

-- `err.status || 500`
abbrev or_500 : Option ℕ → ℕ
or_500 none = 500
or_500 (some status) = if status == 0 then 500 else status

unfoldable pub error_handler : HttpError → Response
unfolding error_parser
error_handler e =
    let e' = if is_not_found e.status then e else error_parser e in
    record { status = or_500 e'.status; body = errors_body e' }

abbrev pub invalid_parameter : List String → HttpError
invalid_parameter messages = record {
  name = "InvalidParameterError";
  messages = messages;
  status = none;
}

-- What a read of the chain throws has no status.
abbrev pub thrown_by : Prelude.Error → HttpError
thrown_by Prelude.eos_error = record { name = "EosError"; messages = []; status = none }
thrown_by Prelude.type_error = record { name = "TypeError"; messages = []; status = none }
thrown_by Prelude.bad_index = record { name = "RangeError"; messages = []; status = none }

module _ (is_int : Option String → Bool) where
  abbrev pub complaint : String → Option String → List String
  complaint message value = if is_int value then [] else message ∷ []

  -- The `check`s of the routes, in their order.
  abbrev pub jobs_complaints : Option String → Option String → List String
  jobs_complaints from limit =
      complaint "from must be numeric value" from ++ complaint "limit must be numeric value" limit

  abbrev pub job_complaints : String → List String
  job_complaints id = complaint "id must be numeric value" (some id)

-- A handler's `next(err)`, or `res.json` with status 200.
abbrev pub answered {ℓ} : {A : Type ℓ} → (A → Body) → Result A → Result Response
answered body (ok a) = ok (record { status = 200; body = body a })
answered body (threw e) = ok (error_handler (thrown_by e))
answered body out_of_fuel = out_of_fuel

-- `getJobsPaged` and the rows of one id, as the node gives them; `get_info`; the remembered status;
-- and the version of package.json.
pub record Server : Type 0 where
  pub paged : Parsed → Parsed → Result (List Job)
  pub find : String → Result (List Job)
  pub eos : Bool
  pub last_status : Status
  pub version : String

-- `parseInt` of a value that was accepted; without a radix it reads such a text in base 10.
abbrev pub get_paged : Server → Option String → Option String → Result (List Job)
get_paged v (some from) (some limit) = v.paged (parse_int from) (parse_int limit)
get_paged v none (some limit) = v.paged not_a_number (parse_int limit)
get_paged v (some from) none = v.paged (parse_int from) not_a_number
get_paged v none none = v.paged not_a_number not_a_number

-- `InvalidParameterError` if there are complaints, and the rest of the handler if there are none.
abbrev pub unless_complaints : List String → Result Response → Result Response
unless_complaints [] handled = handled
unless_complaints (c ∷ cs) handled = ok (error_handler (invalid_parameter (c ∷ cs)))

unfoldable pub get_jobs :
    (Option String → Bool) → Server → Option String → Option String → Result Response
get_jobs is_int v from limit =
    unless_complaints (jobs_complaints is_int from limit)
      (answered jobs_body (get_paged v from limit))

unfoldable pub get_job : (Option String → Bool) → Server → String → Result Response
get_job is_int v id =
    unless_complaints (job_complaints is_int id)
      (answered job_body (do rows ← v.find id; ok (first rows)))

-- The server with the routes, `notFoundHandler` and `errorHandler`.
unfoldable pub respond : (Option String → Bool) → Server → Request → Result Response
respond is_int v (jobs_request from limit) = get_jobs is_int v from limit
respond is_int v (job_request id) = get_job is_int v id
respond is_int v health_request = ok (get_status v.eos (some (get_boot_check_status v.last_status)))
respond is_int v version_request = ok (record { status = 200; body = version_body v.version })
respond is_int v other_request = ok (error_handler not_found)

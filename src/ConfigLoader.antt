-- ===== src/ConfigLoader.antt =====
-- lib/config/configLoader.js: which of two libraries gives the configuration. What `require` and the
-- libraries do is an argument of each call.
pub mod Once
use wax_rng_oracle.Prelude.{
  String, Bool, true, false, not, ◌&&◌, ◌||◌, Option, none, some, List, [], ◌∷◌, if◌then◌else◌,
  includes, text_eq, trim,
}

-- The environment variables that only a deployment with secrets has.
pub record Environment : Type 0 where
  pub secrets_manager_secret_id : Option String
  pub encrypted_keys : Option String
  pub wax_config_require_resolution : Option String

-- What `require` throws: the code and the message of the error.
pub record Failed : Type 0 where
  pub code : Option String
  pub message : String

-- What a call of a library gives.
pub data Given (C : Type 0) : Type 0 where
  gives : C → Given C
  fails : Failed → Given C

-- What `require('@waxio/wax-config')` does: it throws, or there is its `loadConfig`.
pub data Required (C : Type 0) : Type 0 where
  missing : Failed → Required C
  there : Given C → Required C

-- `(text || '').trim()`
abbrev pub is_set : Option String → Bool
is_set none = false
is_set (some t) = not (text_eq (trim t) "")

unfoldable pub deployment_expects_secrets : Environment → Bool
deployment_expects_secrets env =
    is_set env.secrets_manager_secret_id
    || (is_set env.encrypted_keys || is_set env.wax_config_require_resolution)

abbrev is_code : String → Option String → Bool
is_code code none = false
is_code code (some c) = text_eq c code

unfoldable pub is_wax_config_missing : Failed → Bool
is_wax_config_missing e =
    is_code "MODULE_NOT_FOUND" e.code && includes e.message "'@waxio/wax-config'"

-- How a call of `loadConfig` ends: with the configuration, with what a library threw, or with its own
-- error for a deployment that expects secrets.
pub data Loaded (C : Type 0) : Type 0 where
  loaded : C → Loaded C
  rethrown : Failed → Loaded C
  refused : Loaded C

-- What is there at each of several calls.
abbrev pub Calls : Type 0 → Type 0
Calls C = List (Environment × (Required C × Given C))

module _ {C : Type 0} where
  -- `configInstance` is set only by a call that returns.
  abbrev pub keep_instance : Given C → Loaded C × Option C
  keep_instance (gives c) = (loaded c, some c)
  keep_instance (fails e) = (rethrown e, none)

  abbrev pub require_either : Environment → Required C → Given C → Loaded C × Option C
  require_either env (missing e) plain =
      if not (is_wax_config_missing e)
      then (rethrown e, none)
      else if deployment_expects_secrets env
      then (refused, none)
      else keep_instance plain
  require_either env (there wax) plain = keep_instance wax

  -- From `configInstance`, with what is there at the call.
  unfoldable pub load_config : Environment → Required C → Given C → Option C → Loaded C × Option C
  load_config env wax plain (some c) = (loaded c, some c)
  load_config env wax plain none = require_either env wax plain

  -- What calls one after another give, each with what is there at that time.
  unfoldable pub load_all : Calls C → Option C → List (Loaded C)
  load_all [] instance_now = []
  load_all ((env, (wax, plain)) ∷ calls) instance_now =
      let (result, next) = load_config env wax plain instance_now in result ∷ load_all calls next

-- ===== src/BootChecks/Rows.antt =====
-- The reads of lib/bootChecks.js: the active key and the index of the member.
use wax_rng_oracle.Prelude.{
  ℕ, String, Bool, true, false, not, Option, none, some, leb, ◌==◌, text_eq,
}

-- The first row of a read: the read failed, there is none, or there is one.
pub data Row {ℓ} (R : Type ℓ) : Type ℓ where
  unreachable no_row : Row R
  row : R → Row R

-- Rows of `config.a`, `pubkeys` and `oracles.a`. A number is the field as `Number` reads it, `none` if
-- that is no natural number; a modulus or an exponent is `none` if it is no string.
pub record ConfigRow : Type 0 where
  pub name : String
  pub value : Option ℕ

pub record KeyRow : Type 0 where
  pub ver : Option ℕ
  pub retired : Bool
  pub modulus : Option String
  pub exponent : Option String

pub record OracleRow : Type 0 where
  pub oracle : String
  pub oracle_index : Option ℕ

-- `getSingleRow` of the three tables, by the key.
pub record Rpc : Type 0 where
  pub config_row : String → Row ConfigRow
  pub key_row : ℕ → Row KeyRow
  pub oracle_row : String → Row OracleRow

pub record PublicKey : Type 0 where
  pub ver : ℕ
  pub modulus : String
  pub exponent : String

-- The codes of a `BootCheckError`.
pub data Code : Type 0 where
  active_version_missing active_version_invalid active_key_missing active_key_retired : Code
  active_key_malformed oracle_not_registered oracle_index_malformed : Code

-- Which errors are made with `retryable: true`.
unfoldable pub retryable : Code → Bool
retryable active_version_missing = true
retryable active_version_invalid = false
retryable active_key_missing = true
retryable active_key_retired = false
retryable active_key_malformed = false
retryable oracle_not_registered = true
retryable oracle_index_malformed = false

pub data Lost : Type 0 where
  rpc_error : Lost
  boot : Code → Lost

pub data Fetched {ℓ} (A : Type ℓ) : Type ℓ where
  got : A → Fetched A
  lost : Lost → Fetched A

-- A guard that throws a `BootCheckError`.
abbrev pub require {ℓ} : {A : Type ℓ} → Bool → Code → Fetched A → Fetched A
require true c f = f
require false c f = lost (boot c)

abbrev pub is_number : ℕ → Option ℕ → Bool
is_number n none = false
is_number n (some m) = m == n

abbrev pub key_values : ℕ → Option String → Option String → Fetched PublicKey
key_values ver (some n) (some e) = got (record { ver = ver; modulus = n; exponent = e })
key_values ver _ _ = lost (boot active_key_malformed)

abbrev pub key_of_row : ℕ → Row KeyRow → Fetched PublicKey
key_of_row ver unreachable = lost rpc_error
key_of_row ver no_row = lost (boot active_key_missing)
key_of_row ver (row r) =
    require (is_number ver r.ver) active_key_missing
      (require (not r.retired) active_key_retired (key_values ver r.modulus r.exponent))

abbrev pub key_of_version : Rpc → Option ℕ → Fetched PublicKey
key_of_version rpc none = lost (boot active_version_invalid)
key_of_version rpc (some ver) =
    require (leb 1 ver) active_version_invalid (key_of_row ver (rpc.key_row ver))

abbrev pub key_of_config : Rpc → String → Row ConfigRow → Fetched PublicKey
key_of_config rpc key unreachable = lost rpc_error
key_of_config rpc key no_row = lost (boot active_version_missing)
key_of_config rpc key (row r) =
    require (text_eq r.name key) active_version_missing (key_of_version rpc r.value)

-- With the text of `nameToUint64('activever')`.
unfoldable pub fetch_active_public_key : Rpc → String → Fetched PublicKey
fetch_active_public_key rpc key = key_of_config rpc key (rpc.config_row key)

abbrev pub index_value : Option ℕ → Fetched ℕ
index_value none = lost (boot oracle_index_malformed)
index_value (some i) = require (leb 1 i) oracle_index_malformed (got i)

abbrev pub index_of_row : String → Row OracleRow → Fetched ℕ
index_of_row owner unreachable = lost rpc_error
index_of_row owner no_row = lost (boot oracle_not_registered)
index_of_row owner (row r) =
    require (text_eq r.oracle owner) oracle_not_registered (index_value r.oracle_index)

unfoldable pub fetch_oracle_index : Rpc → String → Fetched ℕ
fetch_oracle_index rpc owner = index_of_row owner (rpc.oracle_row owner)

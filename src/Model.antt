-- ===== src/Model.antt =====
-- The rows of the chain's tables as the RPC node returns them (`reqs`, `undelivered1`), and the
-- values of a dynamic field of such a row.
use wax_rng_oracle.Prelude.{ℕ, String, Option, List, decimal}

-- A field of a JSON row. Chain integers are unsigned; `other` is any other value (null, a
-- fraction, an object) with the text that a template literal shows for it.
pub data Value : Type 0 where
  undefined : Value
  integer : ℕ → Value
  text : String → Value
  other : String → Value

-- `${value}`
unfoldable pub show : Value → String
show undefined = "undefined"
show (integer n) = decimal n
show (text s) = s
show (other s) = s

-- An element of `reqs.parts`.
pub record Part : Type 0 where
  pub idx : Value
  pub sig_i : Value

-- A row of `reqs`. An absent seed or dapp is the empty text, which is as falsy.
pub record Job : Type 0 where
  pub id : ℕ
  pub seed : String
  pub dapp : String
  pub nonce : Option ℕ
  pub ver : ℕ
  pub assoc_id : ℕ
  pub parts : List Part

-- A row of `undelivered1`.
pub record Undelivered : Type 0 where
  pub request_id : ℕ
  pub dapp : String
  pub assoc_id : ℕ
  pub error_message : String

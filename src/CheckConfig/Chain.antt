-- ===== src/CheckConfig/Chain.antt =====
-- `checkChain` of lib/checkConfig.js, from the answers of the node.
pub mod Once
pub mod Read
use wax_rng_oracle.Prelude.{
  ℕ, ◌+◌, String, Bool, true, false, not, ◌&&◌, ◌||◌, Option, none, some, List, [], ◌∷◌, ◌++◌, ltb,
  leb, ◌==◌, text_eq, if◌then◌else◌, any, length,
}
use wax_rng_oracle.BootChecks.Rows.{
  Rpc, PublicKey, Code, oracle_not_registered, retryable, Lost, rpc_error, boot, Fetched, got, lost,
  fetch_active_public_key, fetch_oracle_index,
}
use wax_rng_oracle.CheckConfig.{
  Name, chain_rpc, chain_id, chain_active_key, chain_oracle_row, account_permission,
  account_linkauth, account_resources, Status, ok, fail, warn, skip, Entry, entry, Config, str,
}
use wax_rng_oracle.CheckConfig.Shape.{lower, DerivedKey}

-- `get_info`. The age of the head block is in seconds, `none` if the time does not parse, and 0 if it
-- is negative.
pub record Info : Type 0 where
  pub head_age : Option ℕ
  pub chain_id : Option String

-- A key of a permission, its weight as `Number` reads it.
pub record WeightedKey : Type 0 where
  pub key : String
  pub weight : Option ℕ

pub record Permission : Type 0 where
  pub perm_name : String
  pub keys : List WeightedKey
  pub accounts : List String
  pub threshold : Option ℕ

-- `Number(limit.available)`; a negative number stands for an unlimited account.
pub data Available : Type 0 where
  unlimited unknown : Available
  units : ℕ → Available

pub record Account : Type 0 where
  pub permissions : List Permission
  pub cpu : Available
  pub net : Available

-- The node; `none` where a call throws.
pub record Node : Type 0 where
  pub get_info : Option Info
  pub rows : Rpc
  pub get_account : String → Option Account

-- `{ onChain, oracleIndex }`
pub record ChainState : Type 0 where
  pub on_chain : Option PublicKey
  pub oracle_index : Option ℕ

abbrev pub nothing_read : ChainState
nothing_read = record { on_chain = none; oracle_index = none }

abbrev pub is_lagging : Option ℕ → Bool
is_lagging none = true
is_lagging (some age) = ltb 30 age

abbrev same_codes : List ℕ → List ℕ → Bool
same_codes [] [] = true
same_codes [] (d ∷ ds) = false
same_codes (c ∷ cs) [] = false
same_codes (c ∷ cs) (d ∷ ds) = c == d && same_codes cs ds

abbrev pub check_rpc : Bool → Entry
check_rpc lagging = if lagging then entry chain_rpc warn else entry chain_rpc ok

unfoldable pub check_chain_id : Config → Info → Entry
unfolding str
check_chain_id c i =
    if not (same_codes (lower (str i.chain_id)) (lower (str c.chain_id)))
    then entry chain_id fail
    else entry chain_id ok

abbrev pub check_active_key : Bool → Fetched PublicKey → Entry
check_active_key lagging (got k) = entry chain_active_key ok
check_active_key lagging (lost rpc_error) = entry chain_active_key fail
check_active_key lagging (lost (boot code)) =
    if retryable code && lagging then entry chain_active_key warn else entry chain_active_key fail

-- `x === Number(shareIndex)`
abbrev pub is_index : ℕ → Option ℕ → Bool
is_index i none = false
is_index i (some n) = i == n

abbrev pub check_oracle_row : Option ℕ → Fetched ℕ → Entry
check_oracle_row share_index (got i) =
    if not (is_index i share_index) then entry chain_oracle_row fail else entry chain_oracle_row ok
check_oracle_row share_index (lost (boot oracle_not_registered)) = entry chain_oracle_row warn
check_oracle_row share_index (lost _) = entry chain_oracle_row fail

find_permission : String → List Permission → Option Permission
find_permission auth [] = none
find_permission auth (p ∷ ps) =
    let later = find_permission auth ps in if text_eq p.perm_name auth then some p else later

-- The first key that is the same after `normalisePublicKey`.
find_key : (String → String) → String → List WeightedKey → Option WeightedKey
find_key normalise k1 [] = none
find_key normalise k1 (k ∷ ks) =
    let later = find_key normalise k1 ks in if text_eq (normalise k.key) k1 then some k else later

-- `Number(threshold) || 1`
abbrev or_one : Option ℕ → ℕ
or_one none = 1
or_one (some n) = if n == 0 then 1 else n

abbrev too_light : Option ℕ → ℕ → Bool
too_light none threshold = false
too_light (some w) threshold = ltb w threshold

abbrev permission_of_key : Permission → Option WeightedKey → Entry
permission_of_key p none =
    if not (length p.accounts == 0)
    then entry account_permission warn
    else entry account_permission fail
permission_of_key p (some mine) =
    if too_light mine.weight (or_one p.threshold)
    then entry account_permission warn
    else entry account_permission ok

abbrev permission_entry : (String → String) → Option DerivedKey → Option Permission → Entry
permission_entry normalise pub_key none = entry account_permission fail
permission_entry normalise none (some p) = entry account_permission skip
permission_entry normalise (some k) (some p) = permission_of_key p (find_key normalise k.k1 p.keys)

unfoldable pub check_permission : (String → String) → Config → Option DerivedKey → Account → Entry
unfolding find_permission find_key str
check_permission normalise c key a =
    permission_entry normalise key (find_permission (str c.auth) a.permissions)

abbrev is_enough : ℕ → Available → Bool
is_enough least unlimited = true
is_enough least unknown = false
is_enough least (units n) = leb least n

unfoldable pub check_resources : Account → Entry
check_resources a =
    if not (is_enough 1000000 a.cpu) || not (is_enough 10000 a.net)
    then entry account_resources warn
    else entry account_resources ok

abbrev pub check_account :
    (String → String) → Config → Option DerivedKey → Option Account → List Entry
check_account normalise c key none =
    entry account_permission fail ∷ entry account_resources skip ∷ []
check_account normalise c key (some a) =
    check_permission normalise c key a ∷ entry account_linkauth skip ∷ check_resources a ∷ []

abbrev pub key_read : Fetched PublicKey → Option PublicKey
key_read (got k) = some k
key_read (lost e) = none

abbrev pub index_read : Fetched ℕ → Option ℕ
index_read (got i) = some i
index_read (lost e) = none

abbrev pub check_reachable :
    (String → String) → String → Config → Node → Option DerivedKey → Info → List Entry × ChainState
check_reachable normalise version_key c node key info =
    let lagging = is_lagging info.head_age in
    let on_chain = fetch_active_public_key node.rows version_key in
    let index = fetch_oracle_index node.rows (str c.node_owner) in
    (
      check_rpc lagging
          ∷ check_chain_id c info
          ∷ check_active_key lagging on_chain
          ∷ check_oracle_row c.share_index index
          ∷ check_account normalise c key (node.get_account (str c.node_owner)),
      record { on_chain = key_read on_chain; oracle_index = index_read index },
    )

abbrev pub check_info :
    (String → String)
    → String
    → Config
    → Node
    → Option DerivedKey
    → Option Info
    → List Entry × ChainState
check_info normalise version_key c node key none = (
  entry chain_rpc fail
      ∷ entry chain_id skip
      ∷ entry chain_active_key skip
      ∷ entry chain_oracle_row skip
      ∷ entry account_permission skip
      ∷ entry account_resources skip
      ∷ [],
  nothing_read,
)
check_info normalise version_key c node key (some info) =
    check_reachable normalise version_key c node key info

-- With `normalisePublicKey` and the text of `nameToUint64('activever')`: the checks and the state.
unfoldable pub check_chain :
    (String → String) → String → Config → Node → Option DerivedKey → List Entry × ChainState
unfolding check_chain_id check_permission check_resources
check_chain normalise version_key c node key =
    check_info normalise version_key c node key node.get_info

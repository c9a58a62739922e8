-- ===== src/CheckConfig/Chain/Once.antt =====
-- What `checkChain` of lib/checkConfig.js reports by name.
use wax_rng_oracle.Prelude.{
  ℕ, String, ◌≡◌, refl, Bool, true, false, ◌&&◌, Option, none, some, List, [], ◌∷◌, if◌then◌else◌,
  map,
}
use wax_rng_oracle.BootChecks.Rows.{
  PublicKey, rpc_error, boot, Fetched, got, lost, oracle_not_registered, active_version_missing,
  active_version_invalid, active_key_missing, active_key_retired, active_key_malformed,
  oracle_index_malformed, fetch_active_public_key, fetch_oracle_index,
}
use wax_rng_oracle.CheckConfig.{
  Name, chain_rpc, chain_id, chain_active_key, chain_oracle_row, account_permission,
  account_linkauth, account_resources, Status, ok, fail, warn, entry, Config, str,
}
use wax_rng_oracle.CheckConfig.Shape.{DerivedKey}
use wax_rng_oracle.CheckConfig.Chain.{
  Info, WeightedKey, Permission, Account, Node, is_lagging, check_rpc, check_chain_id,
  check_active_key, check_oracle_row, check_permission, permission_entry, permission_of_key,
  check_resources, check_account, check_info, check_chain,
}

if_name : (b : Bool) (n : Name) (s t : Status) → (if b then entry n s else entry n t).name ≡ n
if_name true n s t = refl
if_name false n s t = refl

pub name-check_rpc : (b : Bool) → (check_rpc b).name ≡ chain_rpc
name-check_rpc b = if_name b chain_rpc warn ok

pub name-check_chain_id : (c : Config) (i : Info) → (check_chain_id c i).name ≡ chain_id
unfolding check_chain_id
name-check_chain_id c i = if_name _ chain_id fail ok

pub name-check_active_key :
    (lagging : Bool) (k : Fetched PublicKey) → (check_active_key lagging k).name ≡ chain_active_key
name-check_active_key lagging (got k) = refl
name-check_active_key lagging (lost rpc_error) = refl
name-check_active_key lagging (lost (boot code)) = if_name _ chain_active_key warn fail

pub name-check_oracle_row :
    (n : Option ℕ) (i : Fetched ℕ) → (check_oracle_row n i).name ≡ chain_oracle_row
name-check_oracle_row n (got i) = if_name _ chain_oracle_row fail ok
name-check_oracle_row n (lost rpc_error) = refl
name-check_oracle_row n (lost (boot oracle_not_registered)) = refl
name-check_oracle_row n (lost (boot active_version_missing)) = refl
name-check_oracle_row n (lost (boot active_version_invalid)) = refl
name-check_oracle_row n (lost (boot active_key_missing)) = refl
name-check_oracle_row n (lost (boot active_key_retired)) = refl
name-check_oracle_row n (lost (boot active_key_malformed)) = refl
name-check_oracle_row n (lost (boot oracle_index_malformed)) = refl

key_name :
    (p : Permission) (k : Option WeightedKey) → (permission_of_key p k).name ≡ account_permission
key_name p none = if_name _ account_permission warn fail
key_name p (some mine) = if_name _ account_permission warn ok

permission_name_of :
    (normalise : String → String) (k : Option DerivedKey) (p : Option Permission)
    → (permission_entry normalise k p).name ≡ account_permission
permission_name_of normalise k none = refl
permission_name_of normalise none (some p) = refl
permission_name_of normalise (some k) (some p) = key_name p _

pub name-check_permission :
    (normalise : String → String) (c : Config) (k : Option DerivedKey) (a : Account)
    → (check_permission normalise c k a).name ≡ account_permission
unfolding check_permission
name-check_permission normalise c k a = permission_name_of normalise k _

pub name-check_resources : (a : Account) → (check_resources a).name ≡ account_resources
unfolding check_resources
name-check_resources a = if_name _ account_resources warn ok

-- The names that `checkChain` reports; the account's links are named when the account was read.
abbrev chain_names : Bool → List Name
chain_names true =
    chain_rpc ∷ chain_id ∷ chain_active_key ∷ chain_oracle_row ∷ account_permission
    ∷ account_linkauth ∷ account_resources ∷ []
chain_names false =
    chain_rpc ∷ chain_id ∷ chain_active_key ∷ chain_oracle_row ∷ account_permission
    ∷ account_resources ∷ []

abbrev is_there {ℓ} : {A : Type ℓ} → Option A → Bool
is_there none = false
is_there (some a) = true

-- The node answered and knows the account.
abbrev knows_account : Node → String → Bool
knows_account node owner = is_there node.get_info && is_there (node.get_account owner)

account_part :
    (normalise : String → String) (c : Config) (k : Option DerivedKey) (a : Option Account)
    → chain_rpc
        ∷ chain_id
        ∷ chain_active_key
        ∷ chain_oracle_row
        ∷ map (λ e. e.name) (check_account normalise c k a)
      ≡ chain_names (is_there a)
account_part normalise c k none = refl
account_part normalise c k (some a) =
    rw (name-check_permission normalise c k a, name-check_resources a) refl

info_part :
    (normalise : String → String) (version_key : String) (c : Config) (node : Node)
    (k : Option DerivedKey) (i : Option Info)
    → map (λ e. e.name) (check_info normalise version_key c node k i).0
      ≡ chain_names (is_there i && is_there (node.get_account (str c.node_owner)))
info_part normalise version_key c node k none = refl
info_part normalise version_key c node k (some i) =
    rw
      (
        name-check_rpc (is_lagging i.head_age),
        name-check_chain_id c i,
        name-check_active_key (is_lagging i.head_age)
            (fetch_active_public_key node.rows version_key),
        name-check_oracle_row c.share_index (fetch_oracle_index node.rows (str c.node_owner)),
      )
      (account_part normalise c k (node.get_account (str c.node_owner)))

-- Whatever the node answers or fails to answer, no check of the chain is passed over: each of the six is
-- reported once, in one order, and the account's links besides where the account could be read.
check_chain-names :
    (normalise : String → String) (version_key : String) (c : Config) (node : Node)
    (k : Option DerivedKey)
    → map (λ e. e.name) (check_chain normalise version_key c node k).0
      ≡ chain_names (knows_account node (str c.node_owner))
unfolding check_chain
check_chain-names normalise version_key c node k =
    info_part normalise version_key c node k node.get_info

-- ===== src/CheckConfig.antt =====
-- lib/checkConfig.js: the dry run of a member's configuration and host. A report is the list of its
-- checks by name and status; the text of a detail is left out.
pub mod Shape
pub mod Chain
pub mod Share
pub mod Agreement
use wax_rng_oracle.Prelude.{
  ℕ, String, Bool, true, false, not, ◌&&◌, ◌||◌, Option, none, some, List, [], ◌∷◌, ◌++◌, ◌==◌,
  text_eq, if◌then◌else◌, any, keep, length, trim,
}
use wax_rng_oracle.ShareKey.Service.{ShareConfig}

pub data Name : Type 0 where
  node_env chain_id_shape api_url accounts permission_name max_cpu share_params db_file : Name
  express_port metrics_port slack_webhook cluster_mode read_only_mode signing_key : Name
  chain_rpc chain_id chain_active_key chain_oracle_row : Name
  account_permission account_linkauth account_resources : Name
  share_configured share_parses share_consistent : Name

pub data Status : Type 0 where
  ok fail warn skip : Status

pub record Entry : Type 0 where
  pub name : Name
  pub status : Status

abbrev pub entry : Name → Status → Entry
entry n s = record { name = n; status = s }

-- A number for each name and each status, to compare them by.
abbrev pub number_of : Name → ℕ
number_of node_env = 0
number_of chain_id_shape = 1
number_of api_url = 2
number_of accounts = 3
number_of permission_name = 4
number_of max_cpu = 5
number_of share_params = 6
number_of db_file = 7
number_of express_port = 8
number_of metrics_port = 9
number_of slack_webhook = 10
number_of cluster_mode = 11
number_of read_only_mode = 12
number_of signing_key = 13
number_of chain_rpc = 14
number_of chain_id = 15
number_of chain_active_key = 16
number_of chain_oracle_row = 17
number_of account_permission = 18
number_of account_linkauth = 19
number_of account_resources = 20
number_of share_configured = 21
number_of share_parses = 22
number_of share_consistent = 23

abbrev pub rank : Status → ℕ
rank ok = 0
rank fail = 1
rank warn = 2
rank skip = 3

abbrev pub has_status : Status → Entry → Bool
has_status s e = rank e.status == rank s

-- A check of the name with the status.
abbrev pub has : Name → Status → List Entry → Bool
has n s report = any (λ e. number_of e.name == number_of n && has_status s e) report

-- `get summary`, of one status.
unfoldable pub summary : Status → List Entry → ℕ
summary s report = length (keep (has_status s) report)

unfoldable pub passed : List Entry → Bool
unfolding summary
passed report = summary fail report == 0

-- A setting that is read by `isTrue`.
pub data Setting : Type 0 where
  absent : Setting
  boolean : Bool → Setting
  text_setting : String → Setting

-- `isTrue` of lib/config/utils.js
unfoldable pub is_true : Setting → Bool
is_true absent = false
is_true (boolean b) = b
is_true (text_setting t) =
    not (text_eq t "false" || (text_eq t "0" || (text_eq t "null" || text_eq t "undefined")))

-- What the checks read of the configuration. A number is the value as `Number` reads it, `none` if
-- that is no natural number.
pub record Config : Type 0 where
  pub chain_id : Option String
  pub api_url : Option String
  pub node_owner : Option String
  pub contract_name : Option String
  pub auth : Option String
  pub private_key : Option String
  pub db_file : Option String
  pub slack_webhook : Option String
  pub max_cpu : Option ℕ
  pub threshold : Option ℕ
  pub num_parties : Option ℕ
  pub bits : Option ℕ
  pub share_index : Option ℕ
  pub express_port : Option ℕ
  pub metrics_port : Option ℕ
  pub express_enable : Setting
  pub cluster_mode : Setting
  pub read_only_mode : Setting
  pub share_key : ShareConfig

-- `str`
unfoldable pub str : Option String → String
str none = ""
str (some t) = trim t

-- ===== src/CheckConfig/Shape.antt =====
-- `checkRuntime`, `checkShape` and `checkSigningKey` of lib/checkConfig.js. The parser of URLs, the
-- file system and the derivation of a public key are parameters.
pub mod Names
use wax_rng_oracle.Prelude.{
  ℕ, zero, suc, ◌+◌, String, Bool, true, false, not, ◌&&◌, ◌||◌, Option, none, some, List, [], ◌∷◌,
  ◌++◌, map, ltb, leb, ◌==◌, text_eq, if◌then◌else◌, length, any,
}
use text.Mathlib.Text.{starts_with}
use wax_rng_oracle.ShareKey.{codes, all_hex}
use wax_rng_oracle.CheckConfig.{
  Name, node_env, chain_id_shape, api_url, accounts, permission_name, max_cpu, share_params,
  db_file, express_port, metrics_port, slack_webhook, cluster_mode, read_only_mode, signing_key,
  Status, ok, fail, warn, skip, Entry, entry, Config, is_true, str,
}

-- `checkRuntime`, with NODE_ENV; `assertRuntimeEnv` throws for the text `test`.
unfoldable pub check_runtime : Option String → List Entry
unfolding str
check_runtime none = entry node_env warn ∷ []
check_runtime (some env) =
    if text_eq env "test"
    then entry node_env fail ∷ []
    else if not (text_eq (str (some env)) "production")
    then entry node_env warn ∷ []
    else entry node_env ok ∷ []

-- `toLowerCase` of an ASCII text, by code points.
abbrev lower_code : ℕ → ℕ
lower_code c = if leb b'A' c && leb c b'Z' then c + 32 else c

abbrev pub lower : String → List ℕ
lower t = map lower_code (codes t)

-- `HEX64`
abbrev pub hex_64 : List ℕ → Bool
hex_64 cs = length cs == 64 && all_hex cs

unfoldable pub check_chain_id : Config → List Entry
unfolding str
check_chain_id c =
    if not (hex_64 (lower (str c.chain_id)))
    then entry chain_id_shape fail ∷ []
    else entry chain_id_shape ok ∷ []

-- With the protocol of a URL, `none` if the text is none.
abbrev is_http : Option String → Bool
is_http none = false
is_http (some p) = text_eq p "http:" || text_eq p "https:"

unfoldable pub check_api_url : (String → Option String) → Config → List Entry
unfolding str
check_api_url protocol c =
    if not (is_http (protocol (str c.api_url)))
    then entry api_url fail ∷ []
    else entry api_url ok ∷ []

-- `[a-z1-5.]` and `[a-j1-5.]`
abbrev name_code : ℕ → Bool
name_code c = (leb b'a' c && leb c b'z') || ((leb b'1' c && leb c b'5') || c == b'.')

abbrev last_code : ℕ → Bool
last_code c = (leb b'a' c && leb c b'j') || ((leb b'1' c && leb c b'5') || c == b'.')

-- Up to `n` characters of the first class, and one of the second after `n` of them.
name_from : ℕ → List ℕ → Bool
name_from n [] = true
name_from zero (c ∷ []) = last_code c
name_from zero (c ∷ d ∷ cs) = false
name_from (suc n) (c ∷ cs) = name_code c && name_from n cs

ends_with_dot : List ℕ → Bool
ends_with_dot [] = false
ends_with_dot (c ∷ []) = c == b'.'
ends_with_dot (c ∷ d ∷ cs) = ends_with_dot (d ∷ cs)

-- `ANTELOPE_NAME` and `isName`
unfoldable pub is_name : String → Bool
unfolding name_from ends_with_dot
is_name t = let cs = codes t in not (length cs == 0) && (name_from 12 cs && not (ends_with_dot cs))

unfoldable pub check_accounts : Config → List Entry
unfolding str is_name
check_accounts c =
    if any (λ t. not (is_name (str t))) (c.node_owner ∷ c.contract_name ∷ c.auth ∷ [])
    then entry accounts fail ∷ []
    else if text_eq (str c.auth) "active" || text_eq (str c.auth) "owner"
    then entry accounts ok ∷ entry permission_name warn ∷ []
    else entry accounts ok ∷ []

unfoldable pub check_max_cpu : Config → List Entry
check_max_cpu c = elim c.max_cpu [
  | none ↦ entry max_cpu fail ∷ []
  | some n ↦ if ltb 150 n then entry max_cpu warn ∷ [] else entry max_cpu ok ∷ []
]

-- The tests that make a parameter a problem.
abbrev pub below : ℕ → Option ℕ → Bool
below k none = true
below k (some n) = ltb n k

abbrev pub above : Option ℕ → Option ℕ → Bool
above (some n) (some m) = ltb m n
above _ _ = false

abbrev pub no_integer : Option ℕ → Bool
no_integer none = true
no_integer (some n) = false

abbrev is_number : ℕ → Option ℕ → Bool
is_number k none = false
is_number k (some n) = n == k

unfoldable pub check_share_params : Config → List Entry
check_share_params c =
    if below 2 c.num_parties
      || ((below 2 c.threshold || above c.threshold c.num_parties)
          || (below 1024 c.bits || (below 1 c.share_index || above c.share_index c.num_parties)))
    then entry share_params fail ∷ []
    else if is_number 2 c.threshold && (is_number 3 c.num_parties && is_number 4096 c.bits)
    then entry share_params ok ∷ []
    else entry share_params ok ∷ entry share_params warn ∷ []

pub record Files : Type 0 where
  pub resolve : String → String
  pub directory : String → String
  pub exists : String → Bool
  pub is_writable : String → Bool
  pub as_root : Bool

abbrev or_text : String → String → String
or_text d t = if text_eq t "" then d else t

unfoldable pub check_db_file : Files → Config → List Entry
unfolding str
check_db_file f c =
    let path = f.resolve (or_text "db.json" (str c.db_file)) in
    let probe = if f.exists path then path else f.directory path in
    if f.is_writable probe
    then (if f.as_root then entry db_file warn ∷ [] else entry db_file ok ∷ [])
    else entry db_file fail ∷ []

abbrev is_port : Option ℕ → Bool
is_port none = false
is_port (some n) = leb 1 n && leb n 65535

unfoldable pub check_express_port : Config → List Entry
unfolding is_true
check_express_port c =
    if is_true c.express_enable
    then (if is_port c.express_port
        then entry express_port ok ∷ []
        else entry express_port fail ∷ [])
    else entry express_port skip ∷ []

unfoldable pub check_metrics_port : Config → List Entry
check_metrics_port c =
    if is_port c.metrics_port then entry metrics_port ok ∷ [] else entry metrics_port fail ∷ []

unfoldable pub check_slack : Config → List Entry
unfolding str
check_slack c =
    if text_eq (str c.slack_webhook) ""
    then entry slack_webhook skip ∷ []
    else if not (starts_with (str c.slack_webhook) "https://hooks.slack.com/")
    then entry slack_webhook warn ∷ []
    else entry slack_webhook ok ∷ []

unfoldable pub check_modes : Config → List Entry
unfolding is_true
check_modes c =
    (if is_true c.cluster_mode then entry cluster_mode warn ∷ [] else [])
    ++ (if is_true c.read_only_mode then entry read_only_mode warn ∷ [] else [])

unfoldable pub check_shape : (String → Option String) → Files → Config → List Entry
unfolding check_chain_id check_api_url check_accounts check_max_cpu check_share_params check_db_file
    check_express_port check_metrics_port check_slack check_modes
check_shape protocol f c =
    check_chain_id c
    ++ (check_api_url protocol c
        ++ (check_accounts c
            ++ (check_max_cpu c
                ++ (check_share_params c
                    ++ (check_db_file f c
                        ++ (check_express_port c
                            ++ (check_metrics_port c ++ (check_slack c ++ check_modes c))))))))

-- Both spellings of a public key.
pub record DerivedKey : Type 0 where
  pub k1 : String
  pub legacy : String

abbrev parsed_key : Option DerivedKey → List Entry × Option DerivedKey
parsed_key none = (entry signing_key fail ∷ [], none)
parsed_key (some k) = (entry signing_key ok ∷ [], some k)

-- With `derivePublicKey`, `none` if it throws: the checks and the key.
unfoldable pub check_signing_key :
    (String → Option DerivedKey) → Config → List Entry × Option DerivedKey
unfolding str
check_signing_key derive c =
    if text_eq (str c.private_key) ""
    then (entry signing_key fail ∷ [], none)
    else parsed_key (derive (str c.private_key))

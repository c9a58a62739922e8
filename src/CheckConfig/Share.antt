-- ===== src/CheckConfig/Share.antt =====
-- `shareConfigured`, `checkShare` and `runConfigChecks` of lib/checkConfig.js, and the exit code of
-- scripts/check-config.js.
pub mod Compared
use wax_rng_oracle.Prelude.{
  ℕ, ◌+◌, String, Bool, true, false, not, ◌&&◌, ◌||◌, Option, none, some, List, [], ◌∷◌, ◌++◌, ◌==◌,
  text_eq, if◌then◌else◌, any, length, keep,
}
use wax_rng_oracle.BootChecks.{Verified, unparseable, checked}
use wax_rng_oracle.BootChecks.Rows.{PublicKey}
use wax_rng_oracle.ShareKey.Service.{
  KeyText, ShareConfig, Parameters, Failure, Library, Service, new_service, initialize,
  verify_consistency,
}
use wax_rng_oracle.CheckConfig.{
  Name, share_configured, share_parses, share_consistent, Status, ok, fail, warn, skip, Entry,
  entry, Config, passed, str,
}
use wax_rng_oracle.CheckConfig.Shape.{
  Files, DerivedKey, check_runtime, check_shape, check_signing_key,
}
use wax_rng_oracle.CheckConfig.Chain.{Node, ChainState, check_chain}

abbrev n_of : Option KeyText → Option String
n_of none = none
n_of (some k) = some k.n

abbrev e_of : Option KeyText → Option String
e_of none = none
e_of (some k) = some k.e

-- The values of `SHARE_FIELDS`.
abbrev pub share_fields : ShareConfig → List (Option String)
share_fields c =
    n_of c.public_key
    ∷ e_of c.public_key
    ∷ c.shared_key
    ∷ c.verification_key
    ∷ c.verification_key_share
    ∷ c.vku
    ∷ []

abbrev pub is_set : Option String → Bool
is_set v = not (text_eq (str v) "")

-- How many fields are set, and how many are missing.
unfoldable pub shares_configured : ShareConfig → ℕ × ℕ
unfolding str
shares_configured c =
    (length (keep is_set (share_fields c)), length (keep (λ v. not (is_set v)) (share_fields c)))

abbrev pub verified_entry : Verified → Entry
verified_entry unparseable = entry share_consistent fail
verified_entry (checked is_ok names) =
    if not is_ok then entry share_consistent fail else entry share_consistent ok

abbrev pub compare_share : (PublicKey → Verified) → Option PublicKey → List Entry
compare_share verify none = entry share_parses ok ∷ entry share_consistent skip ∷ []
compare_share verify (some k) = entry share_parses ok ∷ verified_entry (verify k) ∷ []

abbrev pub parsed_share : (PublicKey → Verified) → Option PublicKey → Option Failure → List Entry
parsed_share verify on_chain (some f) = entry share_parses fail ∷ []
parsed_share verify on_chain none = compare_share verify on_chain

module _ (library : Library) (consistency : Parameters → PublicKey → Verified) (c : Config) where
  -- The service that the check makes, and what `initialize` throws.
  abbrev pub started_service : Option Failure × Service
  started_service = initialize library (new_service c.share_key)

  unfoldable pub check_share : Option PublicKey → List Entry
  unfolding shares_configured
  check_share on_chain =
      let (set, missing) = shares_configured c.share_key in
      let (failure, service) = started_service in
      if set == 0
      then entry share_configured skip ∷ []
      else if not (missing == 0)
      then entry share_configured fail ∷ []
      else parsed_share (verify_consistency consistency service) on_chain failure

-- What is outside of the checks.
pub record Host : Type 0 where
  pub env : Option String
  pub protocol : String → Option String
  pub files : Files
  pub derive : String → Option DerivedKey
  pub normalise : String → String
  pub version_key : String
  pub node : Node
  pub library : Library
  pub consistency : Parameters → PublicKey → Verified

unfoldable pub run_config_checks : Host → Config → List Entry
run_config_checks h c =
    let (signing, key) = check_signing_key h.derive c in
    let (chain, state) = check_chain h.normalise h.version_key c h.node key in
    check_runtime h.env
    ++ (check_shape h.protocol h.files c
        ++ (signing ++ (chain ++ check_share h.library h.consistency c state.on_chain)))

-- `main` of scripts/check-config.js: the exit code.
unfoldable pub exit_code : List Entry → ℕ
unfolding passed
exit_code report = if passed report then 0 else 1

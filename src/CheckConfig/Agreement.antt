-- ===== src/CheckConfig/Agreement.antt =====
-- The dry run of lib/checkConfig.js against the boot checks of lib/bootChecks.js.
use wax_rng_oracle.Prelude.{
  ℕ, String, trim, ◌≤◌, ◌≡◌, refl, sym, ap, ap₂, ◌∙◌, Bool, false, ◌&&◌, ◌||◌, Option, none, some,
  List, ◌++◌, arith, ◌==◌, any-append,
}
use wax_rng_oracle.BootChecks.{Verified, Settings, run_boot_checks}
use wax_rng_oracle.BootChecks.Rows.{
  PublicKey, Fetched, got, lost, fetch_active_public_key, fetch_oracle_index,
}
use wax_rng_oracle.BootChecks.Constant.{accepts_key, is_got, is_own, run_boot_checks-constant}
use wax_rng_oracle.ShareKey.Service.{verify_consistency}
use wax_rng_oracle.CheckConfig.{
  Name, chain_active_key, chain_oracle_row, share_consistent, Status, ok, Entry, Config, number_of,
  has, has_status, str,
}
use wax_rng_oracle.CheckConfig.Shape.{DerivedKey, check_signing_key}
use wax_rng_oracle.CheckConfig.Shape.Names.{
  has-IsEarly, check_runtime-IsEarly, check_shape-IsEarly, check_signing_key-IsEarly,
}
use wax_rng_oracle.CheckConfig.Chain.{Info, ChainState, check_chain, key_read}
use wax_rng_oracle.CheckConfig.Chain.Read.{
  chain-active_key, chain-oracle_row, chain-consistent, chain-on_chain,
}
use wax_rng_oracle.CheckConfig.Share.{
  Host, shares_configured, compare_share, started_service, check_share, run_config_checks,
}
use wax_rng_oracle.CheckConfig.Share.Compared.{
  compare-consistent, compare-other, check_share-staged,
}

has-append :
    (n : Name) (s : Status) (xs ys : List Entry)
    → has n s xs ≡ false
    → has n s (xs ++ ys) ≡ has n s ys
has-append n s xs ys h =
    any-append (λ e. number_of e.name == number_of n && has_status s e) xs ys ∙ rw h refl

same_verdict :
    (idx : ℕ) (verify : PublicKey → Verified) (k : Fetched PublicKey) (i : Fetched ℕ)
    → (is_got k && (is_own idx i && accepts_key verify k)) ≡ (is_own idx i && accepts_key verify k)
same_verdict idx verify (got k) i = refl
same_verdict idx verify (lost e) i = ground arith

-- The three checks of the dry run that say whether the process could start.
abbrev pub could_start : List Entry → Bool
could_start report =
    has chain_active_key ok report
    && (has chain_oracle_row ok report && has share_consistent ok report)

module _ (h : Host) (c : Config) where
  abbrev key : Option DerivedKey
  key = (check_signing_key h.derive c).1

  abbrev chain : List Entry × ChainState
  chain = check_chain h.normalise h.version_key c h.node key

  abbrev shared : List Entry
  shared = check_share h.library h.consistency c chain.1.on_chain

  abbrev verify : PublicKey → Verified
  verify = verify_consistency h.consistency (started_service h.library h.consistency c).1

  -- A check of the chain or of the share is not reported before them.
  late_names :
      (n : Name)
      → 14 ≤ number_of n
      → has n ok (run_config_checks h c) ≡ (has n ok chain.0 || has n ok shared)
  unfolding run_config_checks
  late_names n l =
      has-append n ok _ _ (has-IsEarly n ok _ l (check_runtime-IsEarly h.env))
      ∙ has-append n ok _ _ (has-IsEarly n ok _ l (check_shape-IsEarly h.protocol h.files c))
      ∙ has-append n ok _ _ (has-IsEarly n ok _ l (check_signing_key-IsEarly h.derive c))
      ∙ any-append (λ e. number_of e.name == number_of n && has_status ok e) chain.0 shared

  module _ (info : Info) (idx : ℕ) (reachable : h.node.get_info ≡ some info)
      (own : c.share_index ≡ some idx) (all_set : (shares_configured c.share_key).0 ≡ 6)
      (none_missing : (shares_configured c.share_key).1 ≡ 0)
      (starts : (started_service h.library h.consistency c).0 ≡ none) where
    abbrev K : Fetched PublicKey
    K = fetch_active_public_key h.node.rows h.version_key

    abbrev I : Fetched ℕ
    I = fetch_oracle_index h.node.rows (str c.node_owner)

    compared : shared ≡ compare_share verify (key_read K)
    compared =
        check_share-staged h.library h.consistency c chain.1.on_chain all_set none_missing starts
        ∙ ap (compare_share verify)
            (chain-on_chain h.normalise h.version_key c h.node key info idx reachable own)

    no_chain_check :
        (n : Name)
        → (22 == number_of n) ≡ false
        → (23 == number_of n) ≡ false
        → has n ok shared ≡ false
    no_chain_check n a b = ap (has n ok) compared ∙ compare-other n verify K a b

    or_no : (a b d : Bool) → a ≡ d → b ≡ false → (a || b) ≡ d
    or_no a b d p q = ground (arith, p, q)

    no_or : (a b d : Bool) → a ≡ false → b ≡ d → (a || b) ≡ d
    no_or a b d p q = ground (arith, p, q)

    says-active_key : has chain_active_key ok (run_config_checks h c) ≡ is_got K
    says-active_key =
        late_names chain_active_key (omega arith)
        ∙ or_no _ _ _
            (chain-active_key h.normalise h.version_key c h.node key info idx reachable own)
            (no_chain_check chain_active_key refl refl)

    says-oracle_row : has chain_oracle_row ok (run_config_checks h c) ≡ is_own idx I
    says-oracle_row =
        late_names chain_oracle_row (omega arith)
        ∙ or_no _ _ _
            (chain-oracle_row h.normalise h.version_key c h.node key info idx reachable own)
            (no_chain_check chain_oracle_row refl refl)

    says-consistent : has share_consistent ok (run_config_checks h c) ≡ accepts_key verify K
    says-consistent =
        late_names share_consistent (omega arith)
        ∙ no_or _ _ _
            (chain-consistent h.normalise h.version_key c h.node key info idx reachable own)
            (ap (has share_consistent ok) compared ∙ compare-consistent verify K)

-- For a node that answers, a configured index, a staged share, a service that starts and a configured
-- owner without white space around it, the dry run reports `ok` for the active key, for the oracle's row and for
-- the share exactly when the boot checks of that owner under that index, with at least one attempt
-- against a node that gives these answers to every attempt, end with `ok`.
pub run_config_checks-boot :
    (h : Host) (c : Config) (settings : Settings) (info : Info) (idx : ℕ) (owner : String)
    → h.node.get_info ≡ some info
    → c.share_index ≡ some idx
    → c.node_owner ≡ some owner
    → trim owner ≡ owner
    → (shares_configured c.share_key).0 ≡ 6
    → (shares_configured c.share_key).1 ≡ 0
    → (started_service h.library h.consistency c).0 ≡ none
    → 1 ≤ settings.attempts
    → could_start (run_config_checks h c)
      ≡ (run_boot_checks settings
          (λ n. h.node.rows)
          h.version_key
          owner
          idx
          (verify_consistency h.consistency (started_service h.library h.consistency c).1)).0.ok
unfolding str
run_config_checks-boot h c settings info idx owner reachable own named neat a m f l =
    let same : str c.node_owner ≡ owner = ap str named ∙ neat in
    ap₂ ◌&&◌ (says-active_key h c info idx reachable own a m f) (
      ap₂ ◌&&◌ (says-oracle_row h c info idx reachable own a m f)
        (says-consistent h c info idx reachable own a m f))
    ∙ same_verdict idx (verify h c) (fetch_active_public_key h.node.rows h.version_key)
        (fetch_oracle_index h.node.rows (str c.node_owner))
    ∙ ap
        (λ name.
          is_own idx (fetch_oracle_index h.node.rows name)
          && accepts_key (verify h c) (fetch_active_public_key h.node.rows h.version_key))
        same
    ∙ sym (run_boot_checks-constant settings h.node.rows h.version_key owner idx (verify h c) l)

-- ===== src/CheckConfig/Chain/Read.antt =====
-- What the checks of the chain of lib/checkConfig.js say of the two reads that the boot checks make.
use wax_rng_oracle.Prelude.{
  ℕ, String, ◌≡◌, refl, ap, ◌∙◌, Bool, false, ◌&&◌, Option, none, some, List, [], ◌∷◌, ◌==◌,
  Bool-cases, inl, inr,
}
use wax_rng_oracle.BootChecks.Rows.{
  PublicKey, oracle_not_registered, active_version_missing, active_version_invalid,
  active_key_missing, active_key_retired, active_key_malformed, oracle_index_malformed, retryable,
  Lost, rpc_error, boot, Fetched, got, lost, fetch_active_public_key, fetch_oracle_index,
}
use wax_rng_oracle.BootChecks.Constant.{is_got, is_own}
use wax_rng_oracle.CheckConfig.{
  Name, chain_rpc, chain_id, chain_active_key, chain_oracle_row, account_permission,
  account_linkauth, account_resources, share_consistent, Status, ok, skip, Entry, entry, Config,
  number_of, has, str,
}
use wax_rng_oracle.CheckConfig.Shape.{DerivedKey}
use wax_rng_oracle.CheckConfig.Chain.{
  Info, Permission, WeightedKey, Account, Node, ChainState, is_lagging, check_rpc, check_active_key,
  check_oracle_row, is_index, check_permission, check_resources, check_account, check_reachable,
  check_chain, key_read, index_read,
}
use wax_rng_oracle.CheckConfig.Chain
use wax_rng_oracle.CheckConfig.Chain.Once.{
  name-check_rpc, name-check_chain_id, name-check_active_key, name-check_oracle_row,
  name-check_permission, name-check_resources,
}

has-IsOther :
    (n m : Name) (s : Status) (e : Entry) (xs : List Entry)
    → e.name ≡ m
    → (number_of m == number_of n) ≡ false
    → has n s (e ∷ xs) ≡ has n s xs
has-IsOther n m s e xs h k = rw (h, k) refl

active_key-ok :
    (lagging : Bool) (k : Fetched PublicKey) (xs : List Entry)
    → has chain_active_key ok xs ≡ false
    → has chain_active_key ok (check_active_key lagging k ∷ xs) ≡ is_got k
active_key-ok lagging (got k) xs h = refl
active_key-ok lagging (lost rpc_error) xs h = h
active_key-ok lagging (lost (boot code)) xs h = elim (Bool-cases (retryable code && lagging)) [
  | inl late ↦ rw late h
  | inr bad ↦ rw bad h
]

not_registered-ok :
    (n : Option ℕ) (e : Lost) (xs : List Entry)
    → has chain_oracle_row ok xs ≡ false
    → has chain_oracle_row ok (check_oracle_row n (lost e) ∷ xs) ≡ false
not_registered-ok n rpc_error xs h = h
not_registered-ok n (boot oracle_not_registered) xs h = h
not_registered-ok n (boot active_version_missing) xs h = h
not_registered-ok n (boot active_version_invalid) xs h = h
not_registered-ok n (boot active_key_missing) xs h = h
not_registered-ok n (boot active_key_retired) xs h = h
not_registered-ok n (boot active_key_malformed) xs h = h
not_registered-ok n (boot oracle_index_malformed) xs h = h

oracle_row-ok :
    (idx : ℕ) (i : Fetched ℕ) (xs : List Entry)
    → has chain_oracle_row ok xs ≡ false
    → has chain_oracle_row ok (check_oracle_row (some idx) i ∷ xs) ≡ is_own idx i
oracle_row-ok idx (lost e) xs h = not_registered-ok (some idx) e xs h
oracle_row-ok idx (got i) xs h = elim (Bool-cases (i == idx)) [
  | inl same ↦ rw same refl
  | inr other ↦ rw other h
]

module _ (normalise : String → String) (version_key : String) (c : Config) (node : Node)
    (key : Option DerivedKey) where
  -- The checks of the account have other names.
  account-quiet :
      (n : Name) (s : Status) (a : Option Account)
      → (18 == number_of n) ≡ false
      → (19 == number_of n) ≡ false
      → (20 == number_of n) ≡ false
      → has n s (check_account normalise c key a) ≡ false
  account-quiet n s none h18 h19 h20 = rw (h18, h20) refl
  account-quiet n s (some a) h18 h19 h20 =
      has-IsOther n account_permission s (check_permission normalise c key a)
        (entry account_linkauth skip ∷ check_resources a ∷ [])
        (name-check_permission normalise c key a) h18
      ∙ has-IsOther n account_linkauth s (entry account_linkauth skip) (check_resources a ∷ []) refl
          h19
      ∙ has-IsOther n account_resources s (check_resources a) [] (name-check_resources a) h20

  module _ (info : Info) (idx : ℕ) (reachable : node.get_info ≡ some info)
      (own : c.share_index ≡ some idx) where
    abbrev pub K : Fetched PublicKey
    K = fetch_active_public_key node.rows version_key

    abbrev pub I : Fetched ℕ
    I = fetch_oracle_index node.rows (str c.node_owner)

    abbrev account : List Entry
    account = check_account normalise c key (node.get_account (str c.node_owner))

    abbrev late : Bool
    late = is_lagging info.head_age

    -- The first two checks of a node that answers have other names.
    first_two :
        (n : Name) (rest : List Entry)
        → (14 == number_of n) ≡ false
        → (15 == number_of n) ≡ false
        → has n ok (check_rpc late ∷ Chain.check_chain_id c info ∷ rest) ≡ has n ok rest
    first_two n rest h14 h15 =
        has-IsOther n chain_rpc ok (check_rpc late) (Chain.check_chain_id c info ∷ rest)
          (name-check_rpc late) h14
        ∙ has-IsOther n chain_id ok (Chain.check_chain_id c info) rest (name-check_chain_id c info)
            h15

    after_row :
        (n : Name)
        → (17 == number_of n) ≡ false
        → has n ok (check_oracle_row c.share_index I ∷ account) ≡ has n ok account
    after_row n h =
        has-IsOther n chain_oracle_row ok (check_oracle_row c.share_index I) account
          (name-check_oracle_row c.share_index I) h

    after_key :
        (n : Name) (rest : List Entry)
        → (16 == number_of n) ≡ false
        → has n ok (check_active_key late K ∷ rest) ≡ has n ok rest
    after_key n rest h =
        has-IsOther n chain_active_key ok (check_active_key late K) rest
          (name-check_active_key late K) h

    answered :
        (n : Name)
        → has n ok (check_chain normalise version_key c node key).0
          ≡ has n ok (check_reachable normalise version_key c node key info).0
    unfolding check_chain
    answered n =
        ap (λ (i : Option Info). has n ok (Chain.check_info normalise version_key c node key i).0)
          reachable

    pub chain-active_key :
        has chain_active_key ok (check_chain normalise version_key c node key).0 ≡ is_got K
    chain-active_key =
        answered chain_active_key
        ∙ first_two chain_active_key
            (check_active_key late K ∷ check_oracle_row c.share_index I ∷ account) refl refl
        ∙ active_key-ok late K (check_oracle_row c.share_index I ∷ account) (
            after_row chain_active_key refl
            ∙ account-quiet chain_active_key ok (node.get_account (str c.node_owner)) refl refl
                refl)

    pub chain-oracle_row :
        has chain_oracle_row ok (check_chain normalise version_key c node key).0 ≡ is_own idx I
    chain-oracle_row =
        answered chain_oracle_row
        ∙ first_two chain_oracle_row
            (check_active_key late K ∷ check_oracle_row c.share_index I ∷ account) refl refl
        ∙ after_key chain_oracle_row (check_oracle_row c.share_index I ∷ account) refl
        ∙ ap (λ (o : Option ℕ). has chain_oracle_row ok (check_oracle_row o I ∷ account)) own
        ∙ oracle_row-ok idx I account
            (account-quiet chain_oracle_row ok (node.get_account (str c.node_owner)) refl refl refl)

    pub chain-consistent :
        has share_consistent ok (check_chain normalise version_key c node key).0 ≡ false
    chain-consistent =
        answered share_consistent
        ∙ first_two share_consistent
            (check_active_key late K ∷ check_oracle_row c.share_index I ∷ account) refl refl
        ∙ after_key share_consistent (check_oracle_row c.share_index I ∷ account) refl
        ∙ after_row share_consistent refl
        ∙ account-quiet share_consistent ok (node.get_account (str c.node_owner)) refl refl refl

    pub chain-on_chain : (check_chain normalise version_key c node key).1.on_chain ≡ key_read K
    unfolding check_chain
    chain-on_chain =
        ap (λ (i : Option Info). (Chain.check_info normalise version_key c node key i).1.on_chain)
          reachable

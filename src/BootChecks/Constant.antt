-- ===== src/BootChecks/Constant.antt =====
-- The boot checks of lib/bootChecks.js against a node that gives the same answers to every attempt.
use wax_rng_oracle.Prelude.{
  ℕ, zero, suc, ◌+◌, ◌≤◌, String, ◌≡◌, refl, ap, ◌∙◌, Bool, true, false, ◌&&◌, Option, none, some,
  List, [], arith, ◌==◌, Bool-cases, ◌⊎◌, inl, inr,
}
use wax_rng_oracle.BootChecks.Rows.{
  Rpc, PublicKey, retryable, Lost, rpc_error, boot, Fetched, got, lost, fetch_active_public_key,
  fetch_oracle_index,
}
use wax_rng_oracle.BootChecks.{
  Status, started, Verified, unparseable, checked, Ending, visible, not_visible, Settings,
  catch_lost, with_key, attempt, read_chain, verdict, conclude, run_boot_checks,
}

-- The share is found consistent with the key that was read.
abbrev pub accepts : Verified → Bool
accepts unparseable = false
accepts (checked b names) = b

abbrev pub accepts_key : (PublicKey → Verified) → Fetched PublicKey → Bool
accepts_key verify (got k) = accepts (verify k)
accepts_key verify (lost e) = false

abbrev pub is_got {ℓ} : {A : Type ℓ} → Fetched A → Bool
is_got (got a) = true
is_got (lost e) = false

abbrev pub is_own : ℕ → Fetched ℕ → Bool
is_own share_index (got i) = i == share_index
is_own share_index (lost e) = false

module _ (c : Settings) (share_index : ℕ) (verify : PublicKey → Verified) where
  abbrev NotOk : Ending × List ℕ → Type 0
  NotOk r = (conclude share_index verify r.0).ok ≡ false

  abbrev Fails : (Status → Option Lost → Ending × List ℕ) → Type 0
  Fails next = (st : Status) (last : Option Lost) → st.ok ≡ false → NotOk (next st last)

  not_visible-NotOk :
      (st : Status) (last : Option Lost) → st.ok ≡ false → NotOk (not_visible st last, [])
  not_visible-NotOk st none h = h
  not_visible-NotOk st (some rpc_error) h = h
  not_visible-NotOk st (some (boot k)) h = h

  catch_lost-NotOk :
      (n : ℕ) (e : Lost) (st : Status) (next : Status → Option Lost → Ending × List ℕ)
      → st.ok ≡ false
      → Fails next
      → NotOk (catch_lost c n e st next)
  catch_lost-NotOk n rpc_error st next h go = go st (some rpc_error) h
  catch_lost-NotOk n (boot k) st next h go = elim (Bool-cases (retryable k)) [
    | inl again ↦ rw again (go (record st { rpc_reachable = true }) (some (boot k)) h)
    | inr never ↦ rw never h
  ]

  attempt-NotOk :
      (n : ℕ) (k : Fetched PublicKey) (i : Fetched ℕ) (st : Status)
      (next : Status → Option Lost → Ending × List ℕ)
      → (is_got k ≡ false) ⊎ (is_got i ≡ false)
      → st.ok ≡ false
      → Fails next
      → NotOk (attempt c n k i st next)
  attempt-NotOk n (lost e) i st next h o go = catch_lost-NotOk n e st next o go
  attempt-NotOk n (got k) (lost e) st next h o go = catch_lost-NotOk n e (with_key k st) next o go
  attempt-NotOk n (got k) (got i) st next (inl h) o go = absurd (cc)
  attempt-NotOk n (got k) (got i) st next (inr h) o go = absurd (cc)

  module _ (rpc : Rpc) (key owner : String) where
    read_chain-NotOk :
        (left n : ℕ) (st : Status) (last : Option Lost)
        → (is_got (fetch_active_public_key rpc key) ≡ false)
          ⊎ (is_got (fetch_oracle_index rpc owner) ≡ false)
        → st.ok ≡ false
        → NotOk (read_chain c (λ a. rpc) key owner left n st last)
    unfolding read_chain
    read_chain-NotOk zero n st last h o = not_visible-NotOk st last o
    read_chain-NotOk (suc left) n st last h o =
        attempt-NotOk n (fetch_active_public_key rpc key) (fetch_oracle_index rpc owner) st
          (read_chain c (λ a. rpc) key owner left (n + 1)) h o
          (λ st' last' o'. read_chain-NotOk left (n + 1) st' last' h o')

    verdict-ok : (v : Verified) (st : Status) → st.ok ≡ false → (verdict v st).ok ≡ accepts v
    verdict-ok unparseable st h = h
    verdict-ok (checked true names) st h = refl
    verdict-ok (checked false names) st h = h

    visible-ok :
        (k : PublicKey) (i : ℕ) (st : Status)
        → st.ok ≡ false
        → (conclude share_index verify (visible st k i)).ok
          ≡ (i == share_index && accepts (verify k))
    visible-ok k i st h = elim (Bool-cases (i == share_index)) [
      | inl same ↦ rw same (verdict-ok (verify k) (record st { oracle_index_matches = true }) h)
      | inr other ↦ rw other h
    ]

    read_chain-ok :
        (left : ℕ) (k : Fetched PublicKey) (i : Fetched ℕ)
        → fetch_active_public_key rpc key ≡ k
        → fetch_oracle_index rpc owner ≡ i
        → (conclude share_index verify
            (read_chain c (λ a. rpc) key owner (suc left) 1 started none).0).ok
          ≡ (is_own share_index i && accepts_key verify k)
    unfolding read_chain
    read_chain-ok left (got k) (got i) ek ei =
        rw (ek, ei) (visible-ok k i (with_key k started) refl)
    read_chain-ok left (lost e) i ek ei =
        read_chain-NotOk (suc left) 1 started none (inl (ap is_got ek)) refl ∙ ground arith
    read_chain-ok left (got k) (lost e) ek ei =
        read_chain-NotOk (suc left) 1 started none (inr (ap is_got ei)) refl

-- Against such a node, and with at least one attempt, the boot checks end with `ok` exactly when the
-- member's index and the active key can be read, the index is that of the share, and the library finds
-- the share consistent with the key.
pub run_boot_checks-constant :
    (c : Settings) (rpc : Rpc) (key owner : String) (share_index : ℕ)
    (verify : PublicKey → Verified)
    → 1 ≤ c.attempts
    → (run_boot_checks c (λ n. rpc) key owner share_index verify).0.ok ≡ (
        is_own share_index (fetch_oracle_index rpc owner)
        && accepts_key verify (fetch_active_public_key rpc key))
unfolding run_boot_checks
run_boot_checks-constant c rpc key owner share_index verify h = go c.attempts refl
  where
    go :
        (n : ℕ)
        → c.attempts ≡ n
        → (conclude share_index verify (read_chain c (λ a. rpc) key owner n 1 started none).0).ok
          ≡ (is_own share_index (fetch_oracle_index rpc owner)
              && accepts_key verify (fetch_active_public_key rpc key))
    go zero e = absurd (omega (arith, h, e))
    go (suc left) e =
        read_chain-ok c share_index verify rpc key owner left (fetch_active_public_key rpc key)
          (fetch_oracle_index rpc owner) refl refl

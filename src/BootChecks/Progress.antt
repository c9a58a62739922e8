-- ===== src/BootChecks/Progress.antt =====
-- When the boot checks of lib/bootChecks.js pass.
use wax_rng_oracle.Prelude.{
  ℕ, zero, suc, ◌+◌, ◌≤◌, ◌<◌, String, ◌≡◌, refl, ◌∙◌, Bool, true, Option, none, some, List, arith,
  ◌==◌, ==_iff, ==_refl, Bool-cases, inl, inr,
}
use wax_rng_oracle.BootChecks.Rows.{
  Rpc, PublicKey, retryable, Lost, rpc_error, boot, got, lost, fetch_active_public_key,
  fetch_oracle_index,
}
use wax_rng_oracle.BootChecks.{
  Status, started, Verified, checked, Ending, visible, Settings, with_key, catch_lost, attempt,
  read_chain, run_boot_checks,
}

-- The errors that are followed by another attempt.
abbrev pub retried : Lost → Bool
retried rpc_error = true
retried (boot k) = retryable k

module _ (c : Settings) (rpc : ℕ → Rpc) (key owner : String) where
  -- The attempt `j` ends with an error that is tried again.
  pub data Waits (j : ℕ) : Type 0 where
    no_key : (e : Lost) → fetch_active_public_key (rpc j) key ≡ lost e → retried e ≡ true → Waits j
    no_index :
        (k : PublicKey) (e : Lost)
        → fetch_active_public_key (rpc j) key ≡ got k
        → fetch_oracle_index (rpc j) owner ≡ lost e
        → retried e ≡ true
        → Waits j

  -- The rest of the loop is run, from some status.
  abbrev GoesOn : (Status → Option Lost → Ending × List ℕ) → Ending × List ℕ → Type 0
  GoesOn next r = (st : Status) × (last : Option Lost) × (r.0 ≡ (next st last).0)

  catch_lost-GoesOn :
      (n : ℕ) (e : Lost) (st : Status) (next : Status → Option Lost → Ending × List ℕ)
      → retried e ≡ true
      → GoesOn next (catch_lost c n e st next)
  catch_lost-GoesOn n rpc_error st next h = (st, some rpc_error, refl)
  catch_lost-GoesOn n (boot k) st next h =
      (record st { rpc_reachable = true }, some (boot k), rw h refl)

  attempt-GoesOn :
      (n : ℕ) (st : Status) (next : Status → Option Lost → Ending × List ℕ)
      → Waits n
      → GoesOn next (
          attempt c n
            (fetch_active_public_key (rpc n) key)
            (fetch_oracle_index (rpc n) owner)
            st
            next)
  attempt-GoesOn n st next (no_key e ek h) = rw ek (catch_lost-GoesOn n e st next h)
  attempt-GoesOn n st next (no_index k e ek ei h) =
      rw (ek, ei) (catch_lost-GoesOn n e (with_key k st) next h)

  module _ (at i : ℕ) (k : PublicKey) (ek : fetch_active_public_key (rpc at) key ≡ got k)
      (ei : fetch_oracle_index (rpc at) owner ≡ got i) where
    read_chain-visible :
        (left n : ℕ) (st : Status) (last : Option Lost)
        → n ≤ at
        → at < n + left
        → ((j : ℕ) → n ≤ j → j < at → Waits j)
        → (st' : Status) × ((read_chain c rpc key owner left n st last).0 ≡ visible st' k i)
    unfolding read_chain
    read_chain-visible zero n st last lo hi w = ground (arith, lo, hi)
    read_chain-visible (suc left) n st last lo hi w = elim (Bool-cases (n == at)) [
      | inl now ↦ (with_key k st, rw ((==_iff n at).0 now) (rw (ek, ei) refl))
      | inr before ↦
          let later : n < at = ground (arith, before, lo) in
          let (st1, last1, e) =
            attempt-GoesOn n st (read_chain c rpc key owner left (n + 1))
              (w n (omega arith) later) in
          let (st2, e') =
            read_chain-visible left (n + 1) st1 last1 (omega arith) (omega arith)
              (λ j a b. w j (omega arith) b) in
          (st2, e ∙ e')
    ]

-- If in one of the configured attempts the node shows an active key and the member's index, the index
-- is that of its share, the library finds the share consistent with the key, and each attempt before
-- ended with an error that is tried again, then the checks end with `ok`.
pub run_boot_checks-passes :
    (c : Settings) (rpc : ℕ → Rpc) (key owner : String) (share_index at : ℕ) (k : PublicKey)
    (verify : PublicKey → Verified) (names : List String)
    → 1 ≤ at
    → at ≤ c.attempts
    → ((j : ℕ) → 1 ≤ j → j < at → Waits c rpc key owner j)
    → fetch_active_public_key (rpc at) key ≡ got k
    → fetch_oracle_index (rpc at) owner ≡ got share_index
    → verify k ≡ checked true names
    → (run_boot_checks c rpc key owner share_index verify).0.ok ≡ true
unfolding run_boot_checks
run_boot_checks-passes c rpc key owner share_index at k verify names lo hi w ek ei v =
    let (st, e) =
      read_chain-visible c rpc key owner at share_index k ek ei c.attempts 1 started none lo
        (omega arith) w in
    rw (e, ==_refl, v) refl

-- ===== src/BootChecks/Sound.antt =====
-- What it means that the boot checks of lib/bootChecks.js pass.
use wax_rng_oracle.Prelude.{
  subst, ℕ, zero, suc, ◌+◌, ◌≤◌, String, ◌≡◌, refl, Bool, true, false, Option, none, some, List, [],
  ◌∷◌, arith, ◌==◌, ==_iff, if◌then◌else◌, Bool-cases, inl, inr,
}
use wax_rng_oracle.BootChecks.Rows.{
  Rpc, PublicKey, retryable, Lost, rpc_error, boot, Fetched, got, lost, fetch_active_public_key,
  fetch_oracle_index,
}
use wax_rng_oracle.BootChecks.{
  oracle_index_mismatch, Status, started, Verified, unparseable, checked, Ending, visible, unusable,
  not_visible, Settings, with_key, catch_lost, attempt, read_chain, verdict, conclude,
  run_boot_checks,
}
use wax_rng_oracle.BootChecks.Reads.{
  IsActive, IsRegistered, fetch_active_public_key-IsActive, fetch_oracle_index-IsRegistered,
}

module _ (c : Settings) (rpc : ℕ → Rpc) (key owner : String) where
  -- One attempt read the key and the index.
  pub record Seen (active_ver : Option ℕ) (k : PublicKey) (i : ℕ) : Type 0 where
    pub at : ℕ
    pub least : 1 ≤ at
    pub most : at ≤ c.attempts
    pub active : IsActive (rpc at) key k
    pub registered : IsRegistered (rpc at) owner i
    pub ver : active_ver ≡ some k.ver

  -- The loop ends with both values of one attempt, or with a status that is not ok.
  abbrev Honest : Ending → Type 0
  Honest (visible st k i) = (st.ok ≡ false) × Seen st.active_ver k i
  Honest (unusable st) = st.ok ≡ false
  Honest (not_visible st last) = st.ok ≡ false

  abbrev Continues : (Status → Option Lost → Ending × List ℕ) → Type 0
  Continues next = (st : Status) (last : Option Lost) → st.ok ≡ false → Honest (next st last).0

  catch_lost-Honest :
      (n : ℕ) (e : Lost) (st : Status) (next : Status → Option Lost → Ending × List ℕ)
      → st.ok ≡ false
      → Continues next
      → Honest (catch_lost c n e st next).0
  catch_lost-Honest n rpc_error st next h go = go st (some rpc_error) h
  catch_lost-Honest n (boot k) st next h go = elim (Bool-cases (retryable k)) [
    | inl again ↦ rw again (go (record st { rpc_reachable = true }) (some (boot k)) h)
    | inr never ↦ rw never h
  ]

  attempt-Honest :
      (n : ℕ) (k : Fetched PublicKey) (i : Fetched ℕ) (st : Status)
      (next : Status → Option Lost → Ending × List ℕ)
      → 1 ≤ n
      → n ≤ c.attempts
      → fetch_active_public_key (rpc n) key ≡ k
      → fetch_oracle_index (rpc n) owner ≡ i
      → st.ok ≡ false
      → Continues next
      → Honest (attempt c n k i st next).0
  attempt-Honest n (got k) (got i) st next lo hi ek ei h go = (
    h,
    record {
      at = n;
      least = lo;
      most = hi;
      active = fetch_active_public_key-IsActive (rpc n) key k ek;
      registered = fetch_oracle_index-IsRegistered (rpc n) owner i ei;
      ver = refl;
    },
  )
  attempt-Honest n (got k) (lost e) st next lo hi ek ei h go =
      catch_lost-Honest n e (with_key k st) next h go
  attempt-Honest n (lost e) i st next lo hi ek ei h go = catch_lost-Honest n e st next h go

  read_chain-Honest :
      (left n : ℕ) (st : Status) (last : Option Lost)
      → 1 ≤ n
      → n + left ≤ c.attempts + 1
      → st.ok ≡ false
      → Honest (read_chain c rpc key owner left n st last).0
  unfolding read_chain
  read_chain-Honest zero n st last lo hi h = h
  read_chain-Honest (suc left) n st last lo hi h =
      attempt-Honest n _ _ st (read_chain c rpc key owner left (n + 1)) lo (omega arith) refl refl h
        (λ st' last' h'. read_chain-Honest left (n + 1) st' last' (omega arith) (omega arith) h')

  -- What the checks confirm when they pass.
  pub record Confirmed (share_index : ℕ) (verify : PublicKey → Verified) (st : Status)
      : Type 0 where
    pub public_key : PublicKey
    pub names : List String
    pub seen : Seen st.active_ver public_key share_index
    pub consistent : verify public_key ≡ checked true names

  verdict-Confirmed :
      (share_index : ℕ) (verify : PublicKey → Verified) (v : Verified) (st : Status) (k : PublicKey)
      → verify k ≡ v
      → st.ok ≡ false
      → Seen st.active_ver k share_index
      → (verdict v st).ok ≡ true
      → Confirmed share_index verify (verdict v st)
  verdict-Confirmed share_index verify unparseable st k e h s p = absurd (cc)
  verdict-Confirmed share_index verify (checked true names) st k e h s p = record {
    public_key = k;
    names = names;
    seen = s;
    consistent = e;
  }
  verdict-Confirmed share_index verify (checked false names) st k e h s p = absurd (cc)

  conclude-Confirmed :
      (share_index : ℕ) (verify : PublicKey → Verified) (e : Ending)
      → Honest e
      → (conclude share_index verify e).ok ≡ true
      → Confirmed share_index verify (conclude share_index verify e)
  conclude-Confirmed share_index verify (unusable st) h p = absurd (cc)
  conclude-Confirmed share_index verify (not_visible st none) h p = absurd (cc)
  conclude-Confirmed share_index verify (not_visible st (some rpc_error)) h p = absurd (cc)
  conclude-Confirmed share_index verify (not_visible st (some (boot k))) h p = absurd (cc)
  conclude-Confirmed share_index verify (visible st k i) (h, s) p =
      matched (i == share_index) refl p
    where
      matched :
          (b : Bool)
          → (i == share_index) ≡ b
          → (if b
              then verdict (verify k) (record st { oracle_index_matches = true })
              else record st { failed_checks = oracle_index_mismatch ∷ [] }).ok
            ≡ true
          → Confirmed share_index verify (
              if b
              then verdict (verify k) (record st { oracle_index_matches = true })
              else record st { failed_checks = oracle_index_mismatch ∷ [] })
      matched true same q =
          verdict-Confirmed share_index verify (verify k)
            (record st { oracle_index_matches = true }) k refl h
            (subst (Seen st.active_ver k) ((==_iff i share_index).0 same) s) q
      matched false other q = absurd (cc)

-- Of at most the configured number of attempts, if the checks end with `ok`, in one attempt the node
-- showed an active key that is not retired and the member registered under the index of its share;
-- the library found the share consistent with that key; and its version is the `activeVer` that the
-- poller then acts on.
pub run_boot_checks-Confirmed :
    (c : Settings) (rpc : ℕ → Rpc) (key owner : String) (share_index : ℕ)
    (verify : PublicKey → Verified)
    → (run_boot_checks c rpc key owner share_index verify).0.ok ≡ true
    → Confirmed c rpc key owner share_index verify
        (run_boot_checks c rpc key owner share_index verify).0
unfolding run_boot_checks
run_boot_checks-Confirmed c rpc key owner share_index verify p =
    conclude-Confirmed c rpc key owner share_index verify
      (read_chain c rpc key owner c.attempts 1 started none).0
      (read_chain-Honest c rpc key owner c.attempts 1 started none (omega arith) (omega arith) refl)
      p

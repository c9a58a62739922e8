-- ===== src/BootChecks/Delays.antt =====
-- How long the boot checks of lib/bootChecks.js wait, and when they get through.
use wax_rng_oracle.Prelude.{
  ℕ, zero, suc, ◌+◌, ◌-◌, ◌*◌, ◌^◌, ◌≤◌, String, true, Option, none, some, List, arith, leb, ltb,
  length, All, if◌then◌else◌, Bool-cases, inl, inr,
}
use wax_rng_oracle.BootChecks.Rows.{
  Rpc, PublicKey, retryable, Lost, rpc_error, boot, Fetched, got, lost, fetch_active_public_key,
  fetch_oracle_index,
}
use wax_rng_oracle.BootChecks.{
  Status, started, Verified, Ending, Settings, with_key, pause, catch_lost, attempt, read_chain,
  run_boot_checks,
}

module _ (c : Settings) where
  -- At most `most` pauses, and none above the maximum.
  pub record Bounded (most : ℕ) (delays : List ℕ) : Type 0 where
    pub few : length delays ≤ most
    pub short : All (λ d. d ≤ c.max_delay) delays

  abbrev Continues : ℕ → (Status → Option Lost → Ending × List ℕ) → Type 0
  Continues most next = (st : Status) (last : Option Lost) → Bounded most (next st last).1

  pause-Bounded :
      (n : ℕ) (delays : List ℕ)
      → Bounded (c.attempts - (n + 1)) delays
      → Bounded (c.attempts - n) (pause c n delays)
  pause-Bounded n delays b = elim (Bool-cases (ltb n c.attempts)) [
    | inl more ↦ rw more (record {
      few = ground (arith, more, b.few);
      short = (capped (c.base_delay * 2 ^ (n - 1)), b.short);
    })
    | inr last ↦ rw last (record { few = ground (arith, b.few); short = b.short })
  ]
    where
      capped : (d : ℕ) → (if leb c.max_delay d then c.max_delay else d) ≤ c.max_delay
      capped d = ground arith

  catch_lost-Bounded :
      (n : ℕ) (e : Lost) (st : Status) (next : Status → Option Lost → Ending × List ℕ)
      → Continues (c.attempts - (n + 1)) next
      → Bounded (c.attempts - n) (catch_lost c n e st next).1
  catch_lost-Bounded n rpc_error st next go = pause-Bounded n _ (go st (some rpc_error))
  catch_lost-Bounded n (boot k) st next go = elim (Bool-cases (retryable k)) [
    | inl again ↦
        rw again (pause-Bounded n _ (go (record st { rpc_reachable = true }) (some (boot k))))
    | inr never ↦ rw never (record { few = omega arith; short = tt })
  ]

  attempt-Bounded :
      (n : ℕ) (k : Fetched PublicKey) (i : Fetched ℕ) (st : Status)
      (next : Status → Option Lost → Ending × List ℕ)
      → Continues (c.attempts - (n + 1)) next
      → Bounded (c.attempts - n) (attempt c n k i st next).1
  attempt-Bounded n (got k) (got i) st next go = record { few = omega arith; short = tt }
  attempt-Bounded n (got k) (lost e) st next go = catch_lost-Bounded n e (with_key k st) next go
  attempt-Bounded n (lost e) i st next go = catch_lost-Bounded n e st next go

  read_chain-Bounded :
      (rpc : ℕ → Rpc) (key owner : String) (left n : ℕ) (st : Status) (last : Option Lost)
      → Bounded (c.attempts - n) (read_chain c rpc key owner left n st last).1
  unfolding read_chain
  read_chain-Bounded rpc key owner zero n st last = record { few = omega arith; short = tt }
  read_chain-Bounded rpc key owner (suc left) n st last =
      attempt-Bounded n (fetch_active_public_key (rpc n) key) (fetch_oracle_index (rpc n) owner) st
        (read_chain c rpc key owner left (n + 1))
        (λ st' last'. read_chain-Bounded rpc key owner left (n + 1) st' last')

-- Whatever the node answers, the boot checks pause at most once between two attempts, each time for
-- no longer than the maximum, and then end.
pub run_boot_checks-Bounded :
    (c : Settings) (rpc : ℕ → Rpc) (key owner : String) (share_index : ℕ)
    (verify : PublicKey → Verified)
    → Bounded c (c.attempts - 1) (run_boot_checks c rpc key owner share_index verify).1
unfolding run_boot_checks
run_boot_checks-Bounded c rpc key owner share_index verify =
    read_chain-Bounded c rpc key owner c.attempts 1 started none

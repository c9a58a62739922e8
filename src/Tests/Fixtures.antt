-- ===== src/Tests/Fixtures.antt =====
-- Test data: two jobs of the chain, a member of the threshold, and what is outside.
use wax_rng_oracle.Prelude.{
  ℕ, String, ◌≡◌, ◌≢◌, refl, ◌%◌, Bool, true, false, none, some, List, [], ◌∷◌, arith, leb, ok,
  text_eq_iff,
}
use native.Mathlib.Nat.{mod-lt}
use wax_rng_oracle.Model.{integer, text, Part, Job, Undelivered}
use wax_rng_oracle.RngPusher.{Answer, accepted, failed, rpc, detail}
use wax_rng_oracle.ShareKey.{Combined, combined, combine_error}
use wax_rng_oracle.Storage.{Storage, DbFile}
use wax_rng_oracle.Shuffle.{PicksBelow}
use wax_rng_oracle.JobService.{Page, Reader}
use wax_rng_oracle.JobService.Paging.{Answers, IsReaderOf}
use wax_rng_oracle.Poller.{State, Member, Outside}

abbrev pub part : ℕ → String → Part
part i sig = record { idx = integer i; sig_i = text sig }

abbrev pub job_of : ℕ → List Part → Job
job_of id parts = record {
  id = id;
  seed = "0a0b";
  dapp = "dice";
  nonce = some 9;
  ver = 1;
  assoc_id = 3;
  parts = parts;
}

-- Two parts, in the two orders that the chain may give.
abbrev pub early_parts : List Part
early_parts = part 1 "ab" ∷ part 2 "cd" ∷ []

abbrev pub late_parts : List Part
late_parts = part 2 "cd" ∷ part 1 "ab" ∷ []

abbrev pub first_job : Job
first_job = job_of 3 early_parts

abbrev pub second_job : Job
second_job = job_of 7 []

abbrev pub undelivered_of : ℕ → Undelivered
undelivered_of id = record {
  request_id = id;
  dapp = "dice";
  assoc_id = 3;
  error_message = "assert";
}

-- A digest that is never empty.
abbrev pub toy_sha256 : String → String
toy_sha256 t = "digest"

pub toy_sha256_nonempty : (t : String) → toy_sha256 t ≢ ""
toy_sha256_nonempty t e = ground (arith, text_eq_iff "digest" "")

abbrev pub empty_file : DbFile
empty_file = record { failures = []; delivery_failures = none; process = none }

abbrev pub fresh : Storage
fresh = record { max_retry_duration = 16000; failures = []; delivery_failures = []; process = none }

abbrev pub fresh_state : State
fresh_state = record {
  db = fresh;
  skipped_versions = [];
  last_post_at = 0;
  suppressed = 0;
  pushed = [];
  events = [];
}

abbrev pub member : Member
member = record {
  owner = "oracle";
  active_key_version = some 1;
  combine_alert_interval = 60000;
  threshold = 2;
  combine_threshold = 2;
  key_modulus = 1000;
}

abbrev pub outside_of : Answer → Combined → Outside
outside_of a c = record {
  answer = λ pushed action. a;
  clock = λ s. 1000;
  sha256 = toy_sha256;
  sha256_bytes = λ bytes. "00ff";
  name_to_uint64 = λ name. 5;
  sign_message =
      λ bytes. some (record { signature_share = 171; msg_big_int = 255; proof_c = none });
  combine_message = λ bytes shares. c;
}

-- The chain accepts, and the parts combine.
abbrev pub calm : Outside
calm =
    outside_of (accepted "tx")
      (combined "beef" (record { rejected = []; failed_subsets = []; suspects = [] }))

-- The chain refuses with an error that is not expected, and the parts do not combine.
abbrev pub rough : Outside
rough =
    outside_of (failed (rpc (detail "billed CPU time exceeded"))) (combine_error "INVALID_SHARE" [])

abbrev pub toy_pick : ℕ → ℕ → ℕ
toy_pick state n = state % n

pub toy_pick-PicksBelow : PicksBelow toy_pick
toy_pick-PicksBelow state n h k p = mod-lt state p

-- A table of two rows with the keys 3 and 7, read one row at a time.
module _ {R : Type 0} (key : R → ℕ) (a b : R) (at_3 : key a ≡ 3) (at_7 : key b ≡ 7) where
  abbrev page : Bool → Bool → Page R
  page true later = record { rows = a ∷ []; more = true; next_key = 7 }
  page false true = record { rows = b ∷ []; more = false; next_key = 0 }
  page false false = record { rows = []; more = false; next_key = 0 }

  abbrev pub two_pages : Reader R
  two_pages lower limit = ok (page (leb lower 3) (leb lower 7))

  from_rows :
      (lower : ℕ) (x y : Bool)
      → leb lower 3 ≡ x
      → leb lower 7 ≡ y
      → Answers key (a ∷ b ∷ []) lower (page x y)
  from_rows lower true y e e' = record {
    rest = b ∷ [];
    split = ground (arith, e, at_3, at_7);
    last = λ h. absurd (cc);
    further = λ h. ground (arith, at_3, at_7);
    progress = λ h. omega arith;
  }
  from_rows lower false true e e' = record {
    rest = [];
    split = ground (arith, e, e', at_3, at_7);
    last = λ h. refl;
    further = λ h. absurd (cc);
    progress = λ h. omega arith;
  }
  from_rows lower false false e e' = record {
    rest = [];
    split = ground (arith, e, e', at_3, at_7);
    last = λ h. refl;
    further = λ h. absurd (cc);
    progress = λ h. absurd (cc);
  }

  pub two_pages-IsReaderOf : IsReaderOf key (a ∷ b ∷ []) two_pages
  two_pages-IsReaderOf lower limit =
      (page (leb lower 3) (leb lower 7), refl, from_rows lower _ _ refl refl)

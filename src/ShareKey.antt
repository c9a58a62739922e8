-- ===== src/ShareKey.antt =====
-- lib/shareKeyService.js: the message that is signed, the checks around the threshold library, and
-- the screening of partial signatures. The library (`@waxio/rsa-threshold-signatures`), node's
-- SHA-256 and `nameToUint64` are parameters.
pub mod Screening
pub mod Message
pub mod Signing
pub mod Redaction
pub mod Service
use Prim.Native.Char.{code}
use wax_rng_oracle.Prelude.{
  ℕ, zero, suc, ◌+◌, ◌-◌, ◌*◌, ◌/◌, ◌%◌, ◌^◌, String, Bool, true, false, ◌&&◌, ◌||◌, not, Option,
  none, some, List, [], ◌∷◌, ◌++◌, map, ltb, leb, ◌==◌, if◌then◌else◌, length, get_elem?,
}
use wax_rng_oracle.Model.{Value, undefined, integer, text, other, Part}

-- The code points of a text.
abbrev pub codes : String → List ℕ
codes String.[] = []
codes (String.◌∷◌ c s) = code c ∷ codes s

-- `/[0-9a-f]/`
abbrev pub lower_hex : ℕ → Bool
lower_hex c = (leb b'0' c && leb c b'9') || (leb b'a' c && leb c b'f')

abbrev pub all_hex : List ℕ → Bool
all_hex [] = true
all_hex (c ∷ cs) = lower_hex c && all_hex cs

-- `PARTIAL_HEX_RE.test(text)`
abbrev nonempty_hex : List ℕ → Bool
nonempty_hex [] = false
nonempty_hex (c ∷ cs) = lower_hex c && all_hex cs

pub data Reason : Type 0 where
  index_not_integer : Reason
  signature_not_hex : Reason
  -- a reason that the library gives
  by_library : String → Reason

-- `{ position, shareIndex, reason }`
pub record Rejected : Type 0 where
  pub position : ℕ
  pub share_index : Value
  pub reason : Reason

-- `{ position, shareIndex, signatureShare }`
pub record Accepted : Type 0 where
  pub position : ℕ
  pub share_index : ℕ
  pub signature_share : String

pub record Screened : Type 0 where
  pub accepted : List Accepted
  pub rejected : List Rejected

abbrev with_accepted : Accepted → Screened → Screened
with_accepted a s = record s { accepted = a ∷ s.accepted }

abbrev with_rejected : Rejected → Screened → Screened
with_rejected r s = record s { rejected = r ∷ s.rejected }

abbrev judge_signature : ℕ → ℕ → Value → Screened → Screened
judge_signature position idx (text sig) rest =
    if nonempty_hex (codes sig)
    then with_accepted (record { position = position; share_index = idx; signature_share = sig })
        rest
    else with_rejected
        (record { position = position; share_index = integer idx; reason = signature_not_hex }) rest
judge_signature position idx _ rest =
    with_rejected
      (record { position = position; share_index = integer idx; reason = signature_not_hex }) rest

abbrev judge : ℕ → Value → Value → Screened → Screened
judge position (integer idx) sig rest = judge_signature position idx sig rest
judge position idx sig rest =
    with_rejected (record { position = position; share_index = idx; reason = index_not_integer })
      rest

-- The loop of `screenPartials`, from a position on.
pub screen_from : ℕ → List Part → Screened
screen_from position [] = record { accepted = []; rejected = [] }
screen_from position (p ∷ ps) = judge position p.idx p.sig_i (screen_from (position + 1) ps)

unfoldable pub screen_partials : List Part → Screened
unfolding screen_from
screen_partials parts = screen_from 0 parts

-- What a combination had to work around: the shares that were left out, the subsets that did not
-- verify, and the indices that every one of these implicates.
pub record Diagnostics : Type 0 where
  pub rejected : List Rejected
  pub failed_subsets : List (List ℕ)
  pub suspects : List ℕ

-- What the library's `combineSignatureMessage` does: a signature with its diagnostics, where positions
-- are those in the list that it was given, or a `CombineError`, or another error.
pub data Combined : Type 0 where
  combined : (signature : String) (diagnostics : Diagnostics) → Combined
  combine_error : (code : String) (rejected : List Rejected) → Combined
  combine_threw : Combined

-- `{ ...r, position: accepted[r.position].position }`; out of range it throws a `TypeError`.
abbrev move : List Accepted → Rejected → Option Rejected
move accepted r = elim (get_elem? accepted r.position) [
  | none ↦ none
  | some a ↦ some (record r { position = a.position })
]

abbrev push_moved : Option Rejected → Option (List Rejected) → Option (List Rejected)
push_moved (some r) (some rs) = some (r ∷ rs)
push_moved _ _ = none

pub move_all : List Accepted → List Rejected → Option (List Rejected)
move_all accepted [] = some []
move_all accepted (r ∷ rs) = push_moved (move accepted r) (move_all accepted rs)

-- The successful and the failed end of `combinePartialSignatures`.
abbrev report_success : String → Diagnostics → List Rejected → Option (List Rejected) → Combined
report_success signature d before none = combine_threw
report_success signature d before (some moved) =
    combined signature (record d { rejected = before ++ moved })

abbrev report_failure : String → List Rejected → Option (List Rejected) → Combined
report_failure code before none = combine_threw
report_failure code before (some moved) = combine_error code (before ++ moved)

abbrev report : Screened → Combined → Combined
report s (combined signature d) =
    report_success signature d s.rejected (move_all s.accepted d.rejected)
report s (combine_error code rs) =
    if length s.rejected == 0
    then combine_error code rs
    else report_failure code s.rejected (move_all s.accepted rs)
report s combine_threw = combine_threw

-- `combinePartialSignatures` of an initialised service. `library` combines shares for the message.
unfoldable pub combine_partial_signatures : ℕ → (List Accepted → Combined) → List Part → Combined
unfolding screen_partials move_all
combine_partial_signatures threshold library parts =
    let s = screen_partials parts in
    if ltb (length s.accepted) threshold
    then combine_error "INVALID_SHARE" s.rejected
    else report s (library s.accepted)

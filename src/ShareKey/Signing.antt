-- ===== src/ShareKey/Signing.antt =====
-- `sign` and `validateSignatureResult` of lib/shareKeyService.js, for an initialised service.
use wax_rng_oracle.Prelude.{
  ℕ, ◌^◌, ◌<◌, ◌≡◌, Bool, true, false, Option, none, some, List, leb, if◌then◌else◌, arith,
}

-- What the library's `signMessage` returns: integers, and the challenge of the proof if there is one.
pub record SignResult : Type 0 where
  pub signature_share : ℕ
  pub msg_big_int : ℕ
  pub proof_c : Option ℕ

-- `x.bitLength() > 256`
abbrev too_long : ℕ → Bool
too_long x = leb (2 ^ 256) x

abbrev proof_too_long : Option ℕ → Bool
proof_too_long none = false
proof_too_long (some c) = too_long c

-- A result that fails a check makes `sign` throw.
unfoldable pub validate_signature_result : ℕ → SignResult → Bool
validate_signature_result modulus r =
    if leb modulus r.signature_share
    then false
    else if too_long r.msg_big_int
    then false
    else if proof_too_long r.proof_c
    then false
    else true

abbrev checked : ℕ → Option SignResult → Option SignResult
checked modulus none = none
checked modulus (some r) = if validate_signature_result modulus r then some r else none

-- `none` if the library or a check throws.
unfoldable pub sign : ℕ → (List ℕ → Option SignResult) → List ℕ → Option SignResult
unfolding validate_signature_result
sign modulus library message = checked modulus (library message)

-- A signature that is returned is below the modulus, and its message is of at most 256 bits.
sign_bounds :
    (modulus : ℕ) (library : List ℕ → Option SignResult) (message : List ℕ) (r : SignResult)
    → sign modulus library message ≡ some r
    → (r.signature_share < modulus) × (r.msg_big_int < 2 ^ 256)
unfolding sign
sign_bounds modulus library message r e = ground arith

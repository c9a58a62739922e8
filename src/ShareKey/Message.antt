-- ===== src/ShareKey/Message.antt =====
-- `make_msg` of lib/shareKeyService.js: the bytes that are hashed and signed for a request.
use native.Mathlib.Nat.{pow-suc}
use wax_rng_oracle.Prelude.{
  ℕ, zero, suc, ◌+◌, ◌-◌, ◌*◌, ◌/◌, ◌%◌, ◌^◌, ◌<◌, String, ◌≡◌, refl, ap, ap₂, sym, ◌∙◌, ◌&&◌,
  Option, none, some, List, [], ◌∷◌, ◌++◌, arith, leb, ltb, if◌then◌else◌, length,
}
use wax_rng_oracle.ShareKey.{codes}

-- The value of a hexadecimal digit.
abbrev hex_digit : ℕ → Option ℕ
hex_digit c =
    if leb b'0' c && leb c b'9'
    then some (c - b'0')
    else if leb b'a' c && leb c b'f'
    then some (c - b'a' + 10)
    else if leb b'A' c && leb c b'F'
    then some (c - b'A' + 10)
    else none

abbrev byte_then : Option ℕ → Option ℕ → List ℕ → List ℕ
byte_then (some hi) (some lo) rest = (hi * 16 + lo) ∷ rest
byte_then _ _ rest = []

-- `Buffer.from(text, 'hex')`: pairs of digits up to the first that is none.
unfoldable pub from_hex : List ℕ → List ℕ
from_hex [] = []
from_hex (a ∷ []) = []
from_hex (a ∷ b ∷ cs) = byte_then (hex_digit a) (hex_digit b) (from_hex cs)

-- The `k` lowest bytes, the lowest first.
unfoldable pub le_bytes : ℕ → ℕ → List ℕ
le_bytes zero n = []
le_bytes (suc k) n = n % 256 ∷ le_bytes k (n / 256)

-- `Buffer.concat([seedBuf, nameBuf, nBuf])`. `writeBigUInt64LE` throws from 2^64 on.
unfoldable pub message_bytes : (String → ℕ) → String → String → ℕ → Option (List ℕ)
unfolding from_hex le_bytes
message_bytes name_to_uint64 seed dapp nonce =
    if ltb (name_to_uint64 dapp) (2 ^ 64) && ltb nonce (2 ^ 64)
    then some (from_hex (codes seed) ++ (le_bytes 8 (name_to_uint64 dapp) ++ le_bytes 8 nonce))
    else none

abbrev digest : (List ℕ → String) → Option (List ℕ) → Option String
digest sha256 none = none
digest sha256 (some bytes) = some (sha256 bytes)

unfoldable pub make_msg : (List ℕ → String) → (String → ℕ) → String → String → ℕ → Option String
unfolding message_bytes
make_msg sha256 name_to_uint64 seed dapp nonce =
    digest sha256 (message_bytes name_to_uint64 seed dapp nonce)

length-le_bytes : (k n : ℕ) → length (le_bytes k n) ≡ k
unfolding le_bytes
length-le_bytes zero n = refl
length-le_bytes (suc k) n = ap suc (length-le_bytes k (n / 256))

head_eq : {a b : ℕ} {r s : List ℕ} → ◌≡◌ {A = List ℕ} (a ∷ r) (b ∷ s) → a ≡ b
head_eq e = cc

tail_eq : {a b : ℕ} {r s : List ℕ} → ◌≡◌ {A = List ℕ} (a ∷ r) (b ∷ s) → r ≡ s
tail_eq e = cc

le_bytes-injective : (k m n : ℕ) → m < 256 ^ k → n < 256 ^ k → le_bytes k m ≡ le_bytes k n → m ≡ n
unfolding le_bytes
le_bytes-injective zero m n h h' e = omega arith
le_bytes-injective (suc k) m n h h' e = omega (
  arith,
  head_eq e,
  le_bytes-injective k (m / 256) (n / 256) (omega (arith, pow-suc 256 k))
      (omega (arith, pow-suc 256 k)) (tail_eq e),
)

append-injective :
    (r s r' s' : List ℕ) → length r ≡ length s → r ++ r' ≡ s ++ s' → (r ≡ s) × (r' ≡ s')
append-injective [] [] r' s' l e = (refl, e)
append-injective [] (b ∷ s) r' s' l e = absurd (omega arith)
append-injective (a ∷ r) [] r' s' l e = absurd (omega arith)
append-injective (a ∷ r) (b ∷ s) r' s' l e =
    let (p, q) = append-injective r s r' s' (omega arith) (tail_eq e) in (ap₂ ◌∷◌ (head_eq e) p, q)

bytes_of :
    (n m n' m' : ℕ) (seed seed' : List ℕ)
    → n < 2 ^ 64
    → m < 2 ^ 64
    → n' < 2 ^ 64
    → m' < 2 ^ 64
    → length seed ≡ length seed'
    → seed ++ (le_bytes 8 n ++ le_bytes 8 m) ≡ seed' ++ (le_bytes 8 n' ++ le_bytes 8 m')
    → (seed ≡ seed') × (n ≡ n') × (m ≡ m')
bytes_of n m n' m' seed seed' hn hm hn' hm' l e =
    let (p, q) = append-injective seed seed' _ _ l e in
    let lengths = length-le_bytes 8 n ∙ sym (length-le_bytes 8 n') in
    let (u, v) = append-injective (le_bytes 8 n) (le_bytes 8 n') _ _ lengths q in
    (
      p,
      le_bytes-injective 8 n n' (omega arith) (omega arith) u,
      le_bytes-injective 8 m m' (omega arith) (omega arith) v,
    )

some_of :
    (n m : ℕ) (found bytes : List ℕ)
    → (if ltb n (2 ^ 64) && ltb m (2 ^ 64) then some found else none) ≡ some bytes
    → (n < 2 ^ 64) × (m < 2 ^ 64) × (found ≡ bytes)
some_of n m found bytes e = ground arith

message_bytes-some :
    (name_to_uint64 : String → ℕ) (seed dapp : String) (nonce : ℕ) (bytes : List ℕ)
    → message_bytes name_to_uint64 seed dapp nonce ≡ some bytes
    → (name_to_uint64 dapp < 2 ^ 64)
      × (nonce < 2 ^ 64)
      × (from_hex (codes seed) ++ (le_bytes 8 (name_to_uint64 dapp) ++ le_bytes 8 nonce) ≡ bytes)
unfolding message_bytes
message_bytes-some name_to_uint64 seed dapp nonce bytes e = some_of _ _ _ bytes e

-- For seeds of one length, the bytes determine the seed's bytes, the dapp's name value and the
-- nonce: two requests with the same message have all three in common.
pub message_bytes-injective :
    (name_to_uint64 : String → ℕ) (seed seed' dapp dapp' : String) (nonce nonce' : ℕ)
    (bytes : List ℕ)
    → length (from_hex (codes seed)) ≡ length (from_hex (codes seed'))
    → message_bytes name_to_uint64 seed dapp nonce ≡ some bytes
    → message_bytes name_to_uint64 seed' dapp' nonce' ≡ some bytes
    → (from_hex (codes seed) ≡ from_hex (codes seed'))
      × (name_to_uint64 dapp ≡ name_to_uint64 dapp')
      × (nonce ≡ nonce')
message_bytes-injective name_to_uint64 seed seed' dapp dapp' nonce nonce' bytes l e e' =
    let (n, m, b) = message_bytes-some name_to_uint64 seed dapp nonce bytes e in
    let (n', m', b') = message_bytes-some name_to_uint64 seed' dapp' nonce' bytes e' in
    bytes_of _ _ _ _ _ _ n m n' m' l (b ∙ sym b')

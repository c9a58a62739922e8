-- ===== src/ShareKey/Service/Numbers.antt =====
-- The numbers of the configuration of lib/shareKeyService.js, which may be NaN or negative.
use wax_rng_oracle.Prelude.{
  ℕ, ◌+◌, ◌-◌, ◌*◌, String, Bool, true, false, ◌&&◌, Option, none, some, List, [], ◌∷◌, ltb, leb,
  ◌==◌, if◌then◌else◌, is_space,
}
use wax_rng_oracle.ShareKey.{codes}

-- What `parseInt(text, 10)` gives; `minus n` is -(n + 1).
pub data Parsed : Type 0 where
  not_a_number : Parsed
  minus plus : ℕ → Parsed

abbrev is_digit : ℕ → Bool
is_digit c = leb b'0' c && leb c b'9'

digits_from : ℕ → List ℕ → ℕ
digits_from n [] = n
digits_from n (c ∷ cs) =
    let more = digits_from (n * 10 + (c - b'0')) cs in if is_digit c then more else n

abbrev unsigned : List ℕ → Option ℕ
unsigned [] = none
unsigned (c ∷ cs) = if is_digit c then some (digits_from 0 (c ∷ cs)) else none

abbrev negated : Option ℕ → Parsed
negated none = not_a_number
negated (some n) = if n == 0 then plus 0 else minus (n - 1)

abbrev kept : Option ℕ → Parsed
kept none = not_a_number
kept (some n) = plus n

abbrev signed : List ℕ → Parsed
signed [] = not_a_number
signed (c ∷ cs) =
    if c == b'-'
    then negated (unsigned cs)
    else if c == b'+'
    then kept (unsigned cs)
    else kept (unsigned (c ∷ cs))

without_spaces : List ℕ → List ℕ
without_spaces [] = []
without_spaces (c ∷ cs) = let rest = without_spaces cs in if is_space c then rest else c ∷ cs

unfoldable pub parse_int : String → Parsed
unfolding digits_from without_spaces
parse_int text = signed (without_spaces (codes text))

abbrev pub parsed : Option String → Parsed
parsed none = not_a_number
parsed (some t) = parse_int t

-- `n || d`: 0 and NaN are falsy.
abbrev pub or_else : ℕ → Parsed → Parsed
or_else d not_a_number = plus d
or_else d (minus n) = minus n
or_else d (plus n) = if n == 0 then plus d else plus n

-- `x < 1` and `x > y`: every comparison with NaN is false.
abbrev pub below_one : Parsed → Bool
below_one not_a_number = false
below_one (minus n) = true
below_one (plus n) = ltb n 1

abbrev pub exceeds : Parsed → Parsed → Bool
exceeds not_a_number y = false
exceeds (minus m) not_a_number = false
exceeds (minus m) (minus n) = ltb m n
exceeds (minus m) (plus n) = false
exceeds (plus m) not_a_number = false
exceeds (plus m) (minus n) = true
exceeds (plus m) (plus n) = ltb n m

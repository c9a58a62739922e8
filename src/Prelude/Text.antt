-- ===== src/Prelude/Text.antt =====
-- The operations on strings of the language's own library that the source uses.
pub mod Decimal
use Prim.Native.Char.{code}
use Prim.Native.Nat.{ℕ, zero, suc, ◌+◌, ◌/◌, ◌%◌}
use Prim.Native.String.{String, slice, ◌++◌}
use mathlib.Core.Bool.{Bool, true, false, ◌&&◌, ◌||◌}
use mathlib.Core.Option.{none, some}
use mathlib.Core.List.{List, [], ◌∷◌}
use text.Mathlib.Text.{find?}
use wax_rng_oracle.Prelude.Tests.{ltb, leb, ◌==◌, if◌then◌else◌}
pub use text.Mathlib.Text.{◌==◌ as text_eq}
pub use text.Mathlib.TextEquality.{eq_iff as text_eq_iff}

-- `text.includes(part)`
pub includes : String → String → Bool
includes text part = elim (find? text part) [ none ↦ false | some at ↦ true ]

-- The digits of a number in a base up to 16, put in front of `rest`.
digits : ℕ → ℕ → ℕ → String → String
digits base zero n rest = rest
digits base (suc fuel) n rest =
    let longer = slice "0123456789abcdef" (n % base) (n % base + 1) ++ rest in
    let more = digits base fuel (n / base) longer in if ltb n base then longer else more

-- `String(n)`. A number has at most n + 1 digits.
unfoldable pub decimal : ℕ → String
unfolding digits
decimal n = digits 10 (suc n) n ""

-- `n.toString(16)`
unfoldable pub hexadecimal : ℕ → String
unfolding digits
hexadecimal n = digits 16 (suc n) n ""

-- `array.join(separator)`
unfoldable pub join : String → List String → String
join separator [] = ""
join separator (s ∷ []) = s
join separator (s ∷ t ∷ rest) = s ++ separator ++ join separator (t ∷ rest)

-- JavaScript's white space and line terminators, which `\s` matches and `trim` removes.
abbrev pub is_space : ℕ → Bool
is_space c =
    (leb 9 c && leb c 13)
    || (c == 32
        || (c == 160
            || (c == 0x1680
                || ((leb 0x2000 c && leb c 0x200a)
                    || (c == 0x2028
                        || (c == 0x2029
                            || (c == 0x202f || (c == 0x205f || (c == 0x3000 || c == 0xfeff)))))))))

trim_end : String → String
trim_end String.[] = ""
trim_end (String.◌∷◌ c s) =
    let rest = trim_end s in if is_space (code c) && text_eq rest "" then "" else String.◌∷◌ c rest

trim_start : String → String
trim_start String.[] = ""
trim_start (String.◌∷◌ c s) =
    let rest = trim_start s in if is_space (code c) then rest else String.◌∷◌ c s

-- `text.trim()`
unfoldable pub trim : String → String
unfolding trim_start trim_end
trim s = trim_start (trim_end s)

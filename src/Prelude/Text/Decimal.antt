-- ===== src/Prelude/Text/Decimal.antt =====
-- A number can be read off its decimal text.
use Prim.Native.Char.{Char, code}
use Prim.Native.Nat.{ℕ, zero, suc, ◌+◌, ◌-◌, ◌*◌, ◌/◌, ◌%◌, ◌<◌}
use Prim.Native.String.{String, slice, ◌++◌}
use mathlib.Core.Path.{◌≡◌, refl, sym, ap, ◌∙◌}
use mathlib.Core.Logic.{inl, inr}
use native.Mathlib.Omega.{arith}
use text.Mathlib.TextLemmas.{cons-append, nil-append}
use wax_rng_oracle.Prelude.Tests.{ltb, Bool-cases}
use wax_rng_oracle.Prelude.Text.{digits, decimal}

read_on : ℕ → String → ℕ
read_on k String.[] = k
read_on k (String.◌∷◌ c s) = read_on (k * 10 + (code c - b'0')) s

read_on-cons :
    (c : Char) (k : ℕ) (rest : String)
    → read_on k (String.◌∷◌ c String.[] ++ rest) ≡ read_on (k * 10 + (code c - b'0')) rest
unfolding read_on
read_on-cons c k rest = rw (cons-append, nil-append) refl

read_on-digit :
    (d k : ℕ) (rest : String)
    → d < 10
    → read_on k (slice "0123456789abcdef" d (d + 1) ++ rest) ≡ read_on (k * 10 + d) rest
unfolding read_on
read_on-digit zero k rest h = read_on-cons "0" k rest
read_on-digit (suc zero) k rest h = read_on-cons "1" k rest
read_on-digit (suc (suc zero)) k rest h = read_on-cons "2" k rest
read_on-digit (suc (suc (suc zero))) k rest h = read_on-cons "3" k rest
read_on-digit (suc (suc (suc (suc zero)))) k rest h = read_on-cons "4" k rest
read_on-digit (suc (suc (suc (suc (suc zero))))) k rest h = read_on-cons "5" k rest
read_on-digit (suc (suc (suc (suc (suc (suc zero)))))) k rest h = read_on-cons "6" k rest
read_on-digit (suc (suc (suc (suc (suc (suc (suc zero))))))) k rest h = read_on-cons "7" k rest
read_on-digit (suc (suc (suc (suc (suc (suc (suc (suc zero)))))))) k rest h =
    read_on-cons "8" k rest
read_on-digit (suc (suc (suc (suc (suc (suc (suc (suc (suc zero))))))))) k rest h =
    read_on-cons "9" k rest
read_on-digit (suc (suc (suc (suc (suc (suc (suc (suc (suc (suc d)))))))))) k rest h =
    absurd (omega (arith, h))

digits-read :
    (fuel n : ℕ) (rest : String) → n < fuel → read_on 0 (digits 10 fuel n rest) ≡ read_on n rest
unfolding digits
digits-read zero n rest h = absurd (omega (arith, h))
digits-read (suc fuel) n rest h = elim (Bool-cases (ltb n 10)) [
  | inl small ↦ rw small (
      read_on-digit (n % 10) 0 rest (omega arith)
      ∙ ap (λ (k : ℕ). read_on k rest) (ground (arith, small)))
  | inr large ↦
      let next = slice "0123456789abcdef" (n % 10) (n % 10 + 1) ++ rest in
      rw large (
        digits-read fuel (n / 10) next (ground (arith, large, h))
        ∙ read_on-digit (n % 10) (n / 10) rest (omega arith)
        ∙ ap (λ (k : ℕ). read_on k rest) (omega arith))
]

-- Two numbers with one decimal text are equal.
pub decimal-injective : (n k : ℕ) → decimal n ≡ decimal k → n ≡ k
unfolding decimal read_on
decimal-injective n k e =
    sym (digits-read (suc n) n "" (omega arith))
    ∙ ap (read_on 0) e
    ∙ digits-read (suc k) k "" (omega arith)

-- ===== src/DepFloors/Printed.antt =====
-- Versions as texts, for `parseVersion` of scripts/check-dep-floors.js.
use wax_rng_oracle.Prelude.{
  ℕ, zero, suc, ◌+◌, ◌-◌, ◌*◌, ◌/◌, ◌%◌, ◌≤◌, ◌<◌, ◌≡◌, refl, ap, ◌∙◌, true, false, Option, none,
  some, List, [], ◌∷◌, arith, ltb, if◌then◌else◌, is_space, All, Bool-cases, inl, inr,
}
use wax_rng_oracle.DepFloors.{
  Version, is_digit, is_prerelease, number_from, take_number, prerelease_from, some_text,
  take_prerelease, with_patch, with_minor, with_major, drop_spaces, parse_version,
}

-- The digits of a number in front of a text; `fuel` of the number itself is enough.
digits : ℕ → ℕ → List ℕ → List ℕ
digits zero n rest = (n + b'0') ∷ rest
digits (suc fuel) n rest =
    let longer = digits fuel (n / 10) ((n % 10 + b'0') ∷ rest) in
    if ltb n 10 then (n + b'0') ∷ rest else longer

unfoldable pub print_number : ℕ → List ℕ → List ℕ
unfolding digits
print_number n rest = digits n n rest

abbrev print_prerelease : Option (List ℕ) → List ℕ
print_prerelease none = []
print_prerelease (some p) = b'-' ∷ p

-- A version as semver writes it.
unfoldable pub print_version : Version → List ℕ
unfolding print_number
print_version v =
    print_number v.major
      (b'.' ∷ print_number v.minor (b'.' ∷ print_number v.patch (print_prerelease v.prerelease)))

-- A text that no number goes on into.
abbrev Ends : List ℕ → Type 0
Ends [] = Unit
Ends (c ∷ cs) = is_digit c ≡ false

number_from-Ends : (n : ℕ) (rest : List ℕ) → Ends rest → number_from n rest ≡ (n, rest)
unfolding number_from
number_from-Ends n [] h = refl
number_from-Ends n (c ∷ cs) h = rw h refl

number_from-digit :
    (n d : ℕ) (rest : List ℕ)
    → d < 10
    → number_from n ((d + b'0') ∷ rest) ≡ number_from (n * 10 + d) rest
unfolding number_from
number_from-digit n d rest h =
    let e : is_digit (d + b'0') ≡ true = ground arith in
    let k : n * 10 + (d + b'0' - b'0') ≡ n * 10 + d = omega arith in rw (e, k) refl

number_from-first :
    (d : ℕ) (rest : List ℕ) → d < 10 → number_from 0 ((d + b'0') ∷ rest) ≡ number_from d rest
number_from-first d rest h =
    number_from-digit 0 d rest h ∙ ap (λ (k : ℕ). number_from k rest) (omega arith)

number_from-digits :
    (fuel n : ℕ) (rest : List ℕ)
    → n ≤ fuel
    → number_from 0 (digits fuel n rest) ≡ number_from n rest
unfolding digits
number_from-digits zero n rest h = number_from-first n rest (omega arith)
number_from-digits (suc fuel) n rest h = elim (Bool-cases (ltb n 10)) [
  | inl small ↦ rw small (number_from-first n rest (ground (arith, small)))
  | inr large ↦ rw large (
      number_from-digits fuel (n / 10) ((n % 10 + b'0') ∷ rest) (ground (arith, large, h))
      ∙ number_from-digit (n / 10) (n % 10) rest (omega arith)
      ∙ ap (λ (k : ℕ). number_from k rest) (omega arith))
]

-- A text that starts with a digit.
abbrev Starts : List ℕ → Type 0
Starts [] = ⊥
Starts (c ∷ cs) = is_digit c ≡ true

digits-Starts : (fuel n : ℕ) (rest : List ℕ) → n ≤ fuel → Starts (digits fuel n rest)
unfolding digits
digits-Starts zero n rest h = ground arith
digits-Starts (suc fuel) n rest h = elim (Bool-cases (ltb n 10)) [
  | inl small ↦ rw small (ground (arith, small))
  | inr large ↦
      rw large (digits-Starts fuel (n / 10) ((n % 10 + b'0') ∷ rest) (ground (arith, large, h)))
]

take_number-Starts : (cs : List ℕ) → Starts cs → take_number cs ≡ some (number_from 0 cs)
take_number-Starts [] h = absurd h
take_number-Starts (c ∷ cs) h = rw h refl

take_number-print :
    (n : ℕ) (rest : List ℕ) → Ends rest → take_number (print_number n rest) ≡ some (n, rest)
unfolding print_number
take_number-print n rest h =
    take_number-Starts (digits n n rest) (digits-Starts n n rest (omega arith))
    ∙ ap some (number_from-digits n n rest (omega arith) ∙ number_from-Ends n rest h)

drop_spaces-Starts : (cs : List ℕ) → Starts cs → drop_spaces cs ≡ cs
unfolding drop_spaces
drop_spaces-Starts [] h = refl
drop_spaces-Starts (c ∷ cs) h = let e : is_space c ≡ false = ground (arith, h) in rw e refl

print_number-Starts : (n : ℕ) (rest : List ℕ) → Starts (print_number n rest)
unfolding print_number
print_number-Starts n rest = digits-Starts n n rest (omega arith)

-- A prerelease is absent, or a text of the characters of the pattern.
abbrev pub IsPrerelease : Option (List ℕ) → Type 0
IsPrerelease none = Unit
IsPrerelease (some []) = ⊥
IsPrerelease (some (c ∷ cs)) = All (λ x. is_prerelease x ≡ true) (c ∷ cs)

prerelease_from-all : (cs : List ℕ) → All (λ x. is_prerelease x ≡ true) cs → prerelease_from cs ≡ cs
unfolding prerelease_from
prerelease_from-all [] h = refl
prerelease_from-all (c ∷ cs) h = rw (h.0, prerelease_from-all cs h.1) refl

take_prerelease-print :
    (p : Option (List ℕ)) → IsPrerelease p → take_prerelease (print_prerelease p) ≡ p
take_prerelease-print none h = refl
take_prerelease-print (some []) h = absurd h
take_prerelease-print (some (c ∷ cs)) h = ap some_text (prerelease_from-all (c ∷ cs) h)

print_prerelease-Ends : (p : Option (List ℕ)) → Ends (print_prerelease p)
print_prerelease-Ends none = tt
print_prerelease-Ends (some p) = refl

-- What `parseVersion` reads of a version that is written as semver writes it is that version.
pub parse_version-print :
    (v : Version) → IsPrerelease v.prerelease → parse_version (print_version v) ≡ some v
unfolding parse_version print_version
parse_version-print v h =
    ap (λ (cs : List ℕ). with_major (take_number cs))
      (drop_spaces-Starts _ (print_number-Starts v.major _))
    ∙ ap with_major (take_number-print v.major _ refl)
    ∙ ap (with_minor v.major) (take_number-print v.minor _ refl)
    ∙ ap (with_patch v.major v.minor) (
        take_number-print v.patch (print_prerelease v.prerelease)
          (print_prerelease-Ends v.prerelease))
    ∙ ap
        (λ (p : Option (List ℕ)).
          some (record { major = v.major; minor = v.minor; patch = v.patch; prerelease = p }))
        (take_prerelease-print v.prerelease h)

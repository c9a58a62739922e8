-- ===== src/DepFloors/Installed/Seen.antt =====
-- What the walk of scripts/check-dep-floors.js has seen: how much is left, and that it only grows.
use mathlib.Core.List.{Memᴰ}
use wax_rng_oracle.Prelude.{
  ℕ, suc, ◌≤◌, ◌≡◌, inl, inr, refl, subst, String, true, false, not, List, [], ◌∷◌, arith, text_eq,
  text_eq_iff, keep, length, Bool-cases,
}
use wax_rng_oracle.DepFloors.{Copy}
use wax_rng_oracle.DepFloors.Installed.{Walked, is_among}

-- How many of the paths are not seen yet.
abbrev pub unseen : List String → List String → ℕ
unseen seen paths = length (keep (λ r. not (is_among r seen)) paths)

pub unseen-le :
    (seen seen' paths : List String)
    → ((r : String) → is_among r seen ≡ true → is_among r seen' ≡ true)
    → unseen seen' paths ≤ unseen seen paths
unseen-le seen seen' [] h = omega arith
unseen-le seen seen' (x ∷ xs) h = ground (arith, h x, unseen-le seen seen' xs h)

pub among-cons :
    (r x : String) (xs : List String) → is_among r xs ≡ true → is_among r (x ∷ xs) ≡ true
among-cons r x xs h = ground (arith, h)

pub among-head : (r : String) (xs : List String) → is_among r (r ∷ xs) ≡ true
among-head r xs = ground (arith, (text_eq_iff r r).1 refl)

pub unseen-cons :
    (r : String) (seen paths : List String)
    → is_among r paths ≡ true
    → is_among r seen ≡ false
    → suc (unseen (r ∷ seen) paths) ≤ unseen seen paths
unseen-cons r seen [] h k = absurd (cc)
unseen-cons r seen (x ∷ xs) h k = elim (Bool-cases (text_eq r x)) [
  | inl same ↦
      let e : r ≡ x = (text_eq_iff r x).0 same in
      ground (
        arith,
        subst (λ (t : String). is_among t seen ≡ false) e k,
        subst (λ (t : String). is_among t (r ∷ seen) ≡ true) e (among-head r seen),
        unseen-le seen (r ∷ seen) xs (λ t p. among-cons t r seen p),
      )
  | inr other ↦
      ground (arith, unseen-cons r seen xs (ground (arith, other, h)) k, among-cons x r seen)
]

-- A later state has seen and found more.
pub record Grows (s s' : Walked) : Type 0 where
  pub seen : (r : String) → is_among r s.seen ≡ true → is_among r s'.seen ≡ true
  pub found : (c : Copy) → Memᴰ c s.found → Memᴰ c s'.found

pub Grows-refl : (s : Walked) → Grows s s
Grows-refl s = record { seen = λ r h. h; found = λ c m. m }

pub Grows-trans : (s t u : Walked) → Grows s t → Grows t u → Grows s u
Grows-trans s t u g h = record {
  seen = λ r p. h.seen r (g.seen r p);
  found = λ c m. h.found c (g.found c m);
}

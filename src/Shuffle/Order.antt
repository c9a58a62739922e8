-- ===== src/Shuffle/Order.antt =====
-- The shuffle changes the order and nothing else.
use mathlib.Core.List.{Perm}
use mathlib.Core.List.Perm
use wax_rng_oracle.Prelude.{
  ℕ, zero, suc, ◌+◌, ◌≤◌, ◌<◌, ◌≡◌, refl, ◌∙◌, ◌⊎◌, inl, some, List, [], ◌∷◌, arith, length,
  get_elem?, set, length-set,
}
use wax_rng_oracle.Shuffle.{advance, seeded, swap, PicksBelow, rounds, shuffle_array}
use wax_rng_oracle.Shuffle.Random.{advance_bounds, seeded_bounds}

get_elem?-some {ℓ} :
    {A : Type ℓ} (xs : List A) (i : ℕ) → i < length xs → (a : A) × (get_elem? xs i ≡ some a)
get_elem?-some [] i h = elim h [ ]
get_elem?-some (x ∷ xs) zero h = (x, refl)
get_elem?-some (x ∷ xs) (suc i) h = get_elem?-some xs i (omega arith)

-- Exchanging an element outside the list with one inside.
exchange-perm {ℓ} :
    {A : Type ℓ} (xs : List A) (j : ℕ) (a y : A)
    → get_elem? xs j ≡ some y
    → Perm (y ∷ set xs j a) (a ∷ xs)
exchange-perm [] j a y h = cc
exchange-perm (b ∷ xs) zero a y h = let e : b ≡ y = cc in rw e (Perm.swap a y xs)
exchange-perm (b ∷ xs) (suc j) a y h =
    Perm.trans (Perm.swap b y (set xs j a))
      (Perm.trans (Perm.cons b (exchange-perm xs j a y h)) (Perm.swap a b xs))

set_both-perm {ℓ} :
    {A : Type ℓ} (xs : List A) (i j : ℕ) (x y : A)
    → get_elem? xs i ≡ some x
    → get_elem? xs j ≡ some y
    → Perm (set (set xs i y) j x) xs
set_both-perm [] i j x y h k = cc
set_both-perm (a ∷ xs) zero zero x y h k = let e : a ≡ x = cc in rw e (Perm.refl (x ∷ xs))
set_both-perm (a ∷ xs) zero (suc j) x y h k = let e : a ≡ x = cc in rw e (exchange-perm xs j x y k)
set_both-perm (a ∷ xs) (suc i) zero x y h k = let e : a ≡ y = cc in rw e (exchange-perm xs i y x h)
set_both-perm (a ∷ xs) (suc i) (suc j) x y h k = Perm.cons a (set_both-perm xs i j x y h k)

swap-perm {ℓ} :
    {A : Type ℓ} (xs : List A) (i j : ℕ)
    → i < length xs
    → j < length xs
    → (ys : List A) × (swap xs i j ≡ some ys) × Perm ys xs × (length ys ≡ length xs)
unfolding swap
swap-perm xs i j hi hj =
    let (x, ex) = get_elem?-some xs i hi in
    let (y, ey) = get_elem?-some xs j hj in
    (
      set (set xs i y) j x,
      rw (ex, ey),
      set_both-perm xs i j x y ex ey,
      length-set (set xs i y) j x ∙ length-set xs i y,
    )

rounds-perm {ℓ} :
    {A : Type ℓ} (pick : ℕ → ℕ → ℕ)
    → PicksBelow pick
    → (i seed : ℕ) (xs : List A) → 1 ≤ seed
    → seed ≤ 2147483646
    → i < length xs ⊎ (i ≡ 0)
    → (ys : List A) × (rounds pick i seed xs ≡ some ys) × Perm ys xs
unfolding rounds
rounds-perm pick below zero seed xs lo hi h = (xs, refl, Perm.refl xs)
rounds-perm pick below (suc i) seed xs lo hi h =
    let state = advance seed in
    let b = advance_bounds seed lo hi in
    let k = below state (suc i + 1) b.0 b.1 (omega arith) in
    let (ys, e, p, l) =
      swap-perm xs (suc i) (pick state (suc i + 1)) (ground arith) (ground arith) in
    let (zs, e', p') = rounds-perm pick below i state ys b.0 b.1 (inl (omega arith)) in
    (zs, rw (e, e'), Perm.trans p' p)

-- If the float product is below its bound, the shuffle never leaves the array, and its result is a
-- permutation of the array.
pub shuffle_array-perm {ℓ} :
    {A : Type ℓ} (pick : ℕ → ℕ → ℕ)
    → PicksBelow pick
    → (xs : List A) (seed : ℕ) → (ys : List A) × (shuffle_array pick xs seed ≡ some ys) × Perm ys xs
unfolding shuffle_array
shuffle_array-perm pick below [] seed = ([], refl, Perm.refl [])
shuffle_array-perm pick below (x ∷ []) seed = (x ∷ [], refl, Perm.refl (x ∷ []))
shuffle_array-perm pick below (x ∷ y ∷ xs) seed =
    let b = seeded_bounds seed in
    rounds-perm pick below (length (y ∷ xs)) (seeded seed) (x ∷ y ∷ xs) b.0 b.1 (inl (omega arith))

-- ===== src/Prelude/TextOrder.antt =====
-- `compare` is a total order of texts.
use Prim.Native.Nat.{Ordering}
use Prim.Native.String.compare
use Prim.Native.String.{String, [], ◌∷◌, compare}
use mathlib.Core.Path.{◌≡◌}
use native.Mathlib.Omega.{arith}

pub compare_flip_gt : (s t : String) → compare s t ≡ Ordering.gt → compare t s ≡ Ordering.lt
compare_flip_gt [] [] h = cc
compare_flip_gt [] (d ∷ t) h = cc (compare.nil-cons d t)
compare_flip_gt (c ∷ s) [] h = compare.nil-cons c s
compare_flip_gt (c ∷ s) (d ∷ t) h =
    rw compare.cons-cons
      (let h' = (rw compare.cons-cons at h) in ground (arith, h', compare_flip_gt s t))

pub compare_flip_lt : (s t : String) → compare s t ≡ Ordering.lt → compare t s ≡ Ordering.gt
compare_flip_lt [] [] h = cc
compare_flip_lt [] (d ∷ t) h = compare.cons-nil d t
compare_flip_lt (c ∷ s) [] h = cc (compare.cons-nil c s)
compare_flip_lt (c ∷ s) (d ∷ t) h =
    rw compare.cons-cons
      (let h' = (rw compare.cons-cons at h) in ground (arith, h', compare_flip_lt s t))

pub compare_trans :
    (s t u : String)
    → compare s t ≡ Ordering.lt
    → compare t u ≡ Ordering.lt
    → compare s u ≡ Ordering.lt
compare_trans [] (d ∷ t) (e ∷ u) p q = compare.nil-cons e u
compare_trans (c ∷ s) (d ∷ t) (e ∷ u) p q = rw compare.cons-cons (
    let p' = (rw compare.cons-cons at p) in
    let q' = (rw compare.cons-cons at q) in ground (arith, p', q', compare_trans s t u))
compare_trans [] [] u p q = cc
compare_trans [] (d ∷ t) [] p q = cc (compare.cons-nil d t)
compare_trans (c ∷ s) [] u p q = cc (compare.cons-nil c s)
compare_trans (c ∷ s) (d ∷ t) [] p q = cc (compare.cons-nil d t)

-- ===== src/Storage/Fingerprint/Order.antt =====
-- The fingerprint of a job's parts does not depend on the order in which the chain lists them.
use mathlib.Core.List.Permᴰ
use mathlib.Core.List.{Perm, Permᴰ}
use mathlib.Core.Logic.{∥∥₁_elim}
use text.Mathlib.TextPositions.{compare_refl}
use text.Mathlib.TextEquality.{IsScalar-prop, path_by_compare}
use wax_rng_oracle.Prelude.{String, ◌≡◌, refl, ap, ◌∙◌, join, List, [], ◌∷◌, arith}
use wax_rng_oracle.Prelude.TextOrder.{compare_flip_gt, compare_flip_lt, compare_trans}
use wax_rng_oracle.Model.{Part}
use wax_rng_oracle.Storage.Fingerprint.{insert, sort, row, parts_fingerprint}

insert_comm : (s t : String) (l : List String) → insert s (insert t l) ≡ insert t (insert s l)
unfolding insert
insert_comm s t [] = ground (
  arith,
  compare_flip_gt s t,
  compare_flip_lt s t,
  path_by_compare s t,
  compare_flip_gt t s,
  compare_flip_lt t s,
)
insert_comm s t (x ∷ l) = ground (
  arith,
  insert_comm s t l,
  compare_flip_gt s t,
  compare_flip_lt s t,
  path_by_compare s t,
  compare_flip_gt t s,
  compare_flip_lt t s,
  path_by_compare s x,
  path_by_compare t x,
  compare_trans s t x,
  compare_trans t s x,
  compare_flip_gt t x,
  compare_flip_gt s x,
  compare_flip_lt x s,
  compare_flip_lt x t,
  compare_trans x s t,
  compare_trans x t s,
  compare_refl x,
)

sort-permᴰ : {l m : List String} → Permᴰ l m → sort l ≡ sort m
unfolding sort
sort-permᴰ Permᴰ.nil = refl
sort-permᴰ (Permᴰ.cons {a = a} e p) = rw (e, sort-permᴰ p)
sort-permᴰ (Permᴰ.swap {a = a} {b = b} {l = l} e e') = rw (e, e') (insert_comm _ _ (sort l))
sort-permᴰ (Permᴰ.trans p q) = sort-permᴰ p ∙ sort-permᴰ q

String-set : IsSet String
String-set = hlevel IsScalar-prop

-- Two lists of parts that are permutations of each other have one fingerprint.
pub parts_fingerprint-perm :
    (sha256 : String → String) (parts parts' : List Part)
    → Perm parts parts'
    → parts_fingerprint sha256 parts ≡ parts_fingerprint sha256 parts'
unfolding parts_fingerprint
parts_fingerprint-perm sha256 parts parts' p =
    ∥∥₁_elim p (String-set _ _) λ q. ap (λ l. sha256 (join "|" l)) (sort-permᴰ (Permᴰ.map row q))

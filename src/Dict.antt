-- ===== src/Dict.antt =====
-- A JavaScript object whose keys are the decimal texts of numbers, as `db.failures` and
-- `db.delivery_failures` (lib/storage.js) are. Such keys are enumerated in ascending order.
pub mod Table
use wax_rng_oracle.Prelude.{
  ℕ, ◌≡◌, refl, Option, none, some, List, [], ◌∷◌, map, arith, ◌==◌, ltb, if◌then◌else◌, any,
}

abbrev pub Dict {ℓ} : Type ℓ → Type ℓ
Dict V = List (ℕ × V)

module _ {ℓ} {V : Type ℓ} where
  -- `object[key]`; `none` is undefined
  unfoldable pub lookup : ℕ → Dict V → Option V
  lookup k [] = none
  lookup k ((j, v) ∷ d) = if j == k then some v else lookup k d

  -- `object[key] = value`
  unfoldable pub put : ℕ → V → Dict V → Dict V
  put k v [] = (k, v) ∷ []
  put k v ((j, w) ∷ d) =
      let later = put k v d in
      if j == k then (k, v) ∷ d else if ltb k j then (k, v) ∷ (j, w) ∷ d else (j, w) ∷ later

  -- `delete object[key]`
  unfoldable pub remove : ℕ → Dict V → Dict V
  remove k [] = []
  remove k ((j, v) ∷ d) = let rest = remove k d in if j == k then rest else (j, v) ∷ rest

  -- `for (let id of ids) delete object[id]`
  unfoldable pub remove_all : List ℕ → Dict V → Dict V
  remove_all [] d = d
  remove_all (k ∷ ks) d = remove_all ks (remove k d)

  -- `Object.values(object)`
  unfoldable pub values : Dict V → List V
  values d = map (λ e. e.1) d

  pub lookup-put :
      (k j : ℕ) (v : V) (d : Dict V)
      → lookup j (put k v d) ≡ (if k == j then some v else lookup j d)
  unfolding lookup put
  lookup-put k j v [] = refl
  lookup-put k j v ((i, w) ∷ d) = ground (arith, lookup-put k j v d)

  pub lookup-remove :
      (k j : ℕ) (d : Dict V) → lookup j (remove k d) ≡ (if k == j then none else lookup j d)
  unfolding lookup remove
  lookup-remove k j [] = ground arith
  lookup-remove k j ((i, v) ∷ d) = ground (arith, lookup-remove k j d)

  pub lookup-remove_all :
      (ks : List ℕ) (j : ℕ) (d : Dict V)
      → lookup j (remove_all ks d) ≡ (if any (λ k. k == j) ks then none else lookup j d)
  unfolding remove_all
  lookup-remove_all [] j d = refl
  lookup-remove_all (k ∷ ks) j d =
      ground (arith, lookup-remove_all ks j (remove k d), lookup-remove k j d)

pub ruleset dict_laws = (lookup-put, lookup-remove, lookup-remove_all)

-- ===== src/Dict/Table.antt =====
-- A dictionary whose records hold their own keys, in ascending order: what the failure records are.
use wax_rng_oracle.Prelude.{
  ℕ, ◌<◌, ◌≡◌, refl, Bool, false, Option, none, some, List, [], ◌∷◌, map, arith, ◌==◌, any, keep,
}
use wax_rng_oracle.Dict.{Dict, lookup, put, remove, remove_all, values}

module _ {ℓ} {V : Type ℓ} where
  -- Every key is above `j`.
  abbrev pub Above : ℕ → Dict V → Type 0
  Above j [] = Unit
  Above j ((k, v) ∷ d) = (j < k) × Above j d

  abbrev pub IsTable : (V → ℕ) → Dict V → Type 0
  IsTable key [] = Unit
  IsTable key ((k, v) ∷ d) = (key v ≡ k) × Above k d × IsTable key d

  -- A test of a record that may be absent.
  abbrev pub test : (V → Bool) → Option V → Bool
  test p none = false
  test p (some v) = p v

  Above-trans : (i j : ℕ) (d : Dict V) → i < j → Above j d → Above i d
  Above-trans i j [] h a = tt
  Above-trans i j ((k, v) ∷ d) h a = (omega arith, Above-trans i j d h a.1)

  Above-put : (j k : ℕ) (v : V) (d : Dict V) → j < k → Above j d → Above j (put k v d)
  unfolding put
  Above-put j k v [] h a = (h, tt)
  Above-put j k v ((i, w) ∷ d) h a = ground (arith, Above-put j k v d h a.1)

  Above-remove : (j k : ℕ) (d : Dict V) → Above j d → Above j (remove k d)
  unfolding remove
  Above-remove j k [] a = tt
  Above-remove j k ((i, w) ∷ d) a = ground (arith, Above-remove j k d a.1)

  lookup-Above : (k : ℕ) (d : Dict V) → Above k d → lookup k d ≡ none
  unfolding lookup
  lookup-Above k [] a = refl
  lookup-Above k ((i, w) ∷ d) a = ground (arith, lookup-Above k d a.1)

module _ {ℓ} {V : Type ℓ} (key : V → ℕ) where
  pub put-IsTable :
      (k : ℕ) (v : V) (d : Dict V) → key v ≡ k → IsTable key d → IsTable key (put k v d)
  unfolding put
  put-IsTable k v [] e t = (e, tt, tt)
  put-IsTable k v ((i, w) ∷ d) e t =
      ground (arith, Above-put i k v d, Above-trans k i d, put-IsTable k v d e t.2)

  pub remove-IsTable : (k : ℕ) (d : Dict V) → IsTable key d → IsTable key (remove k d)
  unfolding remove
  remove-IsTable k [] t = tt
  remove-IsTable k ((i, w) ∷ d) t = ground (arith, Above-remove i k d t.1, remove-IsTable k d t.2)

  pub remove_all-IsTable :
      (ks : List ℕ) (d : Dict V) → IsTable key d → IsTable key (remove_all ks d)
  unfolding remove_all
  remove_all-IsTable [] d t = t
  remove_all-IsTable (k ∷ ks) d t = remove_all-IsTable ks (remove k d) (remove-IsTable k d t)

  -- The keys of the records that pass a test are those at which a record that passes is found.
  pub any-keep-values :
      (p : V → Bool) (k : ℕ) (d : Dict V)
      → IsTable key d
      → any (λ i. i == k) (map key (keep p (values d))) ≡ test p (lookup k d)
  unfolding lookup values
  any-keep-values p k [] t = refl
  any-keep-values p k ((i, v) ∷ d) t =
      ground (arith, any-keep-values p k d t.2, lookup-Above i d t.1)

  pub key-lookup : (k : ℕ) (d : Dict V) {v : V} → IsTable key d → lookup k d ≡ some v → key v ≡ k
  unfolding lookup
  key-lookup k [] {v} t h = cc
  key-lookup k ((i, w) ∷ d) {v} t h = ground (arith, key-lookup k d {v = v} t.2)

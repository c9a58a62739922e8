-- ===== src/ConfigLoader/Once.antt =====
-- One configuration for the whole process, and plain values never in place of secrets
-- (lib/config/configLoader.js).
use wax_rng_oracle.Prelude.{
  ◌≡◌, inl, inr, refl, true, false, none, some, List, [], ◌∷◌, Bool-cases, All,
}
use wax_rng_oracle.ConfigLoader.{
  Environment, Failed, Given, gives, fails, Required, missing, there, Loaded, loaded, rethrown,
  refused, keep_instance, require_either, load_config, load_all, Calls, deployment_expects_secrets,
  is_wax_config_missing,
}

module _ {C : Type 0} where
  -- Where a configuration may come from at a call: the library of secrets, or, if that library itself
  -- is not installed and no variable expects secrets, the plain one.
  pub data Comes (env : Environment) (wax : Required C) (plain : Given C) (c : C) : Type 0 where
    of_secrets : wax ≡ there (gives c) → Comes env wax plain c
    of_plain :
        (e : Failed)
        → wax ≡ missing e
        → is_wax_config_missing e ≡ true
        → deployment_expects_secrets env ≡ false
        → plain ≡ gives c
        → Comes env wax plain c

  -- A result is the configuration or an error.
  abbrev pub GivesOnly : C → Loaded C → Type 0
  GivesOnly c (loaded d) = d ≡ c
  GivesOnly c (rethrown e) = ⊥
  GivesOnly c refused = ⊥

  -- Calls that throw, up to the first that returns; all later ones return the same.
  pub OneConfig : Calls C → List (Loaded C) → Type 0
  OneConfig [] [] = Unit
  OneConfig ((env, (wax, plain)) ∷ calls) (loaded c ∷ results) =
      Comes env wax plain c × All (GivesOnly c) results
  OneConfig (call ∷ calls) (rethrown e ∷ results) = OneConfig calls results
  OneConfig (call ∷ calls) (refused ∷ results) = OneConfig calls results
  OneConfig _ _ = ⊥

  same_later : (calls : Calls C) (c : C) → All (GivesOnly c) (load_all calls (some c))
  unfolding load_all load_config
  same_later [] c = tt
  same_later ((env, (wax, plain)) ∷ calls) c = (refl, same_later calls c)

  -- The first result with the rest, by what the first call did.
  kept :
      (env : Environment) (wax : Required C) (plain given : Given C) (calls : Calls C)
      → ((c : C) → given ≡ gives c → Comes env wax plain c)
      → OneConfig calls (load_all calls none)
      → let r = keep_instance given in
        OneConfig ((env, (wax, plain)) ∷ calls) (r.0 ∷ load_all calls r.1)
  unfolding OneConfig
  kept env wax plain (gives c) calls from rest = (from c refl, same_later calls c)
  kept env wax plain (fails e) calls from rest = rest

  first_call :
      (env : Environment) (wax : Required C) (plain : Given C) (calls : Calls C)
      → OneConfig calls (load_all calls none)
      → let r = require_either env wax plain in
        OneConfig ((env, (wax, plain)) ∷ calls) (r.0 ∷ load_all calls r.1)
  unfolding OneConfig
  first_call env (there given) plain calls rest =
      kept env (there given) plain given calls (λ c e. of_secrets (rw e refl)) rest
  first_call env (missing e) plain calls rest = elim (Bool-cases (is_wax_config_missing e)) [
    | inl own ↦ elim (Bool-cases (deployment_expects_secrets env)) [
      | inl expects ↦ rw (own, expects) rest
      | inr open_source ↦
          rw (own, open_source)
            (kept env (missing e) plain plain calls (λ c p. of_plain e refl own open_source p) rest)
    ]
    | inr inner ↦ rw inner rest
  ]

  -- Whatever `require` and the libraries do at each call, calls of `loadConfig` throw up to the first that
  -- returns, and from then on all return that configuration. It comes of the library of secrets, or
  -- of the plain one if at that call the library of secrets itself is not installed and no variable
  -- of the environment expects secrets.
  pub load_all-OneConfig : (calls : Calls C) → OneConfig calls (load_all calls none)
  unfolding load_all load_config OneConfig
  load_all-OneConfig [] = tt
  load_all-OneConfig ((env, (wax, plain)) ∷ calls) =
      first_call env wax plain calls (load_all-OneConfig calls)

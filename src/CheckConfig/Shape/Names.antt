-- ===== src/CheckConfig/Shape/Names.antt =====
-- The checks of lib/checkConfig.js that do not read the chain are named before those that do.
use wax_rng_oracle.Prelude.{
  ℕ, ◌≤◌, String, ◌≡◌, Bool, true, false, ◌&&◌, Option, none, some, List, [], ◌∷◌, ◌++◌, arith,
  ◌==◌, if◌then◌else◌, any-false, ltb, All, All-append,
}
use wax_rng_oracle.CheckConfig.{
  node_env, chain_id_shape, api_url, accounts, permission_name, max_cpu, share_params, db_file,
  express_port, metrics_port, slack_webhook, cluster_mode, read_only_mode, signing_key, ok, fail,
  warn, skip, Name, Status, Entry, entry, Config, number_of, has, has_status,
}
use wax_rng_oracle.CheckConfig.Shape.{
  Files, DerivedKey, check_runtime, check_chain_id, check_api_url, check_accounts, check_max_cpu,
  check_share_params, check_db_file, check_express_port, check_metrics_port, check_slack,
  check_modes, check_shape, check_signing_key, parsed_key,
}

-- Every name is one of the first fourteen.
pub record IsEarly (report : List Entry) : Type 0 where
  pub names : All (λ (e : Entry). number_of e.name ≤ 13) report

IsEarly-append : (xs ys : List Entry) → IsEarly xs → IsEarly ys → IsEarly (xs ++ ys)
IsEarly-append xs ys h k = record { names = All-append _ xs ys h.names k.names }

either : (b : Bool) (xs ys : List Entry) → IsEarly xs → IsEarly ys → IsEarly (if b then xs else ys)
either true xs ys h k = h
either false xs ys h k = k

none-IsEarly : IsEarly []
none-IsEarly = record { names = tt }

one : (n : Name) (s : Status) → number_of n ≤ 13 → IsEarly (entry n s ∷ [])
one n s h = record { names = (h, tt) }

two :
    (n m : Name) (s t : Status)
    → number_of n ≤ 13
    → number_of m ≤ 13
    → IsEarly (entry n s ∷ entry m t ∷ [])
two n m s t h k = record { names = (h, (k, tt)) }

-- A check that is reported by one entry whatever its test gives.
report_of :
    (b : Bool) (n : Name) (s t : Status)
    → number_of n ≤ 13
    → IsEarly (if b then entry n s ∷ [] else entry n t ∷ [])
report_of b n s t h = either b _ _ (one n s h) (one n t h)

pub check_runtime-IsEarly : (env : Option String) → IsEarly (check_runtime env)
unfolding check_runtime
check_runtime-IsEarly none = one node_env warn (omega arith)
check_runtime-IsEarly (some env) =
    either _ _ _ (one node_env fail (omega arith)) (report_of _ node_env warn ok (omega arith))

check_max_cpu-IsEarly : (c : Config) → IsEarly (check_max_cpu c)
unfolding check_max_cpu
check_max_cpu-IsEarly c =
    elim c.max_cpu
      as (λ o. IsEarly (elim o [
        | none ↦ entry max_cpu fail ∷ []
        | some n ↦ if ltb 150 n then entry max_cpu warn ∷ [] else entry max_cpu ok ∷ []
      ])) [
        | none ↦ one max_cpu fail (omega arith)
        | some n ↦ report_of (ltb 150 n) max_cpu warn ok (omega arith)
      ]

check_accounts-IsEarly : (c : Config) → IsEarly (check_accounts c)
unfolding check_accounts
check_accounts-IsEarly c = either _ _ _ (one accounts fail (omega arith)) (
    either _ _ _ (two accounts permission_name ok warn (omega arith) (omega arith))
      (one accounts ok (omega arith)))

check_share_params-IsEarly : (c : Config) → IsEarly (check_share_params c)
unfolding check_share_params
check_share_params-IsEarly c = either _ _ _ (one share_params fail (omega arith)) (
    either _ _ _ (one share_params ok (omega arith))
      (two share_params share_params ok warn (omega arith) (omega arith)))

pub check_shape-IsEarly :
    (protocol : String → Option String) (f : Files) (c : Config)
    → IsEarly (check_shape protocol f c)
unfolding check_shape check_chain_id check_api_url check_db_file check_express_port
    check_metrics_port check_slack check_modes
check_shape-IsEarly protocol f c =
    IsEarly-append _ _ (report_of _ chain_id_shape fail ok (omega arith)) (
      IsEarly-append _ _ (report_of _ api_url fail ok (omega arith)) (
        IsEarly-append _ _ (check_accounts-IsEarly c) (
          IsEarly-append _ _ (check_max_cpu-IsEarly c) (
            IsEarly-append _ _ (check_share_params-IsEarly c) (
              IsEarly-append _ _
                (either _ _ _ (report_of _ db_file warn ok (omega arith))
                  (one db_file fail (omega arith)))
                (IsEarly-append _ _
                  (either _ _ _ (report_of _ express_port ok fail (omega arith))
                    (one express_port skip (omega arith)))
                  (IsEarly-append _ _ (report_of _ metrics_port ok fail (omega arith)) (
                    IsEarly-append _ _
                      (either _ _ _ (one slack_webhook skip (omega arith))
                        (report_of _ slack_webhook warn ok (omega arith)))
                      (IsEarly-append _ _
                        (either _ _ _ (one cluster_mode warn (omega arith)) none-IsEarly)
                        (either _ _ _ (one read_only_mode warn (omega arith)) none-IsEarly))))))))))

signing_key-IsEarly :
    (b : Bool) (k : Option DerivedKey)
    → IsEarly (if b then (entry signing_key fail ∷ [], none) else parsed_key k).0
signing_key-IsEarly true k = one signing_key fail (omega arith)
signing_key-IsEarly false none = one signing_key fail (omega arith)
signing_key-IsEarly false (some k) = one signing_key ok (omega arith)

pub check_signing_key-IsEarly :
    (derive : String → Option DerivedKey) (c : Config) → IsEarly (check_signing_key derive c).0
unfolding check_signing_key
check_signing_key-IsEarly derive c = signing_key-IsEarly _ _

other_number : (a b : ℕ) (q : Bool) → a ≤ 13 → 14 ≤ b → (a == b && q) ≡ false
other_number a b q h k = ground arith

-- A later name is not among them.
pub has-IsEarly :
    (n : Name) (s : Status) (xs : List Entry) → 14 ≤ number_of n → IsEarly xs → has n s xs ≡ false
has-IsEarly n s xs h k = any-false _ xs (each xs k.names)
  where
    each :
        (ys : List Entry)
        → All (λ (e : Entry). number_of e.name ≤ 13) ys
        → All (λ (e : Entry). (number_of e.name == number_of n && has_status s e) ≡ false) ys
    each [] k = tt
    each (y ∷ ys) k = (other_number (number_of y.name) (number_of n) _ k.0 h, each ys k.1)

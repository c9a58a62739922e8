-- ===== src/CheckConfig/Share/Compared.antt =====
-- The check of a staged share of lib/checkConfig.js against what the boot checks accept.
use wax_rng_oracle.Prelude.{◌≡◌, refl, true, false, Option, none, [], ◌∷◌, ◌==◌}
use wax_rng_oracle.BootChecks.{Verified, unparseable, checked}
use wax_rng_oracle.BootChecks.Rows.{PublicKey, Fetched, got, lost}
use wax_rng_oracle.BootChecks.Constant.{accepts, accepts_key}
use wax_rng_oracle.ShareKey.Service.{Parameters, Library, verify_consistency}
use wax_rng_oracle.CheckConfig.{Name, share_consistent, ok, Config, number_of, has}
use wax_rng_oracle.CheckConfig.Chain.{key_read}
use wax_rng_oracle.CheckConfig.Share.{
  shares_configured, verified_entry, compare_share, started_service, check_share,
}

verified-consistent : (v : Verified) → has share_consistent ok (verified_entry v ∷ []) ≡ accepts v
verified-consistent unparseable = refl
verified-consistent (checked true names) = refl
verified-consistent (checked false names) = refl

verified-other :
    (n : Name) (v : Verified)
    → (23 == number_of n) ≡ false
    → has n ok (verified_entry v ∷ []) ≡ false
verified-other n unparseable h = rw h refl
verified-other n (checked true names) h = rw h refl
verified-other n (checked false names) h = rw h refl

pub compare-consistent :
    (verify : PublicKey → Verified) (k : Fetched PublicKey)
    → has share_consistent ok (compare_share verify (key_read k)) ≡ accepts_key verify k
compare-consistent verify (got k) = verified-consistent (verify k)
compare-consistent verify (lost e) = refl

pub compare-other :
    (n : Name) (verify : PublicKey → Verified) (k : Fetched PublicKey)
    → (22 == number_of n) ≡ false
    → (23 == number_of n) ≡ false
    → has n ok (compare_share verify (key_read k)) ≡ false
compare-other n verify (got k) h22 h23 = rw h22 (verified-other n (verify k) h23)
compare-other n verify (lost e) h22 h23 = rw (h22, h23) refl

pub check_share-staged :
    (library : Library) (consistency : Parameters → PublicKey → Verified) (c : Config)
    (on_chain : Option PublicKey)
    → (shares_configured c.share_key).0 ≡ 6
    → (shares_configured c.share_key).1 ≡ 0
    → (started_service library consistency c).0 ≡ none
    → check_share library consistency c on_chain
      ≡ compare_share
          (verify_consistency consistency (started_service library consistency c).1)
          on_chain
unfolding check_share
check_share-staged library consistency c on_chain e g f = rw (e, g, f) refl

-- ===== src/Startup/Vetted.antt =====
-- What a process has checked when it polls (index.js).
use wax_rng_oracle.Prelude.{
  subst, ℕ, ◌≡◌, refl, String, true, ◌&&◌, Option, none, some, List, ◌==◌, Bool-cases, inl, inr,
}
use wax_rng_oracle.BootChecks.{Status, checked, run_boot_checks}
use wax_rng_oracle.BootChecks.Rows.{PublicKey}
use wax_rng_oracle.BootChecks.Sound.{Seen, run_boot_checks-Confirmed}
use wax_rng_oracle.ShareKey.Service.{
  Parsed, not_a_number, minus, plus, Parameters, Failure, Service, new_service, initialize,
  verify_consistency,
}
use wax_rng_oracle.Storage.{DbFile, Storage}
use wax_rng_oracle.Poller.{Member}
use wax_rng_oracle.CheckConfig.{is_true}
use wax_rng_oracle.Startup.{
  Setup, World, Startup, fatal, primary, worker, is_test_env, new_poller, launch, with_storage,
  after_boot, with_index, with_service, run,
}

module _ (s : Setup) (w : World) where
  abbrev pub service : Service
  service = (initialize w.library (new_service s.share_key)).1

  -- The service initialized; the boot checks passed under the share's index; and the member acts on the
  -- version of the key that they saw.
  pub record Vetted (m : Member) : Type 0 where
    pub initialized : (initialize w.library (new_service s.share_key)).0 ≡ none
    pub parameters : Parameters
    pub configured : service.parameters ≡ some parameters
    pub share_index : ℕ
    pub own : parameters.share_index ≡ plus share_index
    pub public_key : PublicKey
    pub names : List String
    pub seen :
        Seen s.boot_check w.rpc w.version_key s.node_owner
          (some public_key.ver)
          public_key
          share_index
    pub consistent : verify_consistency w.consistency service public_key ≡ checked true names
    pub version : m.active_key_version ≡ some public_key.ver

  -- A process that polls has a vetted member.
  abbrev pub Good : Startup → Type 0
  Good fatal = Unit
  Good (primary workers) = Unit
  Good (worker serving polls m db) = Vetted m

  launch-Good : (m : Member) (db : Storage) → Vetted m → Good (launch s m db)
  launch-Good m db v = elim (Bool-cases (is_true s.cluster_mode && s.is_primary)) [
    | inl p ↦ rw p tt
    | inr p ↦ rw p v
  ]

  with_storage-Good :
      (m : Member) (i : ℕ) (file : Option DbFile) → Vetted m → Good (with_storage s m i file)
  with_storage-Good m i none v = tt
  with_storage-Good m i (some file) v = elim (Bool-cases (i == 0)) [
    | inl p ↦ rw p tt
    | inr p ↦ rw p (launch-Good m _ v)
  ]

  module _ (starts : (initialize w.library (new_service s.share_key)).0 ≡ none) (p : Parameters)
      (configured : service.parameters ≡ some p) (i : ℕ) (own : p.share_index ≡ plus i) where
    abbrev status : Status
    status =
        (run_boot_checks s.boot_check w.rpc w.version_key s.node_owner i
          (verify_consistency w.consistency service)).0

    vetted : status.ok ≡ true → Vetted (new_poller s service status.active_ver)
    unfolding new_poller
    vetted passed =
        let c =
          run_boot_checks-Confirmed s.boot_check w.rpc w.version_key s.node_owner i
            (verify_consistency w.consistency service) passed in
        record {
          initialized = starts;
          parameters = p;
          configured = configured;
          share_index = i;
          own = own;
          public_key = c.public_key;
          names = c.names;
          seen =
              subst
                (λ (v : Option ℕ).
                  Seen s.boot_check w.rpc w.version_key s.node_owner v c.public_key i)
                c.seen.ver c.seen;
          consistent = c.consistent;
          version = c.seen.ver;
        }

    after_boot-Good : Good (after_boot s w service i status)
    after_boot-Good = elim (Bool-cases status.ok) [
      | inl passed ↦ rw passed (with_storage-Good _ i w.file (vetted passed))
      | inr failed ↦ rw failed tt
    ]

  index-Good :
      (starts : (initialize w.library (new_service s.share_key)).0 ≡ none) (p : Parameters)
      (x : Parsed)
      → service.parameters ≡ some p
      → p.share_index ≡ x
      → Good (with_index s w service (some p))
  index-Good starts p not_a_number c e = rw e tt
  index-Good starts p (minus n) c e = rw e tt
  index-Good starts p (plus i) c e = rw e (after_boot-Good starts p c i e)

  with_index-Good :
      (starts : (initialize w.library (new_service s.share_key)).0 ≡ none) (o : Option Parameters)
      → service.parameters ≡ o
      → Good (with_index s w service o)
  with_index-Good starts none e = tt
  with_index-Good starts (some p) e = index-Good starts p p.share_index e refl

  with_service-Good :
      (f : Option Failure)
      → (initialize w.library (new_service s.share_key)).0 ≡ f
      → Good (with_service s w (f, service))
  with_service-Good (some failure) e = tt
  with_service-Good none e = with_index-Good e service.parameters refl

  pub run-Good : Good (run s w)
  unfolding run
  run-Good = elim (Bool-cases (is_test_env s.node_env)) [
    | inl test ↦ rw test tt
    | inr other ↦
        rw other (with_service-Good (initialize w.library (new_service s.share_key)).0 refl)
  ]

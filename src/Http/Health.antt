-- ===== src/Http/Health.antt =====
-- What a good health check says of the process that gives it (lib/controller/health-check.js with
-- lib/bootChecks.js).
use wax_rng_oracle.Prelude.{
  ℕ, String, ◌≡◌, refl, sym, subst, ap, ◌∙◌, Bool, true, Option, some, arith, ok,
}
use wax_rng_oracle.BootChecks.{Status, Settings, Verified, run_boot_checks}
use wax_rng_oracle.BootChecks.Rows.{Rpc, PublicKey}
use wax_rng_oracle.BootChecks.Sound.{Confirmed, run_boot_checks-Confirmed}
use wax_rng_oracle.Http.{
  Response, Server, health_request, health_body, get_boot_check_status, get_status, respond,
}

-- The status is 200 only for a node that answers and boot checks that passed.
good_status :
    (eos : Bool) (last : Status)
    → (get_status eos (some (get_boot_check_status last))).status ≡ 200
    → (eos ≡ true) × (last.ok ≡ true)
unfolding get_status get_boot_check_status
good_status eos last e = (ground (arith, e), ground (arith, e))

good_body :
    (eos : Bool) (last : Status) (ver : ℕ)
    → eos ≡ true
    → last.ok ≡ true
    → last.active_ver ≡ some ver
    → (get_status eos (some (get_boot_check_status last))).body
      ≡ health_body (record {
        healthy = true;
        eos = true;
        boot_check = some (record (get_boot_check_status last) { active_ver = some ver });
      })
unfolding get_status get_boot_check_status
good_body eos last ver node passed e = rw (node, passed, e) refl

-- If a server that remembers how the boot checks ended answers the health check with 200, then the
-- node answers now, and of at most the configured number of attempts of the boot checks one saw, on
-- the chain, an active key that is not retired and the member under the index of its share, and
-- found the share consistent with that key; and the body of the answer shows the version of that key.
pub respond-Confirmed :
    (is_int : Option String → Bool) (v : Server) (c : Settings) (rpc : ℕ → Rpc) (key owner : String)
    (share_index : ℕ) (verify : PublicKey → Verified) (r : Response)
    → v.last_status ≡ (run_boot_checks c rpc key owner share_index verify).0
    → respond is_int v health_request ≡ ok r
    → r.status ≡ 200
    → (v.eos ≡ true)
      × ((p : Confirmed c rpc key owner share_index verify v.last_status) × (r.body
            ≡ health_body (record {
              healthy = true;
              eos = true;
              boot_check = some (record (get_boot_check_status v.last_status) {
                active_ver = some p.public_key.ver;
              });
            })))
unfolding respond get_status get_boot_check_status
respond-Confirmed is_int v c rpc key owner share_index verify r remembered e good =
    let answer : get_status v.eos (some (get_boot_check_status v.last_status)) ≡ r = cc in
    let (node, passed) =
      good_status v.eos v.last_status (ap (λ (x : Response). x.status) answer ∙ good) in
    let p : Confirmed c rpc key owner share_index verify v.last_status =
      subst (Confirmed c rpc key owner share_index verify) (sym remembered) (
        run_boot_checks-Confirmed c rpc key owner share_index verify
          (ap (λ (x : Status). x.ok) (sym remembered) ∙ passed)) in
    (
      node,
      (
        p,
        ap (λ (x : Response). x.body) (sym answer)
            ∙ good_body v.eos v.last_status p.public_key.ver node passed p.seen.ver,
      ),
    )

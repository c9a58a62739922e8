-- ===== src/DepFloors/Met.antt =====
-- When scripts/check-dep-floors.js accepts what is installed.
use wax_rng_oracle.Prelude.{
  ℕ, ◌<◌, ◌≡◌, ◌≢◌, ◌↔◌, ◌⊎◌, refl, String, Bool, true, false, ◌&&◌, Option, none, some, List, [],
  ◌∷◌, arith, text_eq, keep, All,
}
use wax_rng_oracle.DepFloors.{
  Version, parse_version, Order, or_compare, compare_prereleases, compare_parsed, compare_versions,
  Copy, version_text, is_met, judged, Report, add, check_copies, check_mine, Floor, check_all,
  check_floors,
}

-- No version is less than one that it has a prerelease of, and a prerelease is less than its version.
abbrev NoLess : Option (List ℕ) → Option (List ℕ) → Type 0
NoLess none q = Unit
NoLess (some p) none = ⊥
NoLess (some p) (some q) = Unit

-- The order of versions by their numbers, the first that differs deciding.
abbrev pub AtLeast : Version → Version → Type 0
AtLeast v w =
    (w.major < v.major)
    ⊎ ((v.major ≡ w.major)
        × ((w.minor < v.minor)
            ⊎ ((v.minor ≡ w.minor)
                × ((w.patch < v.patch)
                    ⊎ ((v.patch ≡ w.patch) × NoLess v.prerelease w.prerelease)))))

-- A version that parses and is no less than the floor, which parses.
abbrev pub Satisfies : Option Version → Option Version → Type 0
Satisfies none w = ⊥
Satisfies (some v) none = ⊥
Satisfies (some v) (some w) = AtLeast v w

or_compare_iff :
    (a b : ℕ) (next : Order) (P : Type 0)
    → (is_met next ≡ true) ↔ P
    → (is_met (or_compare a b next) ≡ true) ↔ ((b < a) ⊎ ((a ≡ b) × P))
or_compare_iff a b next P h = (λ e. ground (arith, h.0, e), λ e. ground (arith, h.1, e))

prereleases_iff : (p q : Option (List ℕ)) → (is_met (compare_prereleases p q) ≡ true) ↔ NoLess p q
prereleases_iff none none = (λ e. tt, λ t. refl)
prereleases_iff none (some q) = (λ e. tt, λ t. refl)
prereleases_iff (some p) none = (λ e. absurd (cc), λ t. absurd t)
prereleases_iff (some p) (some q) = (λ e. tt, λ t. refl)

compare_parsed_iff : (v w : Option Version) → (is_met (compare_parsed v w) ≡ true) ↔ Satisfies v w
compare_parsed_iff none w = (λ e. absurd (cc), λ t. absurd t)
compare_parsed_iff (some v) none = (λ e. absurd (cc), λ t. absurd t)
compare_parsed_iff (some v) (some w) = or_compare_iff v.major w.major _ _ (
    or_compare_iff v.minor w.minor _ _
      (or_compare_iff v.patch w.patch _ _ (prereleases_iff v.prerelease w.prerelease)))

-- The copies of the name, in the order in which they were found.
abbrev pub mine : String → List Copy → List Copy
mine name copies = keep (λ c. text_eq c.name name) copies

-- At least one copy of the package is installed, and the version of each satisfies the floor.
pub record IsMet (copies : List Copy) (f : Floor) : Type 0 where
  pub installed : mine f.name copies ≢ []
  pub each :
      All
        (λ (c : Copy). Satisfies (parse_version (version_text c.version)) (parse_version f.version))
        (mine f.name copies)

and_both : (a b : Bool) → (a && b) ≡ true → (a ≡ true) × (b ≡ true)
and_both a b h = ground (arith, h)

both_and : (a b : Bool) → a ≡ true → b ≡ true → (a && b) ≡ true
both_and a b h k = rw (h, k) refl

no_and : (a : Bool) → (a && false) ≢ true
no_and a h = ground (arith, h)

check_copies-ok :
    (floor : List ℕ) (cs : List Copy) (r : Report)
    → ((check_copies floor cs r).ok ≡ true) ↔ (
        (r.ok ≡ true)
        × All
            (λ (c : Copy). Satisfies (parse_version (version_text c.version)) (parse_version floor))
            cs)
unfolding check_copies compare_versions
check_copies-ok floor [] r = (λ e. (e, tt), λ p. p.0)
check_copies-ok floor (c ∷ cs) r =
    let order = compare_versions (version_text c.version) floor in
    let ih = check_copies-ok floor cs (add (judged c order) r) in
    let one = compare_parsed_iff (parse_version (version_text c.version)) (parse_version floor) in
    (
      λ e.
          let q = ih.0 e in
          let both = and_both r.ok (is_met order) q.0 in (both.0, (one.0 both.1, q.1)),
      λ p. ih.1 (both_and r.ok (is_met order) p.0 (one.1 p.1.0), p.1.1),
    )

cons_nonempty : (c : Copy) (cs : List Copy) → c ∷ cs ≢ []
cons_nonempty c cs e = cc

check_mine-ok :
    (name : String) (floor : List ℕ) (cs : List Copy) (r : Report)
    → ((check_mine name floor cs r).ok ≡ true) ↔ (
        (r.ok ≡ true)
        × ((cs ≢ [])
            × All
                (λ (c : Copy).
                  Satisfies (parse_version (version_text c.version)) (parse_version floor))
                cs))
check_mine-ok name floor [] r = (λ e. absurd (no_and r.ok e), λ p. absurd (p.1.0 refl))
check_mine-ok name floor (c ∷ cs) r =
    let h = check_copies-ok floor (c ∷ cs) r in
    (λ e. let q = h.0 e in (q.0, (cons_nonempty c cs, q.1)), λ p. h.1 (p.0, p.1.1))

check_all-ok :
    (copies : List Copy) (fs : List Floor) (r : Report)
    → ((check_all copies fs r).ok ≡ true) ↔ ((r.ok ≡ true) × All (IsMet copies) fs)
unfolding check_all
check_all-ok copies [] r = (λ e. (e, tt), λ p. p.0)
check_all-ok copies (f ∷ fs) r =
    let h = check_mine-ok f.name f.version (mine f.name copies) r in
    let ih = check_all-ok copies fs (check_mine f.name f.version (mine f.name copies) r) in
    (
      λ e.
          let q = ih.0 e in
          let m = h.0 q.0 in (m.0, (record { installed = m.1.0; each = m.1.1 }, q.1)),
      λ p. ih.1 (h.1 (p.0, (p.1.0.installed, p.1.0.each)), p.1.1),
    )

-- The check passes exactly when, for every floor, at least one copy of its package is installed and each
-- copy has a version that parses and is no less than the floor by its numbers, the first that
-- differs deciding, where a prerelease is less than the version itself.
pub check_floors_iff :
    (copies : List Copy) (floors : List Floor)
    → ((check_floors copies floors).ok ≡ true) ↔ All (IsMet copies) floors
unfolding check_floors
check_floors_iff copies floors =
    let h = check_all-ok copies floors (record { ok = true; lines = [] }) in
    (λ e. (h.0 e).1, λ p. h.1 (refl, p))

-- ===== src/DepFloors/Installed/Complete.antt =====
-- That the check of scripts/check-dep-floors.js judges every installed copy.
use mathlib.Core.List.{Memᴰ}
use mathlib.Core.List.Memᴰ
use wax_rng_oracle.Prelude.{
  ℕ, suc, ◌≡◌, ◌⊎◌, inl, inr, refl, sym, ap, ◌∙◌, subst, String, Bool, true, false, not, Option,
  some, List, [], ◌∷◌, map, arith, text_eq, text_eq_iff, keep, length, All, Bool-cases,
  length-keep-le,
}
use wax_rng_oracle.DepFloors.{Copy, Floor}
use wax_rng_oracle.DepFloors.Installed.{
  Disk, Package, list_package_dirs, Walked, Walk, finished, is_among, nested, copy_of,
  find_installed_copies,
}
use wax_rng_oracle.DepFloors.{Report, parse_version, version_text, check_floors}
use wax_rng_oracle.DepFloors.Met.{Satisfies, IsMet, mine, check_floors_iff}
use wax_rng_oracle.DepFloors.Installed.{report_of, check_tree}
use wax_rng_oracle.DepFloors.Installed.Seen.{among-cons}
use wax_rng_oracle.DepFloors.Installed.Visits.{Done, Sound, walk-Enters}

-- The directories that the walk may reach.
pub data Reaches (disk : Disk) (packages : String → List Package) (root : String)
    : String → Type 0 where
  at_root : Reaches disk packages root root
  inside :
      {d : String} (p : Package)
      → Reaches disk packages root d
      → Memᴰ p (packages d)
      → Reaches disk packages root (nested disk p)

-- A package of another path of the same directory.
pub record Twin (disk : Disk) (p : Package) (ps : List Package) : Type 0 where
  pub twin : Package
  pub there : Memᴰ twin ps
  pub name : twin.name ≡ p.name
  pub version : disk.manifest twin.dir ≡ disk.manifest p.dir
  pub real : disk.real (nested disk twin) ≡ disk.real (nested disk p)

-- A copy of the package was found, with its version.
record Found (disk : Disk) (p : Package) (w : Walk) : Type 0 where
  pub state : Walked
  pub ends : w ≡ finished state
  pub copy : Copy
  pub there : Memᴰ copy state.found
  pub name : copy.name ≡ p.name
  pub version : copy.version ≡ disk.manifest p.dir

module _ (disk : Disk) (wanted : List String) (packages : String → List Package)
    (listed : (d : String) → list_package_dirs disk d ≡ some (packages d))
    (same : (d d' : String) (p : Package)
      → disk.real d ≡ disk.real d'
      → Memᴰ p (packages d)
      → Twin disk p (packages d'))
    (s : Walked) (sound : Sound disk wanted packages listed [] s) where
  seen-Done : (r : String) → is_among r s.seen ≡ true → Done disk wanted packages listed s r
  seen-Done r h = elim (sound r h) [ inl early ↦ absurd (cc) | inr d ↦ d ]

  Reaches-seen :
      (root d : String)
      → is_among (disk.real root) s.seen ≡ true
      → Reaches disk packages root d
      → is_among (disk.real d) s.seen ≡ true
  Reaches-seen root d h at_root = h
  Reaches-seen root d h (inside {d = d'} p r m) =
      let done = seen-Done (disk.real d') (Reaches-seen root d' h r) in
      let t = same d' done.dir p (sym done.at) m in
      subst (λ (x : String). is_among x s.seen ≡ true) t.real (done.each t.twin t.there).entered

  Found-copy :
      (d : String) (p : Package) (w : Walk)
      → w ≡ finished s
      → is_among (disk.real d) s.seen ≡ true
      → Memᴰ p (packages d)
      → is_among p.name wanted ≡ true
      → Found disk p w
  Found-copy d p w e h m k =
      let done = seen-Done (disk.real d) h in
      let t = same d done.dir p (sym done.at) m in
      record {
        state = s;
        ends = e;
        copy = copy_of disk t.twin;
        there =
            (done.each t.twin t.there).copied (ap (λ (n : String). is_among n wanted) t.name ∙ k);
        name = t.name;
        version = t.version;
      }

-- Every package of a floor in a directory that is reached is found.
find_installed_copies-Found :
    (disk : Disk) (packages : String → List Package) (paths : List String) (root : String)
    (floors : List Floor) (d : String) (p : Package)
    → ((d' : String) → list_package_dirs disk d' ≡ some (packages d'))
    → ((d' : String) → (packages d' ≡ []) ⊎ (is_among (disk.real d') paths ≡ true))
    → ((d' d'' : String) (q : Package)
        → disk.real d' ≡ disk.real d''
        → Memᴰ q (packages d')
        → Twin disk q (packages d''))
    → Reaches disk packages root d
    → Memᴰ p (packages d)
    → is_among p.name (map (λ f. f.name) floors) ≡ true
    → Found disk p (find_installed_copies disk (suc (length paths)) root floors)
unfolding find_installed_copies
find_installed_copies-Found disk packages paths root floors d p listed finite same r m k =
    let wanted = map (λ f. f.name) floors in
    let start : Walked = record { seen = []; found = [] } in
    let e =
      walk-Enters disk wanted packages listed paths finite (suc (length paths)) root start []
        (λ t h. absurd (cc)) (omega (arith, length-keep-le (λ t. not (is_among t [])) paths)) in
    Found-copy disk wanted packages listed same e.result.state e.result.sound d p _ e.result.ends
      (Reaches-seen disk wanted packages listed same e.result.state e.result.sound root d e.entered
        r)
      m k

All-Memᴰ {ℓ} : {A : Type ℓ} (P : A → Type 0) (xs : List A) (x : A) → All P xs → Memᴰ x xs → P x
All-Memᴰ P [] x h m = absurd (Memᴰ.not-nil m)
All-Memᴰ P (y ∷ ys) x h (Memᴰ.head e) = subst P (sym e) h.0
All-Memᴰ P (y ∷ ys) x h (Memᴰ.tail m) = All-Memᴰ P ys x h.1 m

kept {ℓ} :
    {A : Type ℓ} (test : A → Bool) (xs : List A) (x : A)
    → Memᴰ x xs
    → test x ≡ true
    → Memᴰ x (keep test xs)
kept test [] x m k = absurd (Memᴰ.not-nil m)
kept test (y ∷ ys) x (Memᴰ.head e) k =
    let t : test y ≡ true = ap test (sym e) ∙ k in rw (t, keep) (Memᴰ.head e)
kept test (y ∷ ys) x (Memᴰ.tail m) k = elim (Bool-cases (test y)) [
  | inl taken ↦ rw (taken, keep) (Memᴰ.tail (kept test ys x m k))
  | inr left ↦ rw (left, keep) (kept test ys x m k)
]

among-floor :
    (floors : List Floor) (f : Floor) (name : String)
    → Memᴰ f floors
    → name ≡ f.name
    → is_among name (map (λ g. g.name) floors) ≡ true
among-floor [] f name m n = absurd (Memᴰ.not-nil m)
among-floor (g ∷ floors) f name (Memᴰ.head e) n =
    let t : text_eq name g.name ≡ true =
      (text_eq_iff name g.name).1 (n ∙ ap (λ (x : Floor). x.name) e) in
    rw t refl
among-floor (g ∷ floors) f name (Memᴰ.tail m) n =
    among-cons name g.name _ (among-floor floors f name m n)

-- The check ends, and if it passes the copy satisfies the floor.
pub record Judged (p : Package) (disk : Disk) (f : Floor) (o : Option Report) : Type 0 where
  pub report : Report
  pub ends : o ≡ some report
  pub verdict :
      (report.ok ≡ false)
      ⊎ Satisfies (parse_version (version_text (disk.manifest p.dir))) (parse_version f.version)

accepted :
    (disk : Disk) (copies : List Copy) (floors : List Floor) (p : Package) (f : Floor) (c : Copy)
    → Memᴰ c copies
    → c.name ≡ p.name
    → c.version ≡ disk.manifest p.dir
    → Memᴰ f floors
    → p.name ≡ f.name
    → (check_floors copies floors).ok ≡ true
    → Satisfies (parse_version (version_text (disk.manifest p.dir))) (parse_version f.version)
accepted disk copies floors p f c there name version k n passed =
    let met : IsMet copies f =
      All-Memᴰ (IsMet copies) floors f ((check_floors_iff copies floors).0 passed) k in
    let mine_too =
      kept (λ x. text_eq x.name f.name) copies c there ((text_eq_iff c.name f.name).1 (name ∙ n)) in
    subst
      (λ (v : Option (List ℕ)).
        Satisfies (parse_version (version_text v)) (parse_version f.version))
      version
      (All-Memᴰ
        (λ (x : Copy). Satisfies (parse_version (version_text x.version)) (parse_version f.version))
        (mine f.name copies) c met.each mine_too)

-- Where no directory of a scope is unreadable, the directories with packages have at most finitely many real
-- paths, and two paths of one directory list the same packages, the check of a tree ends with fuel for
-- one more level than there are real paths; and it fails unless, in every directory that nested
-- node_modules reach, the version of every package of a floor satisfies that floor.
pub check_tree-Judged :
    (disk : Disk) (packages : String → List Package) (paths : List String) (root : String)
    (floors : List Floor) (d : String) (p : Package) (f : Floor)
    → ((d' : String) → list_package_dirs disk d' ≡ some (packages d'))
    → ((d' : String) → (packages d' ≡ []) ⊎ (is_among (disk.real d') paths ≡ true))
    → ((d' d'' : String) (q : Package)
        → disk.real d' ≡ disk.real d''
        → Memᴰ q (packages d')
        → Twin disk q (packages d''))
    → Reaches disk packages root d
    → Memᴰ p (packages d)
    → Memᴰ f floors
    → p.name ≡ f.name
    → Judged p disk f (check_tree disk (suc (length paths)) root floors)
unfolding check_tree
check_tree-Judged disk packages paths root floors d p f listed finite same r m k n =
    let c =
      find_installed_copies-Found disk packages paths root floors d p listed finite same r m
        (among-floor floors f p.name k n) in
    let report = check_floors c.state.found floors in
    record {
      report = report;
      ends = ap (λ (w : Walk). report_of w floors) c.ends;
      verdict = elim (Bool-cases report.ok) [
        | inl passed ↦
            inr (accepted disk c.state.found floors p f c.copy c.there c.name c.version k n passed)
        | inr failed ↦ inl failed
      ];
    }

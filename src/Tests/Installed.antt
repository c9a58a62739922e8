-- ===== src/Tests/Installed.antt =====
-- scripts/check-dep-floors.js at concrete inputs: an installed tree with a nested copy.
use mathlib.Core.List.{Memᴰ}
use wax_rng_oracle.Prelude.{
  String, none, Bool, true, false, subst, inl, inr, ◌⊎◌, if◌then◌else◌, text_eq, join, ◌≡◌, refl,
  some, List, [], ◌∷◌,
}
use wax_rng_oracle.ShareKey.{codes}
use wax_rng_oracle.DepFloors.{Version, parse_version, Copy, floors, check_floors}
use wax_rng_oracle.DepFloors.Printed.{print_version, parse_version-print}
use wax_rng_oracle.DepFloors.Installed.{
  Dirent, Disk, Package, list_package_dirs, is_among, nested, check_tree,
}
use wax_rng_oracle.DepFloors.Installed.Complete.{
  Reaches, at_root, inside, Twin, Judged, check_tree-Judged,
}

abbrev candidate : Version
candidate = record { major = 2; minor = 10; patch = 0; prerelease = some (codes "rc.1") }

printed : print_version candidate ≡ codes "2.10.0-rc.1"
unfolding print_version
printed = refl

parse_version-print_example : parse_version (print_version candidate) ≡ some candidate
parse_version-print_example = parse_version-print candidate (refl, (refl, (refl, (refl, tt))))

abbrev installed : List Copy
installed =
    record { name = "node-forge"; version = some (codes "1.4.0") }
    ∷ record { name = "@waxio/rsa-threshold-signatures"; version = some (codes "2.0.0") }
    ∷ record { name = "node-forge"; version = some (codes "1.3.1") }
    ∷ []

nested_is_old : (check_floors installed floors).ok ≡ false
unfolding check_floors
nested_is_old = refl

-- The package and a nested copy of itself.
abbrev inner : String
inner = "root/node-forge/node_modules"

abbrev entries : List Dirent
entries =
    record { name = ".bin"; is_folder = true }
    ∷ record { name = "node-forge"; is_folder = true }
    ∷ []

abbrev tree : Disk
tree = record {
  read_dir = λ d.
      if text_eq d "root" then some entries else if text_eq d inner then some entries else none;
  join_path = λ a b. join "/" (a ∷ b ∷ []);
  real = λ d. d;
  manifest =
      λ d. if text_eq d "root/node-forge" then some (codes "1.4.0") else some (codes "1.3.1");
}

abbrev copy_in : String → Package
copy_in d = record { name = "node-forge"; dir = join "/" (d ∷ "node-forge" ∷ []) }

abbrev packages : String → List Package
packages d =
    if text_eq d "root" then copy_in d ∷ [] else if text_eq d inner then copy_in d ∷ [] else []

listed : (d : String) → list_package_dirs tree d ≡ some (packages d)
unfolding list_package_dirs
listed d = go (text_eq d "root") (text_eq d inner) refl refl
  where
    go :
        (a b : Bool)
        → text_eq d "root" ≡ a
        → text_eq d inner ≡ b
        → list_package_dirs tree d ≡ some (packages d)
    go true b e k = rw e refl
    go false true e k = rw (e, k) refl
    go false false e k = rw (e, k) refl

finite : (d : String) → (packages d ≡ []) ⊎ (is_among d ("root" ∷ inner ∷ []) ≡ true)
finite d = go (text_eq d "root") (text_eq d inner) refl refl
  where
    go :
        (a b : Bool)
        → text_eq d "root" ≡ a
        → text_eq d inner ≡ b
        → (packages d ≡ []) ⊎ (is_among d ("root" ∷ inner ∷ []) ≡ true)
    go true b e k = inr (rw e refl)
    go false true e k = inr (rw (e, k) refl)
    go false false e k = inl (rw (e, k) refl)

same : (d d' : String) (p : Package) → d ≡ d' → Memᴰ p (packages d) → Twin tree p (packages d')
same d d' p e m = record {
  twin = p;
  there = subst (λ (x : String). Memᴰ p (packages x)) e m;
  name = refl;
  version = refl;
  real = refl;
}

reached : Reaches tree packages "root" (nested tree (copy_in "root"))
reached = inside (copy_in "root") at_root (Memᴰ.head refl)

check_tree-Judged_example :
    Judged
      (copy_in inner)
      tree
      (record { name = "node-forge"; version = codes "1.4.0" })
      (check_tree tree 3 "root" floors)
unfolding join
check_tree-Judged_example =
    check_tree-Judged tree packages ("root" ∷ inner ∷ []) "root" floors inner (copy_in inner)
      (record { name = "node-forge"; version = codes "1.4.0" }) listed finite same reached
      (Memᴰ.head refl) (Memᴰ.head refl) refl

-- ===== src/DepFloors/Installed.antt =====
-- `listPackageDirs` and `findInstalledCopies` of scripts/check-dep-floors.js: the walk through nested
-- node_modules. The file system is a parameter.
pub mod Seen
pub mod Visits
pub mod Complete
use wax_rng_oracle.Prelude.{
  ℕ, zero, suc, String, Bool, true, false, not, ◌||◌, Option, none, some, List, [], ◌∷◌, ◌++◌, map,
  text_eq, if◌then◌else◌, any, join,
}
use text.Mathlib.Text.{starts_with}
use wax_rng_oracle.DepFloors.{Copy, Floor, Report, check_floors}

-- An entry of a directory; a folder is a directory or a symbolic link.
pub record Dirent : Type 0 where
  pub name : String
  pub is_folder : Bool

-- `fs` and `path`: `read_dir` is `none` if it throws, `real` is the path itself if it does not exist,
-- and `manifest` is what `readVersion` gives of a package's directory.
pub record Disk : Type 0 where
  pub read_dir : String → Option (List Dirent)
  pub join_path : String → String → String
  pub real : String → String
  pub manifest : String → Option (List ℕ)

pub record Package : Type 0 where
  pub name : String
  pub dir : String

scoped_dirs : Disk → String → String → List Dirent → List Package
scoped_dirs disk full scope [] = []
scoped_dirs disk full scope (e ∷ es) =
    let rest = scoped_dirs disk full scope es in
    if e.is_folder
    then record { name = join "/" (scope ∷ e.name ∷ []); dir = disk.join_path full e.name } ∷ rest
    else rest

abbrev in_front {ℓ} : {A : Type ℓ} → List A → Option (List A) → Option (List A)
in_front xs none = none
in_front xs (some ys) = some (xs ++ ys)

-- A scope that cannot be read throws.
abbrev in_scope :
    Disk → String → String → Option (List Dirent) → Option (List Package) → Option (List Package)
in_scope disk full scope none rest = none
in_scope disk full scope (some es) rest = in_front (scoped_dirs disk full scope es) rest

list_entries : Disk → String → List Dirent → Option (List Package)
list_entries disk d [] = some []
list_entries disk d (e ∷ es) =
    let rest = list_entries disk d es in
    let full = disk.join_path d e.name in
    if not e.is_folder || (text_eq e.name ".bin" || starts_with e.name ".")
    then rest
    else if starts_with e.name "@"
    then in_scope disk full e.name (disk.read_dir full) rest
    else in_front (record { name = e.name; dir = full } ∷ []) rest

abbrev listed_entries : Disk → String → Option (List Dirent) → Option (List Package)
listed_entries disk d none = some []
listed_entries disk d (some es) = list_entries disk d es

-- `none` if it throws.
unfoldable pub list_package_dirs : Disk → String → Option (List Package)
unfolding scoped_dirs list_entries
list_package_dirs disk d = listed_entries disk d (disk.read_dir d)

-- `seen` and `found`
pub record Walked : Type 0 where
  pub seen : List String
  pub found : List Copy

pub data Walk : Type 0 where
  threw out_of_fuel : Walk
  finished : Walked → Walk

-- `set.has(t)`
abbrev pub is_among : String → List String → Bool
is_among t ts = any (text_eq t) ts

abbrev pub nested : Disk → Package → String
nested disk p = disk.join_path p.dir "node_modules"

abbrev pub copy_of : Disk → Package → Copy
copy_of disk p = record { name = p.name; version = disk.manifest p.dir }

abbrev pub push_wanted : Disk → List String → Package → Walked → Walked
push_wanted disk wanted p s =
    if is_among p.name wanted then record s { found = s.found ++ copy_of disk p ∷ [] } else s

abbrev pub go_on : Walk → (Walked → Walk) → Walk
go_on threw next = threw
go_on out_of_fuel next = out_of_fuel
go_on (finished s) next = next s

-- The loop over the packages of one directory; `walk` is the recursive call.
unfoldable pub visit_all :
    Disk → List String → (String → Walked → Walk) → List Package → Walked → Walk
visit_all disk wanted walk [] s = finished s
visit_all disk wanted walk (p ∷ ps) s =
    go_on (walk (nested disk p) (push_wanted disk wanted p s)) (visit_all disk wanted walk ps)

abbrev pub visit_listed :
    Disk → List String → (String → Walked → Walk) → Option (List Package) → Walked → Walk
visit_listed disk wanted walk none s = threw
visit_listed disk wanted walk (some ps) s = visit_all disk wanted walk ps s

-- `walk`, on fuel for the depth.
unfoldable pub walk : Disk → List String → ℕ → String → Walked → Walk
unfolding list_package_dirs visit_all
walk disk wanted zero d s = out_of_fuel
walk disk wanted (suc fuel) d s =
    let real = disk.real d in
    let visited =
      visit_listed disk wanted (walk disk wanted fuel) (list_package_dirs disk d)
        (record s { seen = real ∷ s.seen }) in
    if is_among real s.seen then finished s else visited

unfoldable pub find_installed_copies : Disk → ℕ → String → List Floor → Walk
unfolding walk
find_installed_copies disk fuel root floors =
    walk disk (map (λ f. f.name) floors) fuel root (record { seen = []; found = [] })

abbrev pub report_of : Walk → List Floor → Option Report
report_of threw floors = none
report_of out_of_fuel floors = none
report_of (finished s) floors = some (check_floors s.found floors)

-- `checkFloors` of the tree under `root`, `none` if it throws or has too little fuel.
unfoldable pub check_tree : Disk → ℕ → String → List Floor → Option Report
unfolding find_installed_copies
check_tree disk fuel root floors = report_of (find_installed_copies disk fuel root floors) floors

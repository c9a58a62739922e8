-- ===== src/DepFloors.antt =====
-- scripts/check-dep-floors.js: the versions of the installed copies against the floors. Which copies
-- are installed is a parameter; a version is the list of its code points.
pub mod Printed
pub mod Met
pub mod Installed
use wax_rng_oracle.Prelude.{
  ℕ, ◌+◌, ◌-◌, ◌*◌, String, Bool, true, false, not, ◌&&◌, ◌||◌, Option, none, some, List, [], ◌∷◌,
  ◌++◌, ltb, leb, ◌==◌, text_eq, if◌then◌else◌, is_space, keep,
}
use wax_rng_oracle.ShareKey.{codes}

-- `nums` and `prerelease`
pub record Version : Type 0 where
  pub major : ℕ
  pub minor : ℕ
  pub patch : ℕ
  pub prerelease : Option (List ℕ)

abbrev pub is_digit : ℕ → Bool
is_digit c = leb b'0' c && leb c b'9'

-- `[0-9A-Za-z.-]`
abbrev pub is_prerelease : ℕ → Bool
is_prerelease c =
    is_digit c
    || ((leb b'A' c && leb c b'Z') || ((leb b'a' c && leb c b'z') || (c == b'.' || c == b'-')))

-- The digits at the start of a text, read on from `n`, and the rest of the text.
pub number_from : ℕ → List ℕ → ℕ × List ℕ
number_from n [] = (n, [])
number_from n (c ∷ cs) =
    let later = number_from (n * 10 + (c - b'0')) cs in if is_digit c then later else (n, c ∷ cs)

-- `(\d+)`
abbrev pub take_number : List ℕ → Option (ℕ × List ℕ)
take_number [] = none
take_number (c ∷ cs) = if is_digit c then some (number_from 0 (c ∷ cs)) else none

-- `\.(\d+)`
abbrev pub take_dotted : List ℕ → Option (ℕ × List ℕ)
take_dotted [] = none
take_dotted (c ∷ cs) = if c == b'.' then take_number cs else none

-- `[0-9A-Za-z.-]*`
pub prerelease_from : List ℕ → List ℕ
prerelease_from [] = []
prerelease_from (c ∷ cs) =
    let later = prerelease_from cs in if is_prerelease c then c ∷ later else []

abbrev pub some_text : List ℕ → Option (List ℕ)
some_text [] = none
some_text (c ∷ cs) = some (c ∷ cs)

-- `(?:-([0-9A-Za-z.-]+))?`; what follows is not read.
abbrev pub take_prerelease : List ℕ → Option (List ℕ)
take_prerelease [] = none
take_prerelease (c ∷ cs) = if c == b'-' then some_text (prerelease_from cs) else none

abbrev pub with_patch : ℕ → ℕ → Option (ℕ × List ℕ) → Option Version
with_patch major minor none = none
with_patch major minor (some (patch, rest)) =
    some (record { major = major; minor = minor; patch = patch; prerelease = take_prerelease rest })

abbrev pub with_minor : ℕ → Option (ℕ × List ℕ) → Option Version
with_minor major none = none
with_minor major (some (minor, rest)) = with_patch major minor (take_dotted rest)

abbrev pub with_major : Option (ℕ × List ℕ) → Option Version
with_major none = none
with_major (some (major, rest)) = with_minor major (take_dotted rest)

drop_spaces : List ℕ → List ℕ
drop_spaces [] = []
drop_spaces (c ∷ cs) = let later = drop_spaces cs in if is_space c then later else c ∷ cs

-- `parseVersion`. White space at the end stands behind all that is read.
unfoldable pub parse_version : List ℕ → Option Version
unfolding drop_spaces number_from prerelease_from
parse_version cs = with_major (take_number (drop_spaces cs))

-- What `compareVersions` says of its first argument: NaN, or the sign of its result.
pub data Order : Type 0 where
  unparseable below equal above : Order

abbrev pub or_compare : ℕ → ℕ → Order → Order
or_compare a b next = if not (a == b) then (if ltb a b then below else above) else next

abbrev pub compare_prereleases : Option (List ℕ) → Option (List ℕ) → Order
compare_prereleases none none = equal
compare_prereleases (some p) (some q) = equal
compare_prereleases (some p) none = below
compare_prereleases none (some q) = above

abbrev pub compare_parsed : Option Version → Option Version → Order
compare_parsed none w = unparseable
compare_parsed (some v) none = unparseable
compare_parsed (some v) (some w) = or_compare v.major w.major (
    or_compare v.minor w.minor
      (or_compare v.patch w.patch (compare_prereleases v.prerelease w.prerelease)))

unfoldable pub compare_versions : List ℕ → List ℕ → Order
unfolding parse_version
compare_versions a b = compare_parsed (parse_version a) (parse_version b)

-- An installed copy, with what `readVersion` gives.
pub record Copy : Type 0 where
  pub name : String
  pub version : Option (List ℕ)

pub data Line : Type 0 where
  not_installed : String → Line
  judged : Copy → Order → Line

-- `String(version)`
abbrev pub version_text : Option (List ℕ) → List ℕ
version_text none = codes "null"
version_text (some v) = v

abbrev pub is_met : Order → Bool
is_met unparseable = false
is_met below = false
is_met equal = true
is_met above = true

abbrev pub is_fine : Line → Bool
is_fine (not_installed name) = false
is_fine (judged copy order) = is_met order

pub record Report : Type 0 where
  pub ok : Bool
  pub lines : List Line

abbrev pub add : Line → Report → Report
add l r = record { ok = r.ok && is_fine l; lines = r.lines ++ l ∷ [] }

unfoldable pub check_copies : List ℕ → List Copy → Report → Report
unfolding compare_versions
check_copies floor [] r = r
check_copies floor (c ∷ cs) r =
    check_copies floor cs (add (judged c (compare_versions (version_text c.version) floor)) r)

abbrev pub check_mine : String → List ℕ → List Copy → Report → Report
check_mine name floor [] r = add (not_installed name) r
check_mine name floor (c ∷ cs) r = check_copies floor (c ∷ cs) r

pub record Floor : Type 0 where
  pub name : String
  pub version : List ℕ

-- `FLOORS`
abbrev pub floors : List Floor
floors =
    record { name = "node-forge"; version = codes "1.4.0" }
    ∷ record { name = "@waxio/rsa-threshold-signatures"; version = codes "2.0.0" }
    ∷ []

unfoldable pub check_all : List Copy → List Floor → Report → Report
unfolding check_copies
check_all copies [] r = r
check_all copies (f ∷ fs) r =
    check_all copies fs (check_mine f.name f.version (keep (λ c. text_eq c.name f.name) copies) r)

-- `checkFloors`
unfoldable pub check_floors : List Copy → List Floor → Report
unfolding check_all
check_floors copies floors = check_all copies floors (record { ok = true; lines = [] })

-- The exit code of `main`.
unfoldable pub exit_code : Report → ℕ
exit_code r = if not r.ok then 1 else 0

-- ===== src/Storage/Fingerprint.antt =====
-- `partsFingerprint` of lib/storage.js.
pub mod Order
use Prim.Native.Nat.{Ordering}
use Prim.Native.String.{compare}
use wax_rng_oracle.Prelude.{String, List, [], ◌∷◌, map, join}
use wax_rng_oracle.Model.{Part, show}

-- `${p.idx}:${p.sig_i}`
unfoldable pub row : Part → String
unfolding show
row p =
    let open_text = show p.idx in
    Prim.Native.String.◌++◌ open_text (Prim.Native.String.◌++◌ ":" (show p.sig_i))

-- `array.sort()`, by code points: JavaScript's order wherever no text leaves the basic plane.
unfoldable pub insert : String → List String → List String
insert s [] = s ∷ []
insert s (t ∷ ts) =
    let further = insert s ts in elim (compare s t) [ Ordering.gt ↦ t ∷ further | _ ↦ s ∷ t ∷ ts ]

unfoldable pub sort : List String → List String
unfolding insert
sort [] = []
sort (s ∷ ts) = insert s (sort ts)

unfoldable pub parts_fingerprint : (String → String) → List Part → String
unfolding sort row
parts_fingerprint sha256 parts = sha256 (join "|" (sort (map row parts)))

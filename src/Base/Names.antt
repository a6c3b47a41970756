-- ===== src/Base/Names.antt =====
-- A Go set of texts, as a list.
use Prim.Native.String.{String}
use mathlib.Core.Path.{◌≡◌}
use mathlib.Core.Bool.{Bool, true, false, ◌||◌}
use mathlib.Core.List.{List, [], ◌∷◌}
use native.Mathlib.Omega.{arith}
use text.Mathlib.Text.{◌==◌ as str_eq}

unfoldable pub contains : String → List String → Bool
contains name [] = false
contains name (other ∷ others) = str_eq other name || contains name others

-- Each name of the one set is in the other.
abbrev pub IsPart : List String → List String → Type 0
IsPart names others = (name : String) → contains name names ≡ true → contains name others ≡ true

pub IsPart-cons :
    (names others : List String) (n : String)
    → IsPart names others
    → IsPart (n ∷ names) (n ∷ others)
unfolding contains
IsPart-cons names others n part name h = ground (arith, part name)

pub IsPart-skip :
    (names others : List String) (n : String) → IsPart names others → IsPart names (n ∷ others)
unfolding contains
IsPart-skip names others n part name h = ground (arith, part name)

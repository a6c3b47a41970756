-- ===== src/Base/Split.antt =====
-- `strings.Split` at one character, `strings.TrimSpace` and `bytes.Replace`.
use Prim.Native.Nat.{ℕ}
use Prim.Native.Char.{Char, code}
use Prim.Native.String.{String, ◌++◌ as append_text}
use mathlib.Core.Bool.{Bool, ◌&&◌, ◌||◌}
use mathlib.Core.List.{List, [], ◌∷◌}
use pred_sx.Base.Test.{if◌then◌else◌, leb, ◌==◌, is_empty}

-- A character before the first of some parts.
abbrev attach : Char → List String → List String
attach c [] = String.◌∷◌ c String.[] ∷ []
attach c (part ∷ parts) = String.◌∷◌ c part ∷ parts

-- `strings.Split(text, sep)` for a separator of one character, given by its code.
unfoldable pub split : ℕ → String → List String
split sep String.[] = String.[] ∷ []
split sep (String.◌∷◌ c s) =
    let rest = split sep s in if code c == sep then String.[] ∷ rest else attach c rest

-- `bytes.Replace(text, old, new, -1)` for an old text of one character, given by its code.
unfoldable pub replace : ℕ → String → String → String
replace old new String.[] = String.[]
replace old new (String.◌∷◌ c s) =
    let rest = replace old new s in
    if code c == old then append_text new rest else String.◌∷◌ c rest

-- `unicode.IsSpace`
unfoldable pub is_space : ℕ → Bool
is_space c =
    (leb 9 c && leb c 13)
    || c == 32
    || c == 133
    || c == 160
    || c == 5760
    || (leb 8192 c && leb c 8202)
    || c == 8232
    || c == 8233
    || c == 8239
    || c == 8287
    || c == 12288

unfoldable trim_left : String → String
unfolding is_space
trim_left String.[] = String.[]
trim_left (String.◌∷◌ c s) =
    let rest = trim_left s in if is_space (code c) then rest else String.◌∷◌ c s

unfoldable trim_right : String → String
unfolding is_space
trim_right String.[] = String.[]
trim_right (String.◌∷◌ c s) =
    let rest = trim_right s in
    if is_empty rest && is_space (code c) then String.[] else String.◌∷◌ c rest

-- `strings.TrimSpace`
unfoldable pub trim_space : String → String
unfolding trim_left trim_right
trim_space s = trim_left (trim_right s)

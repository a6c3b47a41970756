-- ===== src/Base/Base64.antt =====
-- `base64.URLEncoding` of Go's standard library, on bytes.
use Prim.Native.Nat.{ℕ, ◌+◌, ◌-◌, ◌*◌, ◌/◌, ◌%◌, ◌<◌}
use mathlib.Core.Path.{◌≡◌, refl, ap, ◌∙◌}
use mathlib.Core.Bool.{Bool, true, false, ◌&&◌, ◌||◌}
use mathlib.Core.Option.{Option, none, some}
use mathlib.Core.List.{List, [], ◌∷◌, ◌++◌}
use native.Mathlib.Omega.{arith}
use pred_sx.Base.Test.{ltb, leb, ◌==◌, if◌then◌else◌}
use pred_sx.Base.Lists.{All}

-- The characters A-Z a-z 0-9 - _ for 0 to 63.
pub symbol : ℕ → ℕ
symbol n =
    if ltb n 26
    then n + 65
    else (if ltb n 52 then n + 71 else (if ltb n 62 then n - 4 else (if n == 62 then 45 else 95)))

pub value_of : ℕ → Option ℕ
value_of c =
    if leb 65 c && leb c 90
    then some (c - 65)
    else (if leb 97 c && leb c 122
        then some (c - 71)
        else (if leb 48 c && leb c 57
            then some (c + 4)
            else (if c == 45 then some 62 else (if c == 95 then some 63 else none))))

-- `=`
abbrev pub padding : ℕ
padding = 61

unfoldable pub encode : List ℕ → List ℕ
unfolding symbol
encode [] = []
encode (a ∷ []) = symbol (a / 4) ∷ symbol (a % 4 * 16) ∷ padding ∷ padding ∷ []
encode (a ∷ b ∷ []) =
    symbol (a / 4) ∷ symbol (a % 4 * 16 + b / 16) ∷ symbol (b % 16 * 4) ∷ padding ∷ []
encode (a ∷ b ∷ c ∷ rest) =
    symbol (a / 4)
    ∷ symbol (a % 4 * 16 + b / 16)
    ∷ symbol (b % 16 * 4 + c / 64)
    ∷ symbol (c % 64)
    ∷ encode rest

-- The decoder passes over line ends.
pub without_breaks : List ℕ → List ℕ
without_breaks [] = []
without_breaks (c ∷ cs) =
    let rest = without_breaks cs in if c == 10 || c == 13 then rest else c ∷ rest

-- The bytes of four characters, of which the last two may be padding, and then nothing follows.
pub group : ℕ → ℕ → ℕ → ℕ → Bool → Option (List ℕ)
group w x y z last = elim (value_of w) [
  | none ↦ none
  | some w' ↦ elim (value_of x) [
    | none ↦ none
    | some x' ↦
        if y == padding
        then (if z == padding && last then some ((w' * 4 + x' / 16) ∷ []) else none)
        else (elim (value_of y) [
          | none ↦ none
          | some y' ↦
              if z == padding
              then (if last then some ((w' * 4 + x' / 16) ∷ (x' % 16 * 16 + y' / 4) ∷ []) else none)
              else (elim (value_of z) [
                | none ↦ none
                | some z' ↦
                    some ((w' * 4 + x' / 16) ∷ (x' % 16 * 16 + y' / 4) ∷ (y' % 4 * 64 + z') ∷ [])
              ])
        ])
  ]
]

abbrev pub is_nil : List ℕ → Bool
is_nil [] = true
is_nil (c ∷ cs) = false

abbrev pub join : Option (List ℕ) → Option (List ℕ) → Option (List ℕ)
join (some xs) (some ys) = some (xs ++ ys)
join _ _ = none

pub groups : List ℕ → Option (List ℕ)
unfolding group value_of
groups [] = some []
groups (w ∷ x ∷ y ∷ z ∷ rest) = join (group w x y z (is_nil rest)) (groups rest)
groups _ = none

unfoldable pub decode : List ℕ → Option (List ℕ)
unfolding groups without_breaks
decode cs = groups (without_breaks cs)

value_of-symbol : (n : ℕ) → n < 64 → value_of (symbol n) ≡ some n
unfolding value_of symbol
value_of-symbol n h = ground arith

symbol-ne-padding : (n : ℕ) → n < 64 → (symbol n == padding) ≡ false
unfolding symbol
symbol-ne-padding n h = ground arith

symbol-ne-break : (n : ℕ) → n < 64 → ((symbol n == 10) || (symbol n == 13)) ≡ false
unfolding symbol
symbol-ne-break n h = ground arith

keep-cons :
    (n : ℕ) (cs : List ℕ)
    → n < 64
    → without_breaks cs ≡ cs
    → without_breaks (symbol n ∷ cs) ≡ symbol n ∷ cs
unfolding without_breaks
keep-cons n cs h e = rw (symbol-ne-break n h, e) refl

group-one :
    (a : ℕ)
    → a < 256
    → group (symbol (a / 4)) (symbol (a % 4 * 16)) padding padding true ≡ some (a ∷ [])
unfolding group
group-one a h =
    let whole : a / 4 * 4 + a % 4 * 16 / 16 ≡ a = omega arith in
    rw (group, value_of-symbol (a / 4) (omega arith), value_of-symbol (a % 4 * 16) (omega arith))
      (ap (λ b. some (b ∷ [])) whole)

group-two :
    (a b : ℕ)
    → a < 256
    → b < 256
    → group (symbol (a / 4)) (symbol (a % 4 * 16 + b / 16)) (symbol (b % 16 * 4)) padding true
      ≡ some (a ∷ b ∷ [])
unfolding group
group-two a b h k =
    let v = a % 4 * 16 + b / 16 in
    let one : a / 4 * 4 + v / 16 ≡ a = omega arith in
    let two : v % 16 * 16 + b % 16 * 4 / 4 ≡ b = omega arith in
    rw
      (
        group,
        value_of-symbol (a / 4) (omega arith),
        value_of-symbol v (omega arith),
        symbol-ne-padding (b % 16 * 4) (omega arith),
        value_of-symbol (b % 16 * 4) (omega arith),
      )
      (ap (λ c. some (c ∷ (v % 16 * 16 + b % 16 * 4 / 4) ∷ [])) one
        ∙ ap (λ c. some (a ∷ c ∷ [])) two)

group-three :
    (a b c : ℕ) (last : Bool)
    → a < 256
    → b < 256
    → c < 256
    → group
        (symbol (a / 4))
        (symbol (a % 4 * 16 + b / 16))
        (symbol (b % 16 * 4 + c / 64))
        (symbol (c % 64))
        last
      ≡ some (a ∷ b ∷ c ∷ [])
unfolding group
group-three a b c last h k l =
    let v = a % 4 * 16 + b / 16 in
    let w = b % 16 * 4 + c / 64 in
    let one : a / 4 * 4 + v / 16 ≡ a = omega arith in
    let two : v % 16 * 16 + w / 4 ≡ b = omega arith in
    let three : w % 4 * 64 + c % 64 ≡ c = omega arith in
    rw
      (
        group,
        value_of-symbol (a / 4) (omega arith),
        value_of-symbol v (omega arith),
        symbol-ne-padding w (omega arith),
        value_of-symbol w (omega arith),
        symbol-ne-padding (c % 64) (omega arith),
        value_of-symbol (c % 64) (omega arith),
      )
      (ap (λ d. some (d ∷ (v % 16 * 16 + w / 4) ∷ (w % 4 * 64 + c % 64) ∷ [])) one
        ∙ ap (λ d. some (a ∷ d ∷ (w % 4 * 64 + c % 64) ∷ [])) two
        ∙ ap (λ d. some (a ∷ b ∷ d ∷ [])) three)

abbrev pub AreBytes : List ℕ → Type 0
AreBytes cs = All (λ c. c < 256) cs

without_breaks-encode : (cs : List ℕ) → AreBytes cs → without_breaks (encode cs) ≡ encode cs
unfolding encode without_breaks
without_breaks-encode [] h = refl
without_breaks-encode (a ∷ []) h =
    keep-cons (a / 4) _ (omega arith) (keep-cons (a % 4 * 16) _ (omega arith) refl)
without_breaks-encode (a ∷ b ∷ []) h =
    keep-cons (a / 4) _ (omega arith) (
      keep-cons (a % 4 * 16 + b / 16) _ (omega arith) (keep-cons (b % 16 * 4) _ (omega arith) refl))
without_breaks-encode (a ∷ b ∷ c ∷ rest) h = keep-cons (a / 4) _ (omega arith) (
    keep-cons (a % 4 * 16 + b / 16) _ (omega arith) (
      keep-cons (b % 16 * 4 + c / 64) _ (omega arith)
        (keep-cons (c % 64) _ (omega arith) (without_breaks-encode rest h.1.1.1))))

groups-encode : (cs : List ℕ) → AreBytes cs → groups (encode cs) ≡ some cs
unfolding encode groups
groups-encode [] h = refl
groups-encode (a ∷ []) h = ap (λ o. join o (some [])) (group-one a (omega arith))
groups-encode (a ∷ b ∷ []) h =
    ap (λ o. join o (some [])) (group-two a b (omega arith) (omega arith))
groups-encode (a ∷ b ∷ c ∷ rest) h =
    rw
      (
        group-three a b c (is_nil (encode rest)) (omega arith) (omega arith) (omega arith),
        groups-encode rest h.1.1.1,
      )
      refl

-- Decoding gives back the bytes that were encoded.
pub decode-encode : (cs : List ℕ) → AreBytes cs → decode (encode cs) ≡ some cs
unfolding decode
decode-encode cs h = ap groups (without_breaks-encode cs h) ∙ groups-encode cs h

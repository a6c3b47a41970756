-- ===== src/Base/Text.antt =====
-- Texts as lists of code points, which are the bytes of an ASCII text, and `strconv.Atoi`.
use Prim.Native.Nat.{ℕ, zero, suc, ◌+◌, ◌-◌, ◌*◌, ◌/◌, ◌%◌, ◌^◌, ◌<◌}
use Prim.Native.Char.{code}
use Prim.Native.String.{String, ◌++◌ as append_text}
use mathlib.Core.Path.{◌≡◌, refl, sym, ap, ◌∙◌, subst}
use mathlib.Core.Bool.{Bool, true, false, ◌&&◌}
use mathlib.Core.Option.{Option, none, some}
use mathlib.Core.List.{List, [], ◌∷◌, ◌++◌}
use mathlib.Core.Logic.{inl, inr}
use native.Mathlib.Omega.{arith}
use text.Mathlib.TextLemmas.{nil-append, cons-append}
use pred_sx.Base.Test.{ltb, leb, ◌==◌, if◌then◌else◌, Bool-cases}
use pred_sx.Base.Lists.{All}
use pred_sx.Base.Decimal.{digit, itoa_fuel, itoa}

abbrev pub codes : String → List ℕ
codes String.[] = []
codes (String.◌∷◌ c s) = code c ∷ codes s

pub codes-append : (s t : String) → codes (append_text s t) ≡ codes s ++ codes t
codes-append String.[] t = ap codes (nil-append t)
codes-append (String.◌∷◌ c s) t =
    ap codes (cons-append c s t) ∙ ap (λ cs. code c ∷ cs) (codes-append s t)

abbrev pub is_digit : ℕ → Bool
is_digit c = leb 48 c && leb c 57

-- The value of some digits after the value `acc` of those before them.
unfoldable pub digits_value : ℕ → List ℕ → Option ℕ
digits_value acc [] = some acc
digits_value acc (c ∷ cs) =
    let rest = digits_value (acc * 10 + (c - 48)) cs in if is_digit c then rest else none

-- What `strconv.Atoi` and `strconv.ParseInt` give for 64 bits: a number, or an error. With the
-- error of a number that is too large comes the bound, with the other one 0.
pub data Parsed : Type 0 where
  positive : ℕ → Parsed
  negative : ℕ → Parsed
  above : Parsed
  below : Parsed
  malformed : Parsed

abbrev pub int_max : ℕ
int_max = 2 ^ 63 - 1

unfoldable pub ranged : Bool → Option ℕ → Parsed
ranged minus none = malformed
ranged true (some n) = if ltb (2 ^ 63) n then below else negative n
ranged false (some n) = if ltb int_max n then above else positive n

-- One digit at least.
abbrev pub magnitude : List ℕ → Option ℕ
magnitude [] = none
magnitude (c ∷ cs) = digits_value 0 (c ∷ cs)

unfoldable pub atoi : List ℕ → Parsed
unfolding ranged digits_value
atoi [] = malformed
atoi (c ∷ cs) =
    if c == 45
    then ranged true (magnitude cs)
    else (if c == 43 then ranged false (magnitude cs) else ranged false (magnitude (c ∷ cs)))

digits_value-append :
    (acc n c : ℕ) (cs : List ℕ)
    → digits_value acc cs ≡ some n
    → is_digit c ≡ true
    → digits_value acc (cs ++ c ∷ []) ≡ some (n * 10 + (c - 48))
unfolding digits_value
digits_value-append acc n c [] h d = ground arith
digits_value-append acc n c (b ∷ cs) h d =
    ground (arith, digits_value-append (acc * 10 + (b - 48)) n c cs)

codes-digit : (d : ℕ) → d < 10 → codes (digit d) ≡ (48 + d) ∷ []
codes-digit zero h = refl
codes-digit (suc zero) h = refl
codes-digit (suc (suc zero)) h = refl
codes-digit (suc (suc (suc zero))) h = refl
codes-digit (suc (suc (suc (suc zero)))) h = refl
codes-digit (suc (suc (suc (suc (suc zero))))) h = refl
codes-digit (suc (suc (suc (suc (suc (suc zero)))))) h = refl
codes-digit (suc (suc (suc (suc (suc (suc (suc zero))))))) h = refl
codes-digit (suc (suc (suc (suc (suc (suc (suc (suc zero)))))))) h = refl
codes-digit (suc (suc (suc (suc (suc (suc (suc (suc (suc zero))))))))) h = refl
codes-digit (suc (suc (suc (suc (suc (suc (suc (suc (suc (suc d)))))))))) h = absurd (omega arith)

-- A text of digits only, with one digit at least, that has the value `n`.
pub record IsNumeral (n : ℕ) (cs : List ℕ) : Type 0 where
  pub value : digits_value 0 cs ≡ some n
  pub first : ℕ
  pub others : List ℕ
  pub shape : cs ≡ first ∷ others
  pub starts : is_digit first ≡ true

digit-IsNumeral : (n : ℕ) → n < 10 → IsNumeral n (codes (digit n))
unfolding digits_value
digit-IsNumeral n h = rw (codes-digit n h) (record {
  value = ground arith;
  first = 48 + n;
  others = [];
  shape = refl;
  starts = ground arith;
})

snoc-IsNumeral :
    (n d : ℕ) (cs : List ℕ)
    → d < 10
    → IsNumeral n cs
    → IsNumeral (n * 10 + d) (cs ++ codes (digit d))
snoc-IsNumeral n d cs h m = rw (codes-digit d h) (record {
  value = digits_value-append 0 n (48 + d) cs m.value (ground arith) ∙ ap some (omega arith);
  first = m.first;
  others = m.others ++ (48 + d) ∷ [];
  shape = ap (λ ds. ds ++ (48 + d) ∷ []) m.shape;
  starts = m.starts;
})

itoa_fuel-IsNumeral : (fuel n : ℕ) → n < fuel → IsNumeral n (codes (itoa_fuel fuel n))
unfolding itoa_fuel
itoa_fuel-IsNumeral zero n h = elim h [ ]
itoa_fuel-IsNumeral (suc fuel) n h = elim (Bool-cases (ltb n 10)) [
  | inl small ↦ rw small (digit-IsNumeral n (ground arith))
  | inr large ↦
      let rest = itoa_fuel-IsNumeral fuel (n / 10) (ground arith) in
      let whole : n / 10 * 10 + n % 10 ≡ n = omega arith in
      let all =
        snoc-IsNumeral (n / 10) (n % 10) (codes (itoa_fuel fuel (n / 10))) (omega arith) rest in
      rw (large, codes-append)
        (subst (λ k. IsNumeral k (codes (itoa_fuel fuel (n / 10)) ++ codes (digit (n % 10)))) whole
          all)
]

atoi-digits :
    (n c : ℕ) (cs : List ℕ)
    → n < 2 ^ 63
    → is_digit c ≡ true
    → digits_value 0 (c ∷ cs) ≡ some n
    → atoi (c ∷ cs) ≡ positive n
unfolding atoi ranged
atoi-digits n c cs h d v =
    let minus : (c == 45) ≡ false = ground arith in
    let plus : (c == 43) ≡ false = ground arith in
    let fits : ltb int_max n ≡ false = ground arith in rw (atoi, minus, plus, v, fits) refl

atoi-IsNumeral : (n : ℕ) (cs : List ℕ) → n < 2 ^ 63 → IsNumeral n cs → atoi cs ≡ positive n
atoi-IsNumeral n cs h m =
    ap atoi m.shape
    ∙ atoi-digits n m.first m.others h m.starts (ap (digits_value 0) (sym m.shape) ∙ m.value)

-- `strconv.Atoi(strconv.Itoa(n))` is `n`.
pub atoi-itoa : (n : ℕ) → n < 2 ^ 63 → atoi (codes (itoa n)) ≡ positive n
unfolding itoa
atoi-itoa n h =
    atoi-IsNumeral n (codes (itoa_fuel (n + 1) n)) h (itoa_fuel-IsNumeral (n + 1) n (omega arith))

-- The characters of digits are bytes.
pub digits_value-bytes :
    (acc n : ℕ) (cs : List ℕ) → digits_value acc cs ≡ some n → All (λ c. c < 256) cs
unfolding digits_value
digits_value-bytes acc n [] h = tt
digits_value-bytes acc n (c ∷ cs) h = elim (Bool-cases (is_digit c)) [
  | inl one ↦
      let rest : digits_value (acc * 10 + (c - 48)) cs ≡ some n = ground arith in
      (ground arith, digits_value-bytes (acc * 10 + (c - 48)) n cs rest)
  | inr other ↦ cc
]

pub codes-itoa-bytes : (n : ℕ) → All (λ c. c < 256) (codes (itoa n))
unfolding itoa
codes-itoa-bytes n =
    digits_value-bytes 0 n (codes (itoa_fuel (n + 1) n))
      (itoa_fuel-IsNumeral (n + 1) n (omega arith)).value

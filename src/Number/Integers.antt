-- ===== src/Number/Integers.antt =====
-- Whole numbers in place of float64: the instance at which the theorems are tried.
use mathlib.Core.Bool.{xor}
use pred_sx.Base.{
  ℕ, suc, ◌+◌, ◌-◌, ◌*◌, ◌/◌, Bool, ◌&&◌, String, code, arith, ltb, leb, ◌==◌, if◌then◌else◌,
  append_text,
}
use pred_sx.Base.Decimal.{itoa}
use pred_sx.Number.{Arith, IsOrdered}

-- `negsuc n` is -(n + 1).
pub data ℤ : Type 0 where
  pos : ℕ → ℤ
  negsuc : ℕ → ℤ

abbrev pub pos_part : ℤ → ℕ
pos_part (pos n) = n
pos_part (negsuc n) = 0

abbrev pub neg_part : ℤ → ℕ
neg_part (pos n) = 0
neg_part (negsuc n) = suc n

-- a - b, as an integer.
abbrev pub sub_ℕ : ℕ → ℕ → ℤ
sub_ℕ a b = if leb b a then pos (a - b) else negsuc (b - a - 1)

abbrev pub ltb_ℤ : ℤ → ℤ → Bool
ltb_ℤ a b = ltb (pos_part a + neg_part b) (pos_part b + neg_part a)

abbrev abs : ℤ → ℕ
abs a = pos_part a + neg_part a

-- The quotient, rounded towards zero.
abbrev quotient : ℤ → ℤ → ℤ
quotient a b =
    let q = abs a / abs b in
    if xor (ltb 0 (neg_part a)) (ltb 0 (neg_part b)) then sub_ℕ 0 q else pos q

-- The digits of a text as one number; other characters are passed over.
abbrev digits_of : ℕ → String → ℕ
digits_of acc String.[] = acc
digits_of acc (String.◌∷◌ c s) =
    digits_of (if leb b'0' (code c) && leb (code c) b'9' then acc * 10 + (code c - b'0') else acc) s

abbrev show : ℤ → String
show (pos n) = itoa n
show (negsuc n) = append_text "-" (itoa (n + 1))

abbrev pub integers : Arith ℤ
integers = record {
  lit = λ m k. pos m;
  add = λ a b. sub_ℕ (pos_part a + pos_part b) (neg_part a + neg_part b);
  sub = λ a b. sub_ℕ (pos_part a + neg_part b) (neg_part a + pos_part b);
  mul = λ a b.
      sub_ℕ (pos_part a * pos_part b + neg_part a * neg_part b)
        (pos_part a * neg_part b + neg_part a * pos_part b);
  div = quotient;
  abs = λ a. pos (abs a);
  lt = ltb_ℤ;
  le = λ a b. leb (pos_part a + neg_part b) (pos_part b + neg_part a);
  eq = λ a b. pos_part a + neg_part b == pos_part b + neg_part a;
  parse = λ s. pos (digits_of 0 s);
  show = show;
  show_f = show;
}

pub integers-IsOrdered : IsOrdered integers
integers-IsOrdered = record { lt_irrefl = λ x. ground arith; lt_trans = λ x y z h k. ground arith }

-- ===== src/Number.antt =====
-- float64, and what the program does with it. The operations are parameters: rounding, NaN and the
-- infinities are whatever the instance makes of them.
pub mod Integers
use pred_sx.Base.{ℕ, ◌≡◌, Bool, true, false, String}

pub record Arith (F : Type 0) : Type 0 where
  -- The literal `m / 10 ^ k`.
  pub lit : ℕ → ℕ → F
  pub add : F → F → F
  pub sub : F → F → F
  pub mul : F → F → F
  pub div : F → F → F
  pub abs : F → F
  -- Go's `<` and `==`. `a > b` is `lt b a`, and `a <= b` is `le a b`.
  pub lt : F → F → Bool
  pub le : F → F → Bool
  pub eq : F → F → Bool
  -- The value of `strconv.ParseFloat(s, 64)`, whose error the program drops.
  pub parse : String → F
  -- `fmt.Sprintf("%v", x)` and `fmt.Sprintf("%f", x)`
  pub show : F → String
  pub show_f : F → String

module _ {F : Type 0} (a : Arith F) where
  -- What IEEE 754 says of `<`, with NaN below and above nothing.
  pub record IsOrdered : Type 0 where
    pub lt_irrefl : (x : F) → a.lt x x ≡ false
    pub lt_trans : (x y z : F) → a.lt x y ≡ true → a.lt y z ≡ true → a.lt x z ≡ true

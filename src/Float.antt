-- ===== src/Float.antt =====
-- A float64 to run the model with: exact fractions of two numbers, with 1/0 for +Inf and 0/0 for
-- NaN.
use xdiscovery.Prelude.{
  ◌*◌, ltb, ◌==◌, ℕ, zero, suc, ◌≤◌, ◌<◌, ◌≡◌, Bool, false, not, ◌&&◌, arith, if◌then◌else◌,
}
use xdiscovery.Options.{Float64}

abbrev pub Ratio : Type 0
Ratio = ℕ × ℕ

-- A fraction with denominator zero is not below a finite one; every finite one is below +Inf.
abbrev pub ratio_lt : Ratio → Ratio → Bool
ratio_lt (a, b) (c, d) = not (b == 0) && (if d == 0 then not (c == 0) else ltb (a * d) (c * b))

mul-le : (a b c d : ℕ) → b ≤ a → c ≤ d → c * b ≤ a * d
mul-le a b c d h k = grind arith

mul-pos : (b c : ℕ) → 0 < b → 0 < c → 0 < c * b
mul-pos b c h k = grind arith

abbrev pub ratio_div : Ratio → Ratio → Ratio
ratio_div (a, b) (c, d) = (a * d, b * c)

pub ratio_div_zero : (a : ℕ) (t : Ratio) → ratio_lt (ratio_div (a, 1) (0, 1)) t ≡ false
ratio_div_zero a (c, d) = ground arith

pub ratio_ge_one :
    (a b : ℕ) (t : Ratio)
    → b ≤ a
    → 0 < b
    → ratio_lt (1, 1) t ≡ false
    → ratio_lt (ratio_div (a, 1) (b, 1)) t ≡ false
ratio_ge_one a b (c, d) h k l = ground (arith, mul-le a b c d h)

pub ratio_zero_div :
    (b : ℕ) (t : Ratio) → 0 < b → ratio_lt (ratio_div (0, 1) (b, 1)) t ≡ ratio_lt (0, 1) t
ratio_zero_div b (zero, d) h = ground arith
ratio_zero_div b (suc c, d) h = ground (arith, mul-pos b (suc c) h)

abbrev pub ratio : Float64
ratio = record {
  F = Ratio;
  of_ℕ = λ n. (n, 1);
  div = ratio_div;
  lt = ratio_lt;
  is_zero = λ t. t.0 == 0 && not (t.1 == 0);
  tenth = (1, 10);
  div_by_zero = ratio_div_zero;
  div-ge_one = ratio_ge_one;
  zero_div = ratio_zero_div;
}

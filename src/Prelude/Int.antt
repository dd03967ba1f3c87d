-- ===== src/Prelude/Int.antt =====
-- Go's signed integers: ℤ over the native numbers, and the wrap-around of int and int64.
use Prim.Native.Nat.{ℕ, suc, ◌+◌, ◌-◌, ◌%◌, ◌≤◌, ◌<◌}
use mathlib.Core.Path.{◌≡◌}
use mathlib.Core.Bool.{Bool}
use native.Mathlib.Omega.{arith}
use xdiscovery.Prelude.Tests.{ltb, leb, if◌then◌else◌}

-- `negsuc n` is -(n + 1).
pub data ℤ : Type 0 where
  pos : ℕ → ℤ
  negsuc : ℕ → ℤ

abbrev pub pos_part : ℤ → ℕ
pos_part (pos n) = n
pos_part (negsuc n) = 0

abbrev pub neg_part : ℤ → ℕ
neg_part (pos n) = 0
neg_part (negsuc n) = suc n

-- a - b, as an integer.
abbrev pub sub_ℕ : ℕ → ℕ → ℤ
sub_ℕ a b = if leb b a then pos (a - b) else negsuc (b - a - 1)

infixl 65 ◌+ℤ◌ ◌-ℤ◌
infix 50 ◌≤ℤ◌
unfoldable pub ◌+ℤ◌ : ℤ → ℤ → ℤ
a +ℤ b = sub_ℕ (pos_part a + pos_part b) (neg_part a + neg_part b)

unfoldable pub ◌-ℤ◌ : ℤ → ℤ → ℤ
a -ℤ b = sub_ℕ (pos_part a + neg_part b) (neg_part a + pos_part b)

abbrev pub ◌≤ℤ◌ : ℤ → ℤ → Type 0
a ≤ℤ b = pos_part a + neg_part b ≤ pos_part b + neg_part a

abbrev pub ltb_ℤ : ℤ → ℤ → Bool
ltb_ℤ a b = ltb (pos_part a + neg_part b) (pos_part b + neg_part a)

abbrev pub leb_ℤ : ℤ → ℤ → Bool
leb_ℤ a b = leb (pos_part a + neg_part b) (pos_part b + neg_part a)

-- The value of 64 bits read as a signed integer.
signed64 : ℕ → ℤ
signed64 n = if ltb n 9223372036854775808 then pos n else negsuc (18446744073709551615 - n)

-- Go's int64 (and int, on a 64-bit machine): arithmetic wraps.
unfoldable pub int64 : ℤ → ℤ
unfolding signed64
int64 (pos n) = signed64 (n % 18446744073709551616)
int64 (negsuc n) = signed64 (18446744073709551615 - n % 18446744073709551616)

unfoldable pub add64 : ℤ → ℤ → ℤ
unfolding int64 ◌+ℤ◌
add64 a b = int64 (a +ℤ b)

unfoldable pub sub64 : ℤ → ℤ → ℤ
unfolding int64 ◌-ℤ◌
sub64 a b = int64 (a -ℤ b)

pub +ℤ_parts :
    (a b : ℤ)
    → pos_part (a +ℤ b) + neg_part a + neg_part b ≡ neg_part (a +ℤ b) + pos_part a + pos_part b
unfolding ◌+ℤ◌
+ℤ_parts a b = ground arith

pub -ℤ_parts :
    (a b : ℤ)
    → pos_part (a -ℤ b) + neg_part a + pos_part b ≡ neg_part (a -ℤ b) + pos_part a + neg_part b
unfolding ◌-ℤ◌
-ℤ_parts a b = ground arith

-- Within the range of an int64 nothing wraps.
abbrev pub InRange : ℤ → Type 0
InRange z = (pos_part z < 9223372036854775808) × (neg_part z ≤ 9223372036854775808)

-- Half the range: sums and differences of two such numbers do not wrap.
abbrev pub IsSmall : ℤ → Type 0
IsSmall z = (pos_part z < 4611686018427387904) × (neg_part z ≤ 4611686018427387904)

pub int64_of_InRange : (z : ℤ) → InRange z → int64 z ≡ z
unfolding int64
int64_of_InRange (pos n) h = ground arith
int64_of_InRange (negsuc n) h = ground arith

one_side : (z : ℤ) → pos_part z + neg_part z ≡ 0 → z ≡ pos 0
one_side z h = ground arith

pub sub64_of_IsSmall : (a b : ℤ) → IsSmall a → IsSmall b → sub64 a b ≡ a -ℤ b
unfolding sub64
sub64_of_IsSmall a b h k = int64_of_InRange (a -ℤ b) (unfold ◌-ℤ◌ in ground arith)

pub add64_of_IsSmall : (a b : ℤ) → IsSmall a → IsSmall b → add64 a b ≡ a +ℤ b
unfolding add64
add64_of_IsSmall a b h k = int64_of_InRange (a +ℤ b) (unfold ◌+ℤ◌ in ground arith)

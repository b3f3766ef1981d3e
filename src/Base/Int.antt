-- ===== src/Base/Int.antt =====
-- Signed integers over the native numbers, for `int` and the signed types of C: sums, products, the
-- arithmetic shift and the conversions.
use Prim.Native.Nat.{ℕ, suc, ◌+◌, ◌-◌, ◌*◌, ◌/◌, ◌%◌, ◌^◌, ◌≤◌, bit_xor}
use mathlib.Core.Bool.{Bool, true, false}
use spu_kit.Base.Tests.{ltb, leb, ◌==◌, if◌then◌else◌}

-- `negsuc n` is -(n + 1).
pub data ℤ : Type 0 where
  pos : ℕ → ℤ
  negsuc : ℕ → ℤ

-- `v < 0`
abbrev pub is_negative : ℤ → Bool
is_negative (pos n) = false
is_negative (negsuc n) = true

abbrev pub pos_part : ℤ → ℕ
pos_part (pos n) = n
pos_part (negsuc n) = 0

abbrev pub neg_part : ℤ → ℕ
neg_part (pos n) = 0
neg_part (negsuc n) = suc n

-- a - b, as an integer.
abbrev pub sub_ℕ : ℕ → ℕ → ℤ
sub_ℕ a b = if leb b a then pos (a - b) else negsuc (b - a - 1)

infixl 65 ◌+ℤ◌ ◌-ℤ◌
infixl 70 ◌*ℤ◌
infix 50 ◌≤ℤ◌
unfoldable pub ◌+ℤ◌ : ℤ → ℤ → ℤ
a +ℤ b = sub_ℕ (pos_part a + pos_part b) (neg_part a + neg_part b)

unfoldable pub ◌-ℤ◌ : ℤ → ℤ → ℤ
a -ℤ b = sub_ℕ (pos_part a + neg_part b) (neg_part a + pos_part b)

unfoldable pub ◌*ℤ◌ : ℤ → ℤ → ℤ
a *ℤ b =
    sub_ℕ (pos_part a * pos_part b + neg_part a * neg_part b)
      (pos_part a * neg_part b + neg_part a * pos_part b)

abbrev pub ◌≤ℤ◌ : ℤ → ℤ → Type 0
a ≤ℤ b = pos_part a + neg_part b ≤ pos_part b + neg_part a

-- `v >> k` of a signed number, which rounds down.
infixl 75 ◌>>ℤ◌
unfoldable pub ◌>>ℤ◌ : ℤ → ℕ → ℤ
pos n >>ℤ k = pos (n / 2 ^ k)
negsuc n >>ℤ k = negsuc (n / 2 ^ k)

-- `v << k`
infixl 75 ◌<<ℤ◌
unfoldable pub ◌<<ℤ◌ : ℤ → ℕ → ℤ
pos n <<ℤ k = pos (n * 2 ^ k)
negsuc n <<ℤ k = negsuc ((n + 1) * 2 ^ k - 1)

-- `v & ~1`
unfoldable pub even_part : ℤ → ℤ
even_part (pos n) = pos (n / 2 * 2)
even_part (negsuc n) = negsuc (n / 2 * 2 + 1)

-- The conversion to `uint16_t`, and to `uint8_t`.
unfoldable pub to_u16 : ℤ → ℕ
to_u16 (pos n) = n % 2 ^ 16
to_u16 (negsuc n) = 2 ^ 16 - 1 - n % 2 ^ 16

unfoldable pub to_u8 : ℤ → ℕ
to_u8 (pos n) = n % 2 ^ 8
to_u8 (negsuc n) = 2 ^ 8 - 1 - n % 2 ^ 8

-- The value of the bits of an `int16_t`, and of an `int8_t`.
unfoldable pub of_u16 : ℕ → ℤ
of_u16 n = if ltb n (2 ^ 15) then pos n else negsuc (2 ^ 16 - 1 - n)

unfoldable pub of_u8 : ℕ → ℤ
of_u8 n = if ltb n (2 ^ 7) then pos n else negsuc (2 ^ 8 - 1 - n)

-- The conversion to `int16_t`.
unfoldable pub to_i16 : ℤ → ℤ
unfolding to_u16 of_u16
to_i16 v = of_u16 (to_u16 v)

-- A value of an `int16_t`.
abbrev pub IsShort : ℤ → Type 0
IsShort v = (negsuc 32767 ≤ℤ v) × (v ≤ℤ pos 32767)

infix 50 ◌==ℤ◌
abbrev pub ◌==ℤ◌ : ℤ → ℤ → Bool
pos m ==ℤ pos n = m == n
pos m ==ℤ negsuc n = false
negsuc m ==ℤ pos n = false
negsuc m ==ℤ negsuc n = m == n

-- `v ^ k`: the bits of a negative number are those of the number under `negsuc`, inverted.
unfoldable pub xor_ℤ : ℤ → ℕ → ℤ
xor_ℤ (pos n) k = pos (bit_xor n k)
xor_ℤ (negsuc n) k = negsuc (bit_xor n k)

-- A value of a 32-bit `int`.
abbrev pub IsInt : ℤ → Type 0
IsInt v = (negsuc 0x7fff_ffff ≤ℤ v) × (v ≤ℤ pos 0x7fff_ffff)

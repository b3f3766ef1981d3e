-- ===== src/Sound/Samples/Clamp.antt =====
-- `clamp16` as a bound.
use spu_kit.Base.{◌^◌, ◌/◌, true, refl, inr, inl, false, Bool-cases, ◌≡◌, arith, ltb, if◌then◌else◌}
use spu_kit.Base.Int.{◌==ℤ◌, IsShort, ℤ, pos, negsuc, IsInt, to_i16, to_u16, of_u16, ◌>>ℤ◌, xor_ℤ}
use spu_kit.Sound.Samples.{clamp16}

-- The nearest number that an `int16_t` can hold.
abbrev pub nearest_short : ℤ → ℤ
nearest_short (pos n) = if ltb 0x7fff n then pos 0x7fff else pos n
nearest_short (negsuc n) = if ltb 0x7fff n then negsuc 0x7fff else negsuc n

-- On every value of an `int`, the comparison and the exclusive or of clamp16 give the nearest value
-- of an `int16_t`.
pub clamp16-nearest : (v : ℤ) → IsInt v → clamp16 v ≡ nearest_short v
unfolding clamp16 to_i16 to_u16 of_u16 ◌>>ℤ◌ xor_ℤ
clamp16-nearest (pos n) h = elim (Bool-cases (ltb 0x7fff n)) [
  | inl big ↦
      let other' : (to_i16 (pos n) ==ℤ pos n) ≡ false = ground arith in
      let sign : n / 2 ^ 31 ≡ 0 = omega arith in rw (other', big, sign) refl
  | inr small ↦ let same : (to_i16 (pos n) ==ℤ pos n) ≡ true = ground arith in rw (same, small) refl
]
clamp16-nearest (negsuc n) h = elim (Bool-cases (ltb 0x7fff n)) [
  | inl big ↦
      let other' : (to_i16 (negsuc n) ==ℤ negsuc n) ≡ false = ground arith in
      let sign : n / 2 ^ 31 ≡ 0 = omega arith in rw (other', big, sign) refl
  | inr small ↦
      let same : (to_i16 (negsuc n) ==ℤ negsuc n) ≡ true = ground arith in rw (same, small) refl
]

pub clamp16-IsShort : (v : ℤ) → IsInt v → IsShort (clamp16 v)
clamp16-IsShort v h = rw (clamp16-nearest v h) (nearest-IsShort v)
  where
    nearest-IsShort : (v : ℤ) → IsShort (nearest_short v)
    nearest-IsShort (pos n) = ground arith
    nearest-IsShort (negsuc n) = ground arith

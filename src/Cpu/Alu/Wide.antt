-- ===== src/Cpu/Alu/Wide.antt =====
-- The comparison and the 16-bit sums of spc700.c, over `adc` and `sbc`.
use spu_kit.Base.Bits.{or_field, or_comm}
use spu_kit.Cpu.Flags.{set_zn16, set_zn}
use spu_kit.Cpu.Alu.Sums.{adc-sum, sbc-difference}
use spu_kit.Cpu.Alu.{sbc, alu_subw, alu_addw, adc, alu_sbc, alu_cmp}
use spu_kit.Base.{
  ◌∙◌, ◌>>>◌, ◌^◌, ◌-◌, ◌*◌, ◌<<<◌, ◌+◌, u8, test, sym, refl, of_bool, not8, not, false, bit_or,
  arith, ap, IsWord, ◌==◌, ◌≡◌, ℕ, true, leb, IsByte,
}
use spu_kit.Machine.{Cpu}

adc-IsByte : (a b : ℕ) (c : Cpu) → IsByte (adc a b c).0
unfolding adc
adc-IsByte a b c = omega arith

sbc-IsByte : (a b : ℕ) (c : Cpu) → IsByte (sbc a b c).0
unfolding sbc
sbc-IsByte a b c = adc-IsByte a (not8 b) c

-- `alu_cmp` on bytes sets the flags C, Z and N that `alu_sbc` sets with the carry set, and these
-- say that `a` is not below `b` and that the two are equal.
pub cmp-sbc :
    (a b : ℕ) (c : Cpu)
    → IsByte a
    → IsByte b
    → let d = (alu_sbc a b (record c { carry = true })).1 in
      ((alu_cmp a b c).carry ≡ d.carry)
      × ((alu_cmp a b c).zero ≡ d.zero)
      × ((alu_cmp a b c).negative ≡ d.negative)
      × ((alu_cmp a b c).carry ≡ leb b a)
      × ((alu_cmp a b c).zero ≡ (a == b))
unfolding alu_cmp alu_sbc set_zn
cmp-sbc a b c ha hb =
    let (diff, over) = sbc-difference a b (record c { carry = true }) ha hb in
    let fits = sbc-IsByte a b (record c { carry = true }) in
    let value : (sbc a b (record c { carry = true })).0 ≡ u8 (a + 256 - b) = ground arith in
    (
      ground arith,
      ap (λ r. r == 0) (sym value),
      ap (λ r. test r 0x80) (sym value),
      refl,
      ground arith,
    )

-- A word of two bytes that the ALU joins.
join : (lo hi : ℕ) → IsByte lo → bit_or lo (hi <<< 8) ≡ hi * 256 + lo
join lo hi h = or_comm lo (hi <<< 8) ∙ or_field 8 hi lo h

-- The sum of two words, with the carry out; Z says that the word returned is 0.
pub addw-sum :
    (a b : ℕ) (c : Cpu)
    → IsWord a
    → IsWord b
    → ((alu_addw a b c).0 + 2 ^ 16 * of_bool (alu_addw a b c).1.carry ≡ a + b)
      × ((alu_addw a b c).1.zero ≡ ((alu_addw a b c).0 == 0))
unfolding alu_addw set_zn16
addw-sum a b c ha hb =
    let low = adc-sum (u8 a) (u8 b) (record c { carry = false }) (omega arith) (omega arith) in
    let d = (adc (u8 a) (u8 b) (record c { carry = false })).1 in
    let high = adc-sum (a >>> 8) (b >>> 8) d (omega arith) (omega arith) in
    (
      rw
          (join _ (adc (a >>> 8) (b >>> 8) d).0
            (adc-IsByte (u8 a) (u8 b) (record c { carry = false })))
          (omega (arith, low.0, high.0)),
      refl,
    )

-- The difference of two words, with the inverted borrow out; Z says that the word returned is 0.
subw-difference :
    (a b : ℕ) (c : Cpu)
    → IsWord a
    → IsWord b
    → ((alu_subw a b c).0 + b ≡ a + 2 ^ 16 * of_bool (not (alu_subw a b c).1.carry))
      × ((alu_subw a b c).1.zero ≡ ((alu_subw a b c).0 == 0))
unfolding alu_subw set_zn16
subw-difference a b c ha hb =
    let low =
      sbc-difference (u8 a) (u8 b) (record c { carry = true }) (omega arith) (omega arith) in
    let d = (sbc (u8 a) (u8 b) (record c { carry = true })).1 in
    let high = sbc-difference (a >>> 8) (b >>> 8) d (omega arith) (omega arith) in
    (
      rw
          (join _ (sbc (a >>> 8) (b >>> 8) d).0
            (sbc-IsByte (u8 a) (u8 b) (record c { carry = true })))
          (omega (arith, low.0, high.0)),
      refl,
    )

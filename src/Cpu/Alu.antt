-- ===== src/Cpu/Alu.antt =====
-- The ALU of spc700.c, as functions of the registers that return a value beside the new flags.
pub mod Ranges
pub mod Sums
pub mod Wide
pub mod Rotate
use spu_kit.Base.{
  ℕ, ◌+◌, ◌-◌, ◌^◌, bit_and, bit_or, bit_xor, true, false, leb, u8, u16, not8, of_bool, test, ◌<<<◌,
  ◌>>>◌,
}
use spu_kit.Machine.{Cpu}
use spu_kit.Cpu.Flags.{set_zn, set_zn16}

unfoldable pub alu_asl : ℕ → Cpu → ℕ × Cpu
alu_asl operand c =
    let result = u8 (operand <<< 1) in
    (result, set_zn result (record c { carry = test operand 0x80 }))

unfoldable pub alu_rol : ℕ → Cpu → ℕ × Cpu
alu_rol operand c =
    let result = bit_or (operand <<< 1) (of_bool c.carry) in
    let trunc = u8 result in (trunc, set_zn trunc (record c { carry = test result 0x100 }))

unfoldable pub alu_lsr : ℕ → Cpu → ℕ × Cpu
alu_lsr operand c =
    let result = operand >>> 1 in (result, set_zn result (record c { carry = test operand 0x1 }))

unfoldable pub alu_ror : ℕ → Cpu → ℕ × Cpu
alu_ror operand c =
    let result = bit_or (of_bool c.carry <<< 7) (operand >>> 1) in
    (result, set_zn result (record c { carry = test operand 0x1 }))

unfoldable pub alu_or : ℕ → ℕ → Cpu → ℕ × Cpu
alu_or a b c = let result = bit_or a b in (result, set_zn result c)

unfoldable pub alu_and : ℕ → ℕ → Cpu → ℕ × Cpu
alu_and a b c = let result = bit_and a b in (result, set_zn result c)

unfoldable pub alu_eor : ℕ → ℕ → Cpu → ℕ × Cpu
alu_eor a b c = let result = bit_xor a b in (result, set_zn result c)

unfoldable pub adc : ℕ → ℕ → Cpu → ℕ × Cpu
adc a b c =
    let result = u16 (a + b + of_bool c.carry) in
    let trunc = u8 result in
    (
      trunc,
      record c {
        carry = test result 0xff00;
        half_carry = test (bit_xor (bit_xor a b) trunc) 0x10;
        overflow = test (bit_and (bit_xor a trunc) (bit_xor b trunc)) 0x80;
      },
    )

unfoldable pub sbc : ℕ → ℕ → Cpu → ℕ × Cpu
unfolding adc
sbc a b = adc a (not8 b)

unfoldable pub alu_adc : ℕ → ℕ → Cpu → ℕ × Cpu
alu_adc a b c = let (result, d) = adc a b c in (result, set_zn result d)

unfoldable pub alu_sbc : ℕ → ℕ → Cpu → ℕ × Cpu
alu_sbc a b c = let (result, d) = sbc a b c in (result, set_zn result d)

-- C leaves the order of the two calls of `adc` open; the low byte goes first here, as the carry
-- between them needs.
unfoldable pub alu_addw : ℕ → ℕ → Cpu → ℕ × Cpu
alu_addw a b c =
    let (lo, d) = adc (u8 a) (u8 b) (record c { carry = false }) in
    let (hi, e) = adc (a >>> 8) (b >>> 8) d in
    let result = bit_or lo (hi <<< 8) in (result, set_zn16 result e)

unfoldable pub alu_subw : ℕ → ℕ → Cpu → ℕ × Cpu
alu_subw a b c =
    let (lo, d) = sbc (u8 a) (u8 b) (record c { carry = true }) in
    let (hi, e) = sbc (a >>> 8) (b >>> 8) d in
    let result = bit_or lo (hi <<< 8) in (result, set_zn16 result e)

-- `cmp >= 0`, and the difference converted to `uint8_t`.
unfoldable pub alu_cmp : ℕ → ℕ → Cpu → Cpu
alu_cmp a b c = set_zn (u8 (a + 2 ^ 8 - b)) (record c { carry = leb b a })

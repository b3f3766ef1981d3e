-- ===== src/Cpu/Alu/Ranges.antt =====
-- The ranges of what the ALU of spc700.c returns and of the registers after it.
use spu_kit.Base.Bits.{or_field, xor-lt, or-lt, and-lt}
use spu_kit.Machine.Valid.{IsValidCpu}
use spu_kit.Cpu.Flags.{set_zn16, set_zn, set_z}
use spu_kit.Cpu.Alu.{
  sbc, alu_subw, alu_sbc, alu_ror, alu_rol, alu_or, alu_lsr, alu_eor, alu_cmp, alu_asl, alu_and,
  alu_addw, alu_adc, adc,
}
use spu_kit.Machine.{Cpu}
use spu_kit.Base.{true, false, ◌<<<◌, of_bool, ◌>>>◌, bit_or, IsWord, IsByte, Bool, ℕ, ◌<◌, arith}

abbrev pub AluSafe : (ℕ → Type 0) → (Cpu → ℕ × Cpu) → Type 0
AluSafe Q f = (c : Cpu) → IsValidCpu c → Q (f c).0 × IsValidCpu (f c).1

pub set_zn-IsValidCpu : (result : ℕ) (c : Cpu) → IsValidCpu c → IsValidCpu (set_zn result c)
unfolding set_zn
set_zn-IsValidCpu result c v = omega arith

pub set_zn16-IsValidCpu : (result : ℕ) (c : Cpu) → IsValidCpu c → IsValidCpu (set_zn16 result c)
unfolding set_zn16
set_zn16-IsValidCpu result c v = omega arith

pub set_z-IsValidCpu : (result : ℕ) (c : Cpu) → IsValidCpu c → IsValidCpu (set_z result c)
unfolding set_z
set_z-IsValidCpu result c v = omega arith

pub asl-Safe : (operand : ℕ) → AluSafe IsByte (alu_asl operand)
unfolding alu_asl set_zn
asl-Safe operand c v = omega arith

pub rol-Safe : (operand : ℕ) → AluSafe IsByte (alu_rol operand)
unfolding alu_rol set_zn
rol-Safe operand c v = omega arith

pub lsr-Safe : (operand : ℕ) → IsByte operand → AluSafe IsByte (alu_lsr operand)
unfolding alu_lsr set_zn
lsr-Safe operand h c v = omega arith

carry_at_seven : (b : Bool) (n : ℕ) → n < 128 → bit_or (of_bool b <<< 7) n < 256
carry_at_seven true n h = omega (arith, or_field 7 1 n h)
carry_at_seven false n h = omega (arith, or_field 7 0 n h)

pub ror-Safe : (operand : ℕ) → IsByte operand → AluSafe IsByte (alu_ror operand)
unfolding alu_ror set_zn
ror-Safe operand h c v = omega (arith, carry_at_seven c.carry (operand >>> 1) (omega arith))

pub or-Safe : (a b : ℕ) → IsByte a → IsByte b → AluSafe IsByte (alu_or a b)
unfolding alu_or set_zn
or-Safe a b ha hb c v = omega (arith, or-lt 8 a b ha hb)

pub and-Safe : (a b : ℕ) → IsByte a → IsByte b → AluSafe IsByte (alu_and a b)
unfolding alu_and set_zn
and-Safe a b ha hb c v = omega (arith, and-lt 8 a b ha)

pub eor-Safe : (a b : ℕ) → IsByte a → IsByte b → AluSafe IsByte (alu_eor a b)
unfolding alu_eor set_zn
eor-Safe a b ha hb c v = omega (arith, xor-lt 8 a b ha hb)

pub adc-Safe : (a b : ℕ) → IsByte a → IsByte b → AluSafe IsByte (alu_adc a b)
unfolding alu_adc adc set_zn
adc-Safe a b ha hb c v = omega arith

pub sbc-Safe : (a b : ℕ) → IsByte a → IsByte b → AluSafe IsByte (alu_sbc a b)
unfolding alu_sbc sbc set_zn
sbc-Safe a b ha hb c v = omega arith

pub addw-Safe : (a b : ℕ) → AluSafe IsWord (alu_addw a b)
unfolding alu_addw adc
addw-Safe a b c v =
    (or-lt 16 _ _ (omega arith) (omega arith), set_zn16-IsValidCpu _ _ (omega arith))

pub subw-Safe : (a b : ℕ) → AluSafe IsWord (alu_subw a b)
unfolding alu_subw sbc
subw-Safe a b c v =
    (or-lt 16 _ _ (omega arith) (omega arith), set_zn16-IsValidCpu _ _ (omega arith))

pub cmp-IsValidCpu : (a b : ℕ) (c : Cpu) → IsValidCpu c → IsValidCpu (alu_cmp a b c)
unfolding alu_cmp set_zn
cmp-IsValidCpu a b c v = omega arith

-- ===== src/Cpu/Insn/Membit.antt =====
-- The instructions of spc700.c between the carry and a bit of the first 8 KiB, and `tset1`, `tclr1`.
use spu_kit.Base.{◌+◌, ◌-◌, bit_and, bit_or, bit_xor, Bool, not, xor, ◌&&◌, ◌||◌, u8, not8, ◌<<<◌}
use spu_kit.Machine.Action.{M, registers, assign, ◌>>=◌, ◌>>◌}
use spu_kit.Memory.{mem_load, mem_store}
use spu_kit.Cpu.Flags.{set_zn}
use spu_kit.Cpu.Address.{set_carry, absolute, bitaddr, bitaddr_load, bitaddr_store}

-- The carry combined with a bit of memory.
unfoldable pub carry_bit : (Bool → Bool → Bool) → M (Unit {0})
carry_bit op = do
  operand ← bitaddr
  bit ← bitaddr_load operand
  c ← registers
  set_carry (op c.carry bit)

unfoldable pub insn_or1 : M (Unit {0})
insn_or1 = carry_bit (λ carry bit. carry || bit)

unfoldable pub insn_or1_not : M (Unit {0})
insn_or1_not = carry_bit (λ carry bit. carry || not bit)

unfoldable pub insn_and1 : M (Unit {0})
insn_and1 = carry_bit (λ carry bit. carry && bit)

unfoldable pub insn_and1_not : M (Unit {0})
insn_and1_not = carry_bit (λ carry bit. carry && not bit)

unfoldable pub insn_eor1 : M (Unit {0})
insn_eor1 = carry_bit (λ carry bit. xor carry bit)

unfoldable pub insn_mov1_load : M (Unit {0})
insn_mov1_load = carry_bit (λ carry bit. bit)

unfoldable pub insn_mov1_store : M (Unit {0})
insn_mov1_store = do operand ← bitaddr; c ← registers; bitaddr_store operand c.carry

unfoldable pub insn_not1 : M (Unit {0})
insn_not1 = do
  operand ← bitaddr
  byte ← mem_load operand.addr
  mem_store operand.addr (bit_xor byte (1 <<< operand.bit))

unfoldable pub insn_tset1_abs : M (Unit {0})
insn_tset1_abs = do
  addr ← absolute
  operand ← mem_load addr
  c ← registers
  mem_store addr (bit_or operand c.a)
  assign (set_zn (u8 (c.a + 256 - operand)))

unfoldable pub insn_tclr1_abs : M (Unit {0})
insn_tclr1_abs = do
  addr ← absolute
  operand ← mem_load addr
  c ← registers
  mem_store addr (bit_and operand (not8 c.a))
  assign (set_zn (u8 (c.a + 256 - operand)))

-- ===== src/Cpu/Insn/Word.antt =====
-- The 16-bit instructions of spc700.c, `mul`, `div` and `xcn`.
use spu_kit.Base.{
  ℕ, ◌+◌, ◌-◌, ◌*◌, ◌/◌, ◌%◌, bit_and, bit_or, ltb, leb, if◌then◌else◌, u8, u16, ◌<<<◌, ◌>>>◌,
}
use spu_kit.Machine.{Cpu}
use spu_kit.Machine.Action.{M, registers, on_cpu, assign, ◌>>=◌, ◌>>◌}
use spu_kit.Memory.{mem_store, mem_load_word, mem_store_word}
use spu_kit.Cpu.Flags.{set_zn, set_zn16}
use spu_kit.Cpu.Alu.{alu_addw, alu_subw}
use spu_kit.Cpu.Address.{get_ya, set_ya, set_a, direct_page}

-- `mem_store(addr, result)` of a 16-bit result: the parameter is a `uint8_t`, so the low byte alone
-- is stored, as in the source.
unfoldable pub step_word : ℕ → M (Unit {0})
step_word delta = do
  addr ← direct_page
  operand ← mem_load_word addr
  assign (set_zn16 (u16 (operand + delta)))
  mem_store addr (u8 (u16 (operand + delta)))

unfoldable pub insn_decw_dp : M (Unit {0})
insn_decw_dp = step_word 0xffff

unfoldable pub insn_incw_dp : M (Unit {0})
insn_incw_dp = step_word 1

unfoldable pub insn_addw_ya_dp : M (Unit {0})
insn_addw_ya_dp = do
  addr ← direct_page
  operand ← mem_load_word addr
  c ← registers
  result ← on_cpu (alu_addw (get_ya c) operand)
  set_ya result

unfoldable pub insn_subw_ya_dp : M (Unit {0})
insn_subw_ya_dp = do
  addr ← direct_page
  operand ← mem_load_word addr
  c ← registers
  result ← on_cpu (alu_subw (get_ya c) operand)
  set_ya result

unfoldable pub insn_movw_ya_dp : M (Unit {0})
insn_movw_ya_dp = do
  addr ← direct_page
  operand ← mem_load_word addr
  set_ya operand
  assign (set_zn16 operand)

unfoldable pub insn_movw_dp_ya : M (Unit {0})
insn_movw_dp_ya = do addr ← direct_page; c ← registers; mem_store_word addr (get_ya c)

-- The registers after `div YA,X`. No divisor is 0: `y < x << 1` needs `x`, and `x` is a byte.
unfoldable pub divide : Cpu → Cpu
divide c =
    let ya = get_ya c in
    let d = record c {
      half_carry = leb (bit_and c.x 0xf) (bit_and c.y 0xf);
      overflow = leb c.x c.y;
    } in
    let e =
      if ltb c.y (c.x <<< 1) then record d { a = u8 (ya / c.x); y = u8 (ya % c.x) } else record d {
        a = u8 (0xff - (ya - c.x <<< 9) / (0x100 - c.x));
        y = u8 (c.x + (ya - c.x <<< 9) % (0x100 - c.x));
      } in
    set_zn e.a e

unfoldable pub insn_divw_ya_x : M (Unit {0})
insn_divw_ya_x = assign divide

unfoldable pub insn_mul_ya : M (Unit {0})
insn_mul_ya = do c ← registers; assign (set_zn16 (u16 (c.a * c.y))); set_ya (u16 (c.a * c.y))

-- The two halves of a byte exchanged.
unfoldable pub exchange : ℕ → ℕ
exchange a = u8 (bit_or (a <<< 4) (a >>> 4))

unfoldable pub insn_xcn : M (Unit {0})
insn_xcn = do c ← registers; assign (set_zn (exchange c.a)); set_a (exchange c.a)

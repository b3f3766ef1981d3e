-- ===== src/Cpu/Insn/Compare.antt =====
-- The comparisons of spc700.c.
use spu_kit.Base.{ℕ, ◌+◌, ◌-◌, ◌^◌, leb, u16}
use spu_kit.Machine.{Cpu}
use spu_kit.Machine.Action.{M, registers, assign, ◌>>=◌}
use spu_kit.Memory.{mem_load, mem_load_word}
use spu_kit.Cpu.Flags.{set_zn16}
use spu_kit.Cpu.Alu.{alu_cmp}
use spu_kit.Cpu.Address.{
  get_ya, immediate, direct_page, direct_page_x, direct_page_indirect_y, direct_page_x_indirect,
  indirect_x, indirect_y, absolute, absolute_x, absolute_y,
}

-- A register against memory.
unfoldable pub cmp_mem : (Cpu → ℕ) → M ℕ → M (Unit {0})
cmp_mem reg mode = do
  addr ← mode
  operand ← mem_load addr
  c ← registers
  assign (alu_cmp (reg c) operand)

-- A register against an immediate.
unfoldable pub cmp_imm : (Cpu → ℕ) → M (Unit {0})
cmp_imm reg = do operand ← immediate; c ← registers; assign (alu_cmp (reg c) operand)

unfoldable pub insn_cmp_a_dp : M (Unit {0})
insn_cmp_a_dp = cmp_mem (λ c. c.a) direct_page

unfoldable pub insn_cmp_a_abs : M (Unit {0})
insn_cmp_a_abs = cmp_mem (λ c. c.a) absolute

unfoldable pub insn_cmp_a_ix : M (Unit {0})
insn_cmp_a_ix = cmp_mem (λ c. c.a) indirect_x

unfoldable pub insn_cmp_a_dx_ind : M (Unit {0})
insn_cmp_a_dx_ind = cmp_mem (λ c. c.a) direct_page_x_indirect

unfoldable pub insn_cmp_a_dpx : M (Unit {0})
insn_cmp_a_dpx = cmp_mem (λ c. c.a) direct_page_x

unfoldable pub insn_cmp_a_absx : M (Unit {0})
insn_cmp_a_absx = cmp_mem (λ c. c.a) absolute_x

unfoldable pub insn_cmp_a_absy : M (Unit {0})
insn_cmp_a_absy = cmp_mem (λ c. c.a) absolute_y

unfoldable pub insn_cmp_a_dpiy : M (Unit {0})
insn_cmp_a_dpiy = cmp_mem (λ c. c.a) direct_page_indirect_y

unfoldable pub insn_cmp_y_dp : M (Unit {0})
insn_cmp_y_dp = cmp_mem (λ c. c.y) direct_page

unfoldable pub insn_cmp_a_imm : M (Unit {0})
insn_cmp_a_imm = cmp_imm (λ c. c.a)

unfoldable pub insn_cmp_x_imm : M (Unit {0})
insn_cmp_x_imm = cmp_imm (λ c. c.x)

unfoldable pub insn_cmp_y_imm : M (Unit {0})
insn_cmp_y_imm = cmp_imm (λ c. c.y)

unfoldable pub insn_cmp_dp_dp : M (Unit {0})
insn_cmp_dp_dp = do
  src ← direct_page
  dst ← direct_page
  src_val ← mem_load src
  dst_val ← mem_load dst
  assign (alu_cmp src_val dst_val)

unfoldable pub insn_cmp_dp_imm : M (Unit {0})
insn_cmp_dp_imm = do
  imm ← immediate
  addr ← direct_page
  operand ← mem_load addr
  assign (alu_cmp operand imm)

unfoldable pub insn_cmp_ix_iy : M (Unit {0})
insn_cmp_ix_iy = do
  dst ← indirect_x
  src ← indirect_y
  src_val ← mem_load src
  dst_val ← mem_load dst
  assign (alu_cmp src_val dst_val)

-- The flags of a 16-bit comparison.
unfoldable pub alu_cmpw : ℕ → ℕ → Cpu → Cpu
alu_cmpw ya operand c = set_zn16 (u16 (ya + 2 ^ 16 - operand)) (record c { carry = leb operand ya })

unfoldable pub insn_cmpw_ya_d : M (Unit {0})
insn_cmpw_ya_d = do
  addr ← direct_page
  operand ← mem_load_word addr
  c ← registers
  assign (alu_cmpw (get_ya c) operand)

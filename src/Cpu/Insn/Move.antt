-- ===== src/Cpu/Insn/Move.antt =====
-- The moves of spc700.c.
use spu_kit.Base.{ℕ}
use spu_kit.Machine.{Cpu}
use spu_kit.Machine.Action.{M, registers, assign, ◌>>=◌, ◌>>◌}
use spu_kit.Memory.{mem_load, mem_store}
use spu_kit.Cpu.Flags.{set_zn}
use spu_kit.Cpu.Address.{
  set_a, set_x, set_y, immediate, direct_page, direct_page_x, direct_page_indirect_y,
  direct_page_x_indirect, indirect_x, absolute, absolute_x, absolute_y,
}

-- A load sets the flags Z and N.
unfoldable pub load_reg : (ℕ → M (Unit {0})) → M ℕ → M (Unit {0})
load_reg set_reg mode = do
  addr ← mode
  operand ← mem_load addr
  assign (set_zn operand)
  set_reg operand

unfoldable pub load_imm : (ℕ → M (Unit {0})) → M (Unit {0})
load_imm set_reg = do operand ← immediate; assign (set_zn operand); set_reg operand

unfoldable pub store_reg : (Cpu → ℕ) → M ℕ → M (Unit {0})
store_reg reg mode = do addr ← mode; c ← registers; mem_store addr (reg c)

unfoldable pub transfer : (Cpu → ℕ) → (ℕ → M (Unit {0})) → M (Unit {0})
transfer reg set_reg = do c ← registers; assign (set_zn (reg c)); set_reg (reg c)

unfoldable pub insn_mov_a_dp : M (Unit {0})
insn_mov_a_dp = load_reg set_a direct_page

unfoldable pub insn_mov_a_abs : M (Unit {0})
insn_mov_a_abs = load_reg set_a absolute

unfoldable pub insn_mov_a_ix : M (Unit {0})
insn_mov_a_ix = load_reg set_a indirect_x

unfoldable pub insn_mov_a_dx_ind : M (Unit {0})
insn_mov_a_dx_ind = load_reg set_a direct_page_x_indirect

unfoldable pub insn_mov_a_dpx : M (Unit {0})
insn_mov_a_dpx = load_reg set_a direct_page_x

unfoldable pub insn_mov_a_absx : M (Unit {0})
insn_mov_a_absx = load_reg set_a absolute_x

unfoldable pub insn_mov_a_absy : M (Unit {0})
insn_mov_a_absy = load_reg set_a absolute_y

unfoldable pub insn_mov_a_dpiy : M (Unit {0})
insn_mov_a_dpiy = load_reg set_a direct_page_indirect_y

unfoldable pub insn_mov_y_dp : M (Unit {0})
insn_mov_y_dp = load_reg set_y direct_page

unfoldable pub insn_mov_y_dpx : M (Unit {0})
insn_mov_y_dpx = load_reg set_y direct_page_x

unfoldable pub insn_mov_y_abs : M (Unit {0})
insn_mov_y_abs = load_reg set_y absolute

unfoldable pub insn_mov_a_imm : M (Unit {0})
insn_mov_a_imm = load_imm set_a

unfoldable pub insn_mov_x_imm : M (Unit {0})
insn_mov_x_imm = load_imm set_x

unfoldable pub insn_mov_y_imm : M (Unit {0})
insn_mov_y_imm = load_imm set_y

-- `mov X,!a` assigns before it sets the flags.
unfoldable pub insn_mov_x_abs : M (Unit {0})
insn_mov_x_abs = do addr ← absolute; operand ← mem_load addr; set_x operand; assign (set_zn operand)

-- `mov X,d` sets no flag, as in the source.
unfoldable pub insn_mov_x_dp : M (Unit {0})
insn_mov_x_dp = do addr ← direct_page; operand ← mem_load addr; set_x operand

unfoldable pub insn_mov_dp_a : M (Unit {0})
insn_mov_dp_a = store_reg (λ c. c.a) direct_page

unfoldable pub insn_mov_abs_a : M (Unit {0})
insn_mov_abs_a = store_reg (λ c. c.a) absolute

unfoldable pub insn_mov_ix_a : M (Unit {0})
insn_mov_ix_a = store_reg (λ c. c.a) indirect_x

unfoldable pub insn_mov_dpx_a : M (Unit {0})
insn_mov_dpx_a = store_reg (λ c. c.a) direct_page_x

unfoldable pub insn_mov_absx_a : M (Unit {0})
insn_mov_absx_a = store_reg (λ c. c.a) absolute_x

unfoldable pub insn_mov_absy_a : M (Unit {0})
insn_mov_absy_a = store_reg (λ c. c.a) absolute_y

unfoldable pub insn_mov_dpiy_a : M (Unit {0})
insn_mov_dpiy_a = store_reg (λ c. c.a) direct_page_indirect_y

unfoldable pub insn_mov_dp_x : M (Unit {0})
insn_mov_dp_x = store_reg (λ c. c.x) direct_page

unfoldable pub insn_mov_abs_x : M (Unit {0})
insn_mov_abs_x = store_reg (λ c. c.x) absolute

unfoldable pub insn_mov_dp_y : M (Unit {0})
insn_mov_dp_y = store_reg (λ c. c.y) direct_page

unfoldable pub insn_mov_dpx_y : M (Unit {0})
insn_mov_dpx_y = store_reg (λ c. c.y) direct_page_x

unfoldable pub insn_mov_abs_y : M (Unit {0})
insn_mov_abs_y = store_reg (λ c. c.y) absolute

-- `mov [d+X],A` stores at d+X itself, as in the source.
unfoldable pub insn_mov_dx_ind_a : M (Unit {0})
insn_mov_dx_ind_a = store_reg (λ c. c.a) direct_page_x

unfoldable pub insn_mov_dp_imm : M (Unit {0})
insn_mov_dp_imm = do imm ← immediate; addr ← direct_page; mem_store addr imm

unfoldable pub insn_mov_dp_dp : M (Unit {0})
insn_mov_dp_dp = do
  src ← direct_page
  dst ← direct_page
  operand ← mem_load src
  mem_store dst operand

unfoldable pub insn_mov_x_a : M (Unit {0})
insn_mov_x_a = transfer (λ c. c.a) set_x

unfoldable pub insn_mov_a_x : M (Unit {0})
insn_mov_a_x = transfer (λ c. c.x) set_a

unfoldable pub insn_mov_a_y : M (Unit {0})
insn_mov_a_y = transfer (λ c. c.y) set_a

unfoldable pub insn_mov_y_a : M (Unit {0})
insn_mov_y_a = transfer (λ c. c.a) set_y

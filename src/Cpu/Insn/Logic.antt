-- ===== src/Cpu/Insn/Logic.antt =====
-- The logical instructions of spc700.c.
use spu_kit.Machine.Action.{M}
use spu_kit.Cpu.Alu.{alu_or, alu_and, alu_eor}
use spu_kit.Cpu.Address.{
  direct_page, direct_page_x, direct_page_indirect_y, direct_page_x_indirect, indirect_x, absolute,
  absolute_x, absolute_y,
}
use spu_kit.Cpu.Insn.Shape.{alu_a_mem, alu_a_imm, alu_dp_dp, alu_imm_dp, alu_ix_iy}

unfoldable pub insn_or_a_dp : M (Unit {0})
insn_or_a_dp = alu_a_mem alu_or direct_page

unfoldable pub insn_or_a_abs : M (Unit {0})
insn_or_a_abs = alu_a_mem alu_or absolute

unfoldable pub insn_or_a_ix : M (Unit {0})
insn_or_a_ix = alu_a_mem alu_or indirect_x

unfoldable pub insn_or_a_dx_ind : M (Unit {0})
insn_or_a_dx_ind = alu_a_mem alu_or direct_page_x_indirect

unfoldable pub insn_or_a_dpx : M (Unit {0})
insn_or_a_dpx = alu_a_mem alu_or direct_page_x

unfoldable pub insn_or_a_absx : M (Unit {0})
insn_or_a_absx = alu_a_mem alu_or absolute_x

unfoldable pub insn_or_a_absy : M (Unit {0})
insn_or_a_absy = alu_a_mem alu_or absolute_y

unfoldable pub insn_or_a_dpiy : M (Unit {0})
insn_or_a_dpiy = alu_a_mem alu_or direct_page_indirect_y

unfoldable pub insn_or_a_imm : M (Unit {0})
insn_or_a_imm = alu_a_imm alu_or

unfoldable pub insn_or_dp_dp : M (Unit {0})
insn_or_dp_dp = alu_dp_dp alu_or

unfoldable pub insn_or_dp_imm : M (Unit {0})
insn_or_dp_imm = alu_imm_dp alu_or

unfoldable pub insn_or_ix_iy : M (Unit {0})
insn_or_ix_iy = alu_ix_iy alu_or

unfoldable pub insn_and_a_dp : M (Unit {0})
insn_and_a_dp = alu_a_mem alu_and direct_page

unfoldable pub insn_and_a_abs : M (Unit {0})
insn_and_a_abs = alu_a_mem alu_and absolute

unfoldable pub insn_and_a_ix : M (Unit {0})
insn_and_a_ix = alu_a_mem alu_and indirect_x

unfoldable pub insn_and_a_dx_ind : M (Unit {0})
insn_and_a_dx_ind = alu_a_mem alu_and direct_page_x_indirect

unfoldable pub insn_and_a_dpx : M (Unit {0})
insn_and_a_dpx = alu_a_mem alu_and direct_page_x

unfoldable pub insn_and_a_absx : M (Unit {0})
insn_and_a_absx = alu_a_mem alu_and absolute_x

unfoldable pub insn_and_a_absy : M (Unit {0})
insn_and_a_absy = alu_a_mem alu_and absolute_y

unfoldable pub insn_and_a_dpiy : M (Unit {0})
insn_and_a_dpiy = alu_a_mem alu_and direct_page_indirect_y

unfoldable pub insn_and_a_imm : M (Unit {0})
insn_and_a_imm = alu_a_imm alu_and

unfoldable pub insn_and_dp_dp : M (Unit {0})
insn_and_dp_dp = alu_dp_dp alu_and

unfoldable pub insn_and_dp_imm : M (Unit {0})
insn_and_dp_imm = alu_imm_dp alu_and

unfoldable pub insn_and_ix_iy : M (Unit {0})
insn_and_ix_iy = alu_ix_iy alu_and

unfoldable pub insn_eor_a_dp : M (Unit {0})
insn_eor_a_dp = alu_a_mem alu_eor direct_page

unfoldable pub insn_eor_a_abs : M (Unit {0})
insn_eor_a_abs = alu_a_mem alu_eor absolute

unfoldable pub insn_eor_a_ix : M (Unit {0})
insn_eor_a_ix = alu_a_mem alu_eor indirect_x

unfoldable pub insn_eor_a_dx_ind : M (Unit {0})
insn_eor_a_dx_ind = alu_a_mem alu_eor direct_page_x_indirect

unfoldable pub insn_eor_a_dpx : M (Unit {0})
insn_eor_a_dpx = alu_a_mem alu_eor direct_page_x

unfoldable pub insn_eor_a_absx : M (Unit {0})
insn_eor_a_absx = alu_a_mem alu_eor absolute_x

unfoldable pub insn_eor_a_absy : M (Unit {0})
insn_eor_a_absy = alu_a_mem alu_eor absolute_y

unfoldable pub insn_eor_a_dpiy : M (Unit {0})
insn_eor_a_dpiy = alu_a_mem alu_eor direct_page_indirect_y

unfoldable pub insn_eor_a_imm : M (Unit {0})
insn_eor_a_imm = alu_a_imm alu_eor

unfoldable pub insn_eor_dp_dp : M (Unit {0})
insn_eor_dp_dp = alu_dp_dp alu_eor

unfoldable pub insn_eor_dp_imm : M (Unit {0})
insn_eor_dp_imm = alu_imm_dp alu_eor

unfoldable pub insn_eor_ix_iy : M (Unit {0})
insn_eor_ix_iy = alu_ix_iy alu_eor

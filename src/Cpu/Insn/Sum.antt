-- ===== src/Cpu/Insn/Sum.antt =====
-- The additions and subtractions of bytes of spc700.c.
use spu_kit.Machine.Action.{M}
use spu_kit.Cpu.Alu.{alu_adc, alu_sbc}
use spu_kit.Cpu.Address.{
  direct_page, direct_page_x, direct_page_indirect_y, direct_page_x_indirect, indirect_x, absolute,
  absolute_x, absolute_y,
}
use spu_kit.Cpu.Insn.Shape.{alu_a_mem, alu_a_imm, alu_dp_dp, alu_dp_imm, alu_ix_iy}

unfoldable pub insn_adc_a_dp : M (Unit {0})
insn_adc_a_dp = alu_a_mem alu_adc direct_page

unfoldable pub insn_adc_a_abs : M (Unit {0})
insn_adc_a_abs = alu_a_mem alu_adc absolute

unfoldable pub insn_adc_a_ix : M (Unit {0})
insn_adc_a_ix = alu_a_mem alu_adc indirect_x

unfoldable pub insn_adc_a_dx_ind : M (Unit {0})
insn_adc_a_dx_ind = alu_a_mem alu_adc direct_page_x_indirect

unfoldable pub insn_adc_a_dpx : M (Unit {0})
insn_adc_a_dpx = alu_a_mem alu_adc direct_page_x

unfoldable pub insn_adc_a_absx : M (Unit {0})
insn_adc_a_absx = alu_a_mem alu_adc absolute_x

unfoldable pub insn_adc_a_absy : M (Unit {0})
insn_adc_a_absy = alu_a_mem alu_adc absolute_y

unfoldable pub insn_adc_a_dpiy : M (Unit {0})
insn_adc_a_dpiy = alu_a_mem alu_adc direct_page_indirect_y

unfoldable pub insn_adc_a_imm : M (Unit {0})
insn_adc_a_imm = alu_a_imm alu_adc

unfoldable pub insn_adc_dp_dp : M (Unit {0})
insn_adc_dp_dp = alu_dp_dp alu_adc

unfoldable pub insn_adc_dp_imm : M (Unit {0})
insn_adc_dp_imm = alu_dp_imm alu_adc

unfoldable pub insn_adc_ix_iy : M (Unit {0})
insn_adc_ix_iy = alu_ix_iy alu_adc

unfoldable pub insn_sbc_a_dp : M (Unit {0})
insn_sbc_a_dp = alu_a_mem alu_sbc direct_page

unfoldable pub insn_sbc_a_abs : M (Unit {0})
insn_sbc_a_abs = alu_a_mem alu_sbc absolute

unfoldable pub insn_sbc_a_ix : M (Unit {0})
insn_sbc_a_ix = alu_a_mem alu_sbc indirect_x

unfoldable pub insn_sbc_a_dx_ind : M (Unit {0})
insn_sbc_a_dx_ind = alu_a_mem alu_sbc direct_page_x_indirect

unfoldable pub insn_sbc_a_dpx : M (Unit {0})
insn_sbc_a_dpx = alu_a_mem alu_sbc direct_page_x

unfoldable pub insn_sbc_a_absx : M (Unit {0})
insn_sbc_a_absx = alu_a_mem alu_sbc absolute_x

unfoldable pub insn_sbc_a_absy : M (Unit {0})
insn_sbc_a_absy = alu_a_mem alu_sbc absolute_y

unfoldable pub insn_sbc_a_dpiy : M (Unit {0})
insn_sbc_a_dpiy = alu_a_mem alu_sbc direct_page_indirect_y

unfoldable pub insn_sbc_a_imm : M (Unit {0})
insn_sbc_a_imm = alu_a_imm alu_sbc

unfoldable pub insn_sbc_dp_dp : M (Unit {0})
insn_sbc_dp_dp = alu_dp_dp alu_sbc

unfoldable pub insn_sbc_dp_imm : M (Unit {0})
insn_sbc_dp_imm = alu_dp_imm alu_sbc

unfoldable pub insn_sbc_ix_iy : M (Unit {0})
insn_sbc_ix_iy = alu_ix_iy alu_sbc

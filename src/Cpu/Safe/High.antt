-- ===== src/Cpu/Safe/High.antt =====
-- Rows 8 to b of `opcode_tbl` of spc700.c.
use spu_kit.Cpu.Safe.Stack.{tcall-Ensures}
use spu_kit.Cpu.Table.{row_b, row_a, row_9, row_8}
use spu_kit.Cpu.Insn.Move.{insn_mov_y_imm, insn_mov_dp_imm}
use spu_kit.Cpu.Insn.Membit.{insn_mov1_load, insn_eor1}
use spu_kit.Cpu.Insn.Control.{insn_setc, insn_pop_psw, insn_pop_a, insn_ei}
use spu_kit.Cpu.Insn.Word.{insn_xcn, insn_subw_ya_dp, insn_movw_ya_dp, insn_divw_ya_x}
use spu_kit.Cpu.Insn.Shift.{
  insn_inc_dpx, insn_inc_dp, insn_inc_abs, insn_inc_a, insn_dec_dpx, insn_dec_dp, insn_dec_abs,
  insn_dec_a,
}
use spu_kit.Cpu.Insn.Compare.{insn_cmp_y_imm}
use spu_kit.Cpu.Insn.Branch.{
  insn_tcall_9, insn_tcall_8, insn_tcall_11, insn_tcall_10, insn_bcs, insn_bcc,
}
use spu_kit.Cpu.Insn.Bit.{
  insn_set_db_5, insn_set_db_4, insn_clr_db_5, insn_clr_db_4, insn_bbs_db_5, insn_bbs_db_4,
  insn_bbc_db_5, insn_bbc_db_4,
}
use spu_kit.Cpu.Insn.Sum.{
  insn_sbc_ix_iy, insn_sbc_dp_imm, insn_sbc_dp_dp, insn_sbc_a_ix, insn_sbc_a_imm, insn_sbc_a_dx_ind,
  insn_sbc_a_dpx, insn_sbc_a_dpiy, insn_sbc_a_dp, insn_sbc_a_absy, insn_sbc_a_absx, insn_sbc_a_abs,
  insn_adc_ix_iy, insn_adc_dp_imm, insn_adc_dp_dp, insn_adc_a_ix, insn_adc_a_imm, insn_adc_a_dx_ind,
  insn_adc_a_dpx, insn_adc_a_dpiy, insn_adc_a_dp, insn_adc_a_absy, insn_adc_a_absx, insn_adc_a_abs,
}
use spu_kit.Cpu.Safe.Control.{pop_reg-Ensures, decompose-IsValidCpu}
use spu_kit.Cpu.Safe.Insn.{
  xcn-Ensures, subw-Ensures, movw_ya_dp-Ensures, mov_dp_imm-Ensures, inc_abs-Ensures, div-Ensures,
}
use spu_kit.Cpu.Safe.Rest.{
  set_db-Ensures, load_imm-Ensures, cmp_imm-Ensures, clr_db-Ensures, carry_bit-Ensures,
  branch_if-Ensures, bbs_db-Ensures, bbc_db-Ensures,
}
use spu_kit.Base.{true, arith}
use spu_kit.Cpu.Safe.Shape.{
  step_reg-Ensures, step_mem-Ensures, increment-IsByte, decrement-IsByte, alu_ix_iy-Ensures,
  alu_dp_imm-Ensures, alu_dp_dp-Ensures, alu_a_mem-Ensures, alu_a_imm-Ensures,
}
use spu_kit.Cpu.Alu.Ranges.{sbc-Safe, adc-Safe}
use spu_kit.Cpu.Safe.{
  set_y-Ensures, set_a-Ensures, indirect_x-Ensures, direct_page_x_indirect-Ensures,
  direct_page_x-Ensures, direct_page_indirect_y-Ensures, direct_page-Ensures, absolute_y-Ensures,
  absolute_x-Ensures, absolute-Ensures,
}
use spu_kit.Machine.Ensures.{Ensures-assign}
use spu_kit.Cpu.Safe.Table.{AllRun, end, ◌also◌}

pub row_8-AllRun : AllRun row_8
unfolding row_8 insn_setc insn_tcall_8 insn_set_db_4 insn_bbs_db_4 insn_adc_a_dp insn_adc_a_abs
    insn_adc_a_ix insn_adc_a_dx_ind insn_adc_a_imm insn_adc_dp_dp insn_eor1 insn_dec_dp insn_dec_abs
    insn_mov_y_imm insn_pop_psw insn_mov_dp_imm
row_8-AllRun =
    Ensures-assign (λ c. record c { carry = true }) (λ c v. omega arith)
    also tcall-Ensures 8
    also set_db-Ensures 4 (omega arith)
    also bbs_db-Ensures 4
    also alu_a_mem-Ensures _ _ adc-Safe direct_page-Ensures
    also alu_a_mem-Ensures _ _ adc-Safe absolute-Ensures
    also alu_a_mem-Ensures _ _ adc-Safe indirect_x-Ensures
    also alu_a_mem-Ensures _ _ adc-Safe direct_page_x_indirect-Ensures
    also alu_a_imm-Ensures _ adc-Safe
    also alu_dp_dp-Ensures _ adc-Safe
    also carry_bit-Ensures _
    also step_mem-Ensures _ _ decrement-IsByte direct_page-Ensures
    also step_mem-Ensures _ _ decrement-IsByte absolute-Ensures
    also load_imm-Ensures _ set_y-Ensures
    also pop_reg-Ensures _ (λ psw _. Ensures-assign _ (decompose-IsValidCpu psw))
    also mov_dp_imm-Ensures
    also end

pub row_9-AllRun : AllRun row_9
unfolding row_9 insn_bcc insn_tcall_9 insn_clr_db_4 insn_bbc_db_4 insn_adc_a_dpx insn_adc_a_absx
    insn_adc_a_absy insn_adc_a_dpiy insn_adc_dp_imm insn_adc_ix_iy insn_subw_ya_dp insn_dec_dpx
    insn_dec_a insn_divw_ya_x insn_xcn
row_9-AllRun =
    branch_if-Ensures _
    also tcall-Ensures 0
    also clr_db-Ensures 4
    also bbc_db-Ensures 4
    also alu_a_mem-Ensures _ _ adc-Safe direct_page_x-Ensures
    also alu_a_mem-Ensures _ _ adc-Safe absolute_x-Ensures
    also alu_a_mem-Ensures _ _ adc-Safe absolute_y-Ensures
    also alu_a_mem-Ensures _ _ adc-Safe direct_page_indirect_y-Ensures
    also alu_dp_imm-Ensures _ adc-Safe
    also alu_ix_iy-Ensures _ adc-Safe
    also subw-Ensures
    also step_mem-Ensures _ _ decrement-IsByte direct_page_x-Ensures
    also step_reg-Ensures _ _ _ decrement-IsByte set_a-Ensures
    also tt
    also div-Ensures
    also xcn-Ensures
    also end

pub row_a-AllRun : AllRun row_a
unfolding row_a insn_ei insn_tcall_10 insn_set_db_5 insn_bbs_db_5 insn_sbc_a_dp insn_sbc_a_abs
    insn_sbc_a_ix insn_sbc_a_dx_ind insn_sbc_a_imm insn_sbc_dp_dp insn_mov1_load insn_inc_dp
    insn_inc_abs insn_cmp_y_imm insn_pop_a
row_a-AllRun =
    Ensures-assign (λ c. record c { psw_i = true }) (λ c v. omega arith)
    also tcall-Ensures 10
    also set_db-Ensures 5 (omega arith)
    also bbs_db-Ensures 5
    also alu_a_mem-Ensures _ _ sbc-Safe direct_page-Ensures
    also alu_a_mem-Ensures _ _ sbc-Safe absolute-Ensures
    also alu_a_mem-Ensures _ _ sbc-Safe indirect_x-Ensures
    also alu_a_mem-Ensures _ _ sbc-Safe direct_page_x_indirect-Ensures
    also alu_a_imm-Ensures _ sbc-Safe
    also alu_dp_dp-Ensures _ sbc-Safe
    also carry_bit-Ensures _
    also step_mem-Ensures _ _ increment-IsByte direct_page-Ensures
    also inc_abs-Ensures
    also cmp_imm-Ensures _
    also pop_reg-Ensures _ set_a-Ensures
    also tt
    also end

pub row_b-AllRun : AllRun row_b
unfolding row_b insn_bcs insn_tcall_11 insn_clr_db_5 insn_bbc_db_5 insn_sbc_a_dpx insn_sbc_a_absx
    insn_sbc_a_absy insn_sbc_a_dpiy insn_sbc_dp_imm insn_sbc_ix_iy insn_movw_ya_dp insn_inc_dpx
    insn_inc_a
row_b-AllRun =
    branch_if-Ensures _
    also tcall-Ensures 11
    also clr_db-Ensures 5
    also bbc_db-Ensures 5
    also alu_a_mem-Ensures _ _ sbc-Safe direct_page_x-Ensures
    also alu_a_mem-Ensures _ _ sbc-Safe absolute_x-Ensures
    also alu_a_mem-Ensures _ _ sbc-Safe absolute_y-Ensures
    also alu_a_mem-Ensures _ _ sbc-Safe direct_page_indirect_y-Ensures
    also alu_dp_imm-Ensures _ sbc-Safe
    also alu_ix_iy-Ensures _ sbc-Safe
    also movw_ya_dp-Ensures
    also step_mem-Ensures _ _ increment-IsByte direct_page_x-Ensures
    also step_reg-Ensures _ _ _ increment-IsByte set_a-Ensures
    also tt
    also tt
    also tt
    also end

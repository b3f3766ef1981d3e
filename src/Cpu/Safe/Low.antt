-- ===== src/Cpu/Safe/Low.antt =====
-- Rows 0 to 3 of `opcode_tbl` of spc700.c.
use spu_kit.Cpu.Safe.Stack.{tcall-Ensures}
use spu_kit.Cpu.Table.{row_3, row_2, row_1, row_0}
use spu_kit.Cpu.Insn.Membit.{insn_tset1_abs, insn_or1_not, insn_or1}
use spu_kit.Cpu.Insn.Word.{insn_incw_dp, insn_decw_dp}
use spu_kit.Cpu.Insn.Control.{insn_push_psw, insn_push_a, insn_nop, insn_clrp}
use spu_kit.Cpu.Insn.Branch.{
  insn_tcall_3, insn_tcall_2, insn_tcall_1, insn_tcall_0, insn_jmp_absx_ind, insn_cbne_dp_rel,
  insn_call_abs, insn_bra, insn_bpl, insn_bmi,
}
use spu_kit.Cpu.Insn.Bit.{
  insn_set_db_1, insn_set_db_0, insn_clr_db_1, insn_clr_db_0, insn_bbs_db_1, insn_bbs_db_0,
  insn_bbc_db_1, insn_bbc_db_0,
}
use spu_kit.Cpu.Insn.Shift.{
  insn_rol_dpx, insn_rol_dp, insn_rol_abs, insn_rol_a, insn_inc_x, insn_dec_x, insn_asl_dpx,
  insn_asl_dp, insn_asl_abs, insn_asl_a,
}
use spu_kit.Cpu.Insn.Logic.{
  insn_or_ix_iy, insn_or_dp_imm, insn_or_dp_dp, insn_or_a_ix, insn_or_a_imm, insn_or_a_dx_ind,
  insn_or_a_dpx, insn_or_a_dpiy, insn_or_a_dp, insn_or_a_absy, insn_or_a_absx, insn_or_a_abs,
  insn_and_ix_iy, insn_and_dp_imm, insn_and_dp_dp, insn_and_a_ix, insn_and_a_imm, insn_and_a_dx_ind,
  insn_and_a_dpx, insn_and_a_dpiy, insn_and_a_dp, insn_and_a_absy, insn_and_a_absx, insn_and_a_abs,
}
use spu_kit.Cpu.Safe.Control.{
  push_reg-Ensures, jmp_absx_ind-Ensures, compose-IsByte, call_abs-Ensures, bra-Ensures,
}
use spu_kit.Cpu.Safe.Insn.{tset1-Ensures, step_word-Ensures}
use spu_kit.Cpu.Safe.Rest.{
  set_db-Ensures, clr_db-Ensures, cbne-Ensures, carry_bit-Ensures, branch_if-Ensures,
  bbs_db-Ensures, bbc_db-Ensures,
}
use spu_kit.Base.{false, arith}
use spu_kit.Cpu.Alu.Ranges.{rol-Safe, or-Safe, asl-Safe, and-Safe}
use spu_kit.Cpu.Safe.Shape.{
  step_reg-Ensures, shift_mem-Ensures, shift_a-Ensures, increment-IsByte, decrement-IsByte,
  alu_ix_iy-Ensures, alu_imm_dp-Ensures, alu_dp_dp-Ensures, alu_a_mem-Ensures, alu_a_imm-Ensures,
}
use spu_kit.Cpu.Safe.{
  set_x-Ensures, indirect_x-Ensures, direct_page_x_indirect-Ensures, direct_page_x-Ensures,
  direct_page_indirect_y-Ensures, direct_page-Ensures, absolute_y-Ensures, absolute_x-Ensures,
  absolute-Ensures,
}
use spu_kit.Machine.Ensures.{Ensures-pure, Ensures-assign}
use spu_kit.Cpu.Safe.Table.{AllRun, end, ◌also◌}

pub row_0-AllRun : AllRun row_0
unfolding row_0 insn_nop insn_tcall_0 insn_set_db_0 insn_bbs_db_0 insn_or_a_dp insn_or_a_abs
    insn_or_a_ix insn_or_a_dx_ind insn_or_a_imm insn_or_dp_dp insn_or1 insn_asl_dp insn_asl_abs
    insn_push_psw insn_tset1_abs
row_0-AllRun =
    Ensures-pure tt tt
    also tcall-Ensures 0
    also set_db-Ensures 0 (omega arith)
    also bbs_db-Ensures 0
    also alu_a_mem-Ensures _ _ or-Safe direct_page-Ensures
    also alu_a_mem-Ensures _ _ or-Safe absolute-Ensures
    also alu_a_mem-Ensures _ _ or-Safe indirect_x-Ensures
    also alu_a_mem-Ensures _ _ or-Safe direct_page_x_indirect-Ensures
    also alu_a_imm-Ensures _ or-Safe
    also alu_dp_dp-Ensures _ or-Safe
    also carry_bit-Ensures _
    also shift_mem-Ensures _ _ (λ a _. asl-Safe a) direct_page-Ensures
    also shift_mem-Ensures _ _ (λ a _. asl-Safe a) absolute-Ensures
    also push_reg-Ensures _ (λ c _. compose-IsByte c)
    also tset1-Ensures
    also tt
    also end

pub row_1-AllRun : AllRun row_1
unfolding row_1 insn_bpl insn_tcall_1 insn_clr_db_0 insn_bbc_db_0 insn_or_a_dpx insn_or_a_absx
    insn_or_a_absy insn_or_a_dpiy insn_or_dp_imm insn_or_ix_iy insn_decw_dp insn_asl_dpx insn_asl_a
    insn_dec_x insn_jmp_absx_ind
row_1-AllRun =
    branch_if-Ensures _
    also tcall-Ensures 1
    also clr_db-Ensures 0
    also bbc_db-Ensures 0
    also alu_a_mem-Ensures _ _ or-Safe direct_page_x-Ensures
    also alu_a_mem-Ensures _ _ or-Safe absolute_x-Ensures
    also alu_a_mem-Ensures _ _ or-Safe absolute_y-Ensures
    also alu_a_mem-Ensures _ _ or-Safe direct_page_indirect_y-Ensures
    also alu_imm_dp-Ensures _ or-Safe
    also alu_ix_iy-Ensures _ or-Safe
    also step_word-Ensures 0xffff
    also shift_mem-Ensures _ _ (λ a _. asl-Safe a) direct_page_x-Ensures
    also shift_a-Ensures _ (λ a _. asl-Safe a)
    also step_reg-Ensures _ _ _ decrement-IsByte set_x-Ensures
    also tt
    also jmp_absx_ind-Ensures
    also end

pub row_2-AllRun : AllRun row_2
unfolding row_2 insn_clrp insn_tcall_2 insn_set_db_1 insn_bbs_db_1 insn_and_a_dp insn_and_a_abs
    insn_and_a_ix insn_and_a_dx_ind insn_and_a_imm insn_and_dp_dp insn_or1_not insn_rol_dp
    insn_rol_abs insn_push_a insn_cbne_dp_rel insn_bra
row_2-AllRun =
    Ensures-assign (λ c. record c { psw_p = false }) (λ c v. omega arith)
    also tcall-Ensures 2
    also set_db-Ensures 1 (omega arith)
    also bbs_db-Ensures 1
    also alu_a_mem-Ensures _ _ and-Safe direct_page-Ensures
    also alu_a_mem-Ensures _ _ and-Safe absolute-Ensures
    also alu_a_mem-Ensures _ _ and-Safe indirect_x-Ensures
    also alu_a_mem-Ensures _ _ and-Safe direct_page_x_indirect-Ensures
    also alu_a_imm-Ensures _ and-Safe
    also alu_dp_dp-Ensures _ and-Safe
    also carry_bit-Ensures _
    also shift_mem-Ensures _ _ (λ a _. rol-Safe a) direct_page-Ensures
    also shift_mem-Ensures _ _ (λ a _. rol-Safe a) absolute-Ensures
    also push_reg-Ensures _ (λ _ v. v.a_fits)
    also cbne-Ensures _ direct_page-Ensures
    also bra-Ensures
    also end

pub row_3-AllRun : AllRun row_3
unfolding row_3 insn_bmi insn_tcall_3 insn_clr_db_1 insn_bbc_db_1 insn_and_a_dpx insn_and_a_absx
    insn_and_a_absy insn_and_a_dpiy insn_and_dp_imm insn_and_ix_iy insn_incw_dp insn_rol_dpx
    insn_rol_a insn_inc_x insn_call_abs
row_3-AllRun =
    branch_if-Ensures _
    also tcall-Ensures 3
    also clr_db-Ensures 1
    also bbc_db-Ensures 1
    also alu_a_mem-Ensures _ _ and-Safe direct_page_x-Ensures
    also alu_a_mem-Ensures _ _ and-Safe absolute_x-Ensures
    also alu_a_mem-Ensures _ _ and-Safe absolute_y-Ensures
    also alu_a_mem-Ensures _ _ and-Safe direct_page_indirect_y-Ensures
    also alu_imm_dp-Ensures _ and-Safe
    also alu_ix_iy-Ensures _ and-Safe
    also step_word-Ensures 1
    also shift_mem-Ensures _ _ (λ a _. rol-Safe a) direct_page_x-Ensures
    also shift_a-Ensures _ (λ a _. rol-Safe a)
    also step_reg-Ensures _ _ _ increment-IsByte set_x-Ensures
    also tt
    also call_abs-Ensures
    also end

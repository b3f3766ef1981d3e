-- ===== src/Cpu/Safe/Middle.antt =====
-- Rows 4 to 7 of `opcode_tbl` of spc700.c.
use spu_kit.Cpu.Safe.Stack.{tcall-Ensures}
use spu_kit.Cpu.Table.{row_7, row_6, row_5, row_4}
use spu_kit.Cpu.Insn.Move.{insn_mov_x_a, insn_mov_a_x}
use spu_kit.Cpu.Insn.Shift.{
  insn_ror_dpx, insn_ror_dp, insn_ror_abs, insn_ror_a, insn_lsr_dpx, insn_lsr_dp, insn_lsr_abs,
  insn_lsr_a,
}
use spu_kit.Cpu.Insn.Logic.{
  insn_eor_ix_iy, insn_eor_dp_imm, insn_eor_dp_dp, insn_eor_a_ix, insn_eor_a_imm, insn_eor_a_dx_ind,
  insn_eor_a_dpx, insn_eor_a_dpiy, insn_eor_a_dp, insn_eor_a_absy, insn_eor_a_absx, insn_eor_a_abs,
}
use spu_kit.Cpu.Insn.Branch.{
  insn_tcall_7, insn_tcall_6, insn_tcall_5, insn_tcall_4, insn_ret, insn_jmp_abs, insn_dbnz_dp,
}
use spu_kit.Cpu.Insn.Compare.{
  insn_cmpw_ya_d, insn_cmp_y_dp, insn_cmp_ix_iy, insn_cmp_dp_imm, insn_cmp_dp_dp, insn_cmp_a_ix,
  insn_cmp_a_imm, insn_cmp_a_dx_ind, insn_cmp_a_dpx, insn_cmp_a_dpiy, insn_cmp_a_dp,
  insn_cmp_a_absy, insn_cmp_a_absx, insn_cmp_a_abs,
}
use spu_kit.Cpu.Insn.Control.{insn_setp, insn_push_y, insn_push_x, insn_clrc}
use spu_kit.Cpu.Insn.Bit.{
  insn_set_db_3, insn_set_db_2, insn_clr_db_3, insn_clr_db_2, insn_bbs_db_3, insn_bbs_db_2,
  insn_bbc_db_3, insn_bbc_db_2,
}
use spu_kit.Cpu.Insn.Membit.{insn_tclr1_abs, insn_and1_not, insn_and1}
use spu_kit.Cpu.Insn.Word.{insn_addw_ya_dp}
use spu_kit.Cpu.Alu.Ranges.{ror-Safe, lsr-Safe, eor-Safe}
use spu_kit.Cpu.Safe.Rest.{
  transfer-Ensures, set_db-Ensures, cmpw-Ensures, cmp_mem-Ensures, cmp_ix_iy-Ensures,
  cmp_imm-Ensures, cmp_dp_imm-Ensures, cmp_dp_dp-Ensures, clr_db-Ensures, carry_bit-Ensures,
  bbs_db-Ensures, bbc_db-Ensures,
}
use spu_kit.Base.{true, false, arith}
use spu_kit.Cpu.Safe.Shape.{
  shift_mem-Ensures, shift_a-Ensures, alu_ix_iy-Ensures, alu_imm_dp-Ensures, alu_dp_dp-Ensures,
  alu_a_mem-Ensures, alu_a_imm-Ensures,
}
use spu_kit.Cpu.Safe.Control.{ret-Ensures, push_reg-Ensures, jmp_abs-Ensures, dbnz_dp-Ensures}
use spu_kit.Cpu.Safe.Insn.{tclr1-Ensures, addw-Ensures}
use spu_kit.Cpu.Safe.{
  set_x-Ensures, set_a-Ensures, indirect_x-Ensures, direct_page_x_indirect-Ensures,
  direct_page_x-Ensures, direct_page_indirect_y-Ensures, direct_page-Ensures, absolute_y-Ensures,
  absolute_x-Ensures, absolute-Ensures,
}
use spu_kit.Machine.Ensures.{Ensures-assign}
use spu_kit.Cpu.Safe.Table.{AllRun, end, ◌also◌}

pub row_4-AllRun : AllRun row_4
unfolding row_4 insn_setp insn_tcall_4 insn_set_db_2 insn_bbs_db_2 insn_eor_a_dp insn_eor_a_abs
    insn_eor_a_ix insn_eor_a_dx_ind insn_eor_a_imm insn_eor_dp_dp insn_and1 insn_lsr_dp insn_lsr_abs
    insn_push_x insn_tclr1_abs
row_4-AllRun =
    Ensures-assign (λ c. record c { psw_p = true }) (λ c v. omega arith)
    also tcall-Ensures 4
    also set_db-Ensures 2 (omega arith)
    also bbs_db-Ensures 2
    also alu_a_mem-Ensures _ _ eor-Safe direct_page-Ensures
    also alu_a_mem-Ensures _ _ eor-Safe absolute-Ensures
    also alu_a_mem-Ensures _ _ eor-Safe indirect_x-Ensures
    also alu_a_mem-Ensures _ _ eor-Safe direct_page_x_indirect-Ensures
    also alu_a_imm-Ensures _ eor-Safe
    also alu_dp_dp-Ensures _ eor-Safe
    also carry_bit-Ensures _
    also shift_mem-Ensures _ _ lsr-Safe direct_page-Ensures
    also shift_mem-Ensures _ _ lsr-Safe absolute-Ensures
    also push_reg-Ensures _ (λ _ v. v.x_fits)
    also tclr1-Ensures
    also tt
    also end

pub row_5-AllRun : AllRun row_5
unfolding row_5 insn_tcall_5 insn_clr_db_2 insn_bbc_db_2 insn_eor_a_dpx insn_eor_a_absx
    insn_eor_a_absy insn_eor_a_dpiy insn_eor_dp_imm insn_eor_ix_iy insn_cmpw_ya_d insn_lsr_dpx
    insn_lsr_a insn_mov_x_a insn_jmp_abs
row_5-AllRun =
    tt
    also tcall-Ensures 5
    also clr_db-Ensures 2
    also bbc_db-Ensures 2
    also alu_a_mem-Ensures _ _ eor-Safe direct_page_x-Ensures
    also alu_a_mem-Ensures _ _ eor-Safe absolute_x-Ensures
    also alu_a_mem-Ensures _ _ eor-Safe absolute_y-Ensures
    also alu_a_mem-Ensures _ _ eor-Safe direct_page_indirect_y-Ensures
    also alu_imm_dp-Ensures _ eor-Safe
    also alu_ix_iy-Ensures _ eor-Safe
    also cmpw-Ensures
    also shift_mem-Ensures _ _ lsr-Safe direct_page_x-Ensures
    also shift_a-Ensures _ lsr-Safe
    also transfer-Ensures _ _ (λ _ v. v.a_fits) set_x-Ensures
    also tt
    also jmp_abs-Ensures
    also end

pub row_6-AllRun : AllRun row_6
unfolding row_6 insn_clrc insn_tcall_6 insn_set_db_3 insn_bbs_db_3 insn_cmp_a_dp insn_cmp_a_abs
    insn_cmp_a_ix insn_cmp_a_dx_ind insn_cmp_a_imm insn_cmp_dp_dp insn_and1_not insn_ror_dp
    insn_ror_abs insn_push_y insn_dbnz_dp insn_ret
row_6-AllRun =
    Ensures-assign (λ c. record c { carry = false }) (λ c v. omega arith)
    also tcall-Ensures 6
    also set_db-Ensures 3 (omega arith)
    also bbs_db-Ensures 3
    also cmp_mem-Ensures _ _ direct_page-Ensures
    also cmp_mem-Ensures _ _ absolute-Ensures
    also cmp_mem-Ensures _ _ indirect_x-Ensures
    also cmp_mem-Ensures _ _ direct_page_x_indirect-Ensures
    also cmp_imm-Ensures _
    also cmp_dp_dp-Ensures
    also carry_bit-Ensures _
    also shift_mem-Ensures _ _ ror-Safe direct_page-Ensures
    also shift_mem-Ensures _ _ ror-Safe absolute-Ensures
    also push_reg-Ensures _ (λ _ v. v.y_fits)
    also dbnz_dp-Ensures
    also ret-Ensures
    also end

pub row_7-AllRun : AllRun row_7
unfolding row_7 insn_tcall_7 insn_clr_db_3 insn_bbc_db_3 insn_cmp_a_dpx insn_cmp_a_absx
    insn_cmp_a_absy insn_cmp_a_dpiy insn_cmp_dp_imm insn_cmp_ix_iy insn_addw_ya_dp insn_ror_dpx
    insn_ror_a insn_mov_a_x insn_cmp_y_dp
row_7-AllRun =
    tt
    also tcall-Ensures 7
    also clr_db-Ensures 3
    also bbc_db-Ensures 3
    also cmp_mem-Ensures _ _ direct_page_x-Ensures
    also cmp_mem-Ensures _ _ absolute_x-Ensures
    also cmp_mem-Ensures _ _ absolute_y-Ensures
    also cmp_mem-Ensures _ _ direct_page_indirect_y-Ensures
    also cmp_dp_imm-Ensures
    also cmp_ix_iy-Ensures
    also addw-Ensures
    also shift_mem-Ensures _ _ ror-Safe direct_page_x-Ensures
    also shift_a-Ensures _ ror-Safe
    also transfer-Ensures _ _ (λ _ v. v.x_fits) set_a-Ensures
    also cmp_mem-Ensures _ _ direct_page-Ensures
    also tt
    also end

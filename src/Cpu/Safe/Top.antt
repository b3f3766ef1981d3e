-- ===== src/Cpu/Safe/Top.antt =====
-- Rows c to f of `opcode_tbl` of spc700.c.
use spu_kit.Cpu.Safe.Stack.{tcall-Ensures}
use spu_kit.Cpu.Table.{row_f, row_e, row_d, row_c}
use spu_kit.Cpu.Insn.Word.{insn_mul_ya, insn_movw_dp_ya}
use spu_kit.Cpu.Insn.Move.{
  insn_mov_y_dpx, insn_mov_y_dp, insn_mov_y_abs, insn_mov_y_a, insn_mov_x_imm, insn_mov_x_dp,
  insn_mov_x_abs, insn_mov_ix_a, insn_mov_dx_ind_a, insn_mov_dpx_y, insn_mov_dpx_a, insn_mov_dpiy_a,
  insn_mov_dp_y, insn_mov_dp_x, insn_mov_dp_dp, insn_mov_dp_a, insn_mov_absy_a, insn_mov_absx_a,
  insn_mov_abs_y, insn_mov_abs_x, insn_mov_abs_a, insn_mov_a_y, insn_mov_a_ix, insn_mov_a_imm,
  insn_mov_a_dx_ind, insn_mov_a_dpx, insn_mov_a_dpiy, insn_mov_a_dp, insn_mov_a_absy,
  insn_mov_a_absx, insn_mov_a_abs,
}
use spu_kit.Cpu.Insn.Membit.{insn_not1, insn_mov1_store}
use spu_kit.Cpu.Insn.Shift.{insn_inc_y, insn_dec_y}
use spu_kit.Cpu.Insn.Compare.{insn_cmp_x_imm}
use spu_kit.Cpu.Insn.Control.{insn_pop_y, insn_pop_x, insn_notc, insn_di, insn_clrv}
use spu_kit.Cpu.Insn.Branch.{
  insn_tcall_15, insn_tcall_14, insn_tcall_13, insn_tcall_12, insn_dbnz_y, insn_cbne_dpx_rel,
  insn_bne, insn_beq,
}
use spu_kit.Cpu.Insn.Bit.{
  insn_set_db_7, insn_set_db_6, insn_clr_db_7, insn_clr_db_6, insn_bbs_db_7, insn_bbs_db_6,
  insn_bbc_db_7, insn_bbc_db_6,
}
use spu_kit.Cpu.Safe.Shape.{step_reg-Ensures, increment-IsByte, decrement-IsByte}
use spu_kit.Cpu.Safe.Control.{pop_reg-Ensures, dbnz_y-Ensures}
use spu_kit.Cpu.Safe.Insn.{
  not1-Ensures, mul-Ensures, movw_dp_ya-Ensures, mov_x_dp-Ensures, mov_x_abs-Ensures,
  mov_dp_dp-Ensures, mov1_store-Ensures,
}
use spu_kit.Cpu.Safe.Rest.{
  transfer-Ensures, store_reg-Ensures, set_db-Ensures, load_reg-Ensures, load_imm-Ensures,
  cmp_imm-Ensures, clr_db-Ensures, cbne-Ensures, branch_if-Ensures, bbs_db-Ensures, bbc_db-Ensures,
}
use spu_kit.Base.{not, false, arith}
use spu_kit.Cpu.Safe.{
  set_y-Ensures, set_x-Ensures, set_a-Ensures, indirect_x-Ensures, direct_page_x_indirect-Ensures,
  direct_page_x-Ensures, direct_page_indirect_y-Ensures, direct_page-Ensures, absolute_y-Ensures,
  absolute_x-Ensures, absolute-Ensures,
}
use spu_kit.Machine.Ensures.{Ensures-assign}
use spu_kit.Cpu.Safe.Table.{AllRun, end, ◌also◌}

pub row_c-AllRun : AllRun row_c
unfolding row_c insn_di insn_tcall_12 insn_set_db_6 insn_bbs_db_6 insn_mov_dp_a insn_mov_abs_a
    insn_mov_ix_a insn_mov_dx_ind_a insn_cmp_x_imm insn_mov_abs_x insn_mov1_store insn_mov_dp_y
    insn_mov_abs_y insn_mov_x_imm insn_pop_x insn_mul_ya
row_c-AllRun =
    Ensures-assign (λ c. record c { psw_i = false }) (λ c v. omega arith)
    also tcall-Ensures 12
    also set_db-Ensures 6 (omega arith)
    also bbs_db-Ensures 6
    also store_reg-Ensures _ _ (λ _ v. v.a_fits) direct_page-Ensures
    also store_reg-Ensures _ _ (λ _ v. v.a_fits) absolute-Ensures
    also store_reg-Ensures _ _ (λ _ v. v.a_fits) indirect_x-Ensures
    also store_reg-Ensures _ _ (λ _ v. v.a_fits) direct_page_x-Ensures
    also cmp_imm-Ensures _
    also store_reg-Ensures _ _ (λ _ v. v.x_fits) absolute-Ensures
    also mov1_store-Ensures
    also store_reg-Ensures _ _ (λ _ v. v.y_fits) direct_page-Ensures
    also store_reg-Ensures _ _ (λ _ v. v.y_fits) absolute-Ensures
    also load_imm-Ensures _ set_x-Ensures
    also pop_reg-Ensures _ set_x-Ensures
    also mul-Ensures
    also end

pub row_d-AllRun : AllRun row_d
unfolding row_d insn_bne insn_tcall_13 insn_clr_db_6 insn_bbc_db_6 insn_mov_dpx_a insn_mov_absx_a
    insn_mov_absy_a insn_mov_dpiy_a insn_mov_dp_x insn_movw_dp_ya insn_mov_dpx_y insn_dec_y
    insn_mov_a_y insn_cbne_dpx_rel
row_d-AllRun =
    branch_if-Ensures _
    also tcall-Ensures 13
    also clr_db-Ensures 6
    also bbc_db-Ensures 6
    also store_reg-Ensures _ _ (λ _ v. v.a_fits) direct_page_x-Ensures
    also store_reg-Ensures _ _ (λ _ v. v.a_fits) absolute_x-Ensures
    also store_reg-Ensures _ _ (λ _ v. v.a_fits) absolute_y-Ensures
    also store_reg-Ensures _ _ (λ _ v. v.a_fits) direct_page_indirect_y-Ensures
    also store_reg-Ensures _ _ (λ _ v. v.x_fits) direct_page-Ensures
    also tt
    also movw_dp_ya-Ensures
    also store_reg-Ensures _ _ (λ _ v. v.y_fits) direct_page_x-Ensures
    also step_reg-Ensures _ _ _ decrement-IsByte set_y-Ensures
    also transfer-Ensures _ _ (λ _ v. v.y_fits) set_a-Ensures
    also cbne-Ensures _ direct_page_x-Ensures
    also tt
    also end

pub row_e-AllRun : AllRun row_e
unfolding row_e insn_clrv insn_tcall_14 insn_set_db_7 insn_bbs_db_7 insn_mov_a_dp insn_mov_a_abs
    insn_mov_a_ix insn_mov_a_dx_ind insn_mov_a_imm insn_mov_x_abs insn_not1 insn_mov_y_dp
    insn_mov_y_abs insn_notc insn_pop_y
row_e-AllRun =
    Ensures-assign (λ c. record c { overflow = false; half_carry = false }) (λ c v. omega arith)
    also tcall-Ensures 14
    also set_db-Ensures 7 (omega arith)
    also bbs_db-Ensures 7
    also load_reg-Ensures _ _ set_a-Ensures direct_page-Ensures
    also load_reg-Ensures _ _ set_a-Ensures absolute-Ensures
    also load_reg-Ensures _ _ set_a-Ensures indirect_x-Ensures
    also load_reg-Ensures _ _ set_a-Ensures direct_page_x_indirect-Ensures
    also load_imm-Ensures _ set_a-Ensures
    also mov_x_abs-Ensures
    also not1-Ensures
    also load_reg-Ensures _ _ set_y-Ensures direct_page-Ensures
    also load_reg-Ensures _ _ set_y-Ensures absolute-Ensures
    also Ensures-assign (λ c. record c { carry = not c.carry }) (λ c v. omega arith)
    also pop_reg-Ensures _ set_y-Ensures
    also tt
    also end

pub row_f-AllRun : AllRun row_f
unfolding row_f insn_beq insn_tcall_15 insn_clr_db_7 insn_bbc_db_7 insn_mov_a_dpx insn_mov_a_absx
    insn_mov_a_absy insn_mov_a_dpiy insn_mov_x_dp insn_mov_dp_dp insn_mov_y_dpx insn_inc_y
    insn_mov_y_a insn_dbnz_y
row_f-AllRun =
    branch_if-Ensures _
    also tcall-Ensures 15
    also clr_db-Ensures 7
    also bbc_db-Ensures 7
    also load_reg-Ensures _ _ set_a-Ensures direct_page_x-Ensures
    also load_reg-Ensures _ _ set_a-Ensures absolute_x-Ensures
    also load_reg-Ensures _ _ set_a-Ensures absolute_y-Ensures
    also load_reg-Ensures _ _ set_a-Ensures direct_page_indirect_y-Ensures
    also mov_x_dp-Ensures
    also tt
    also mov_dp_dp-Ensures
    also load_reg-Ensures _ _ set_y-Ensures direct_page_x-Ensures
    also step_reg-Ensures _ _ _ increment-IsByte set_y-Ensures
    also transfer-Ensures _ _ (λ _ v. v.a_fits) set_y-Ensures
    also dbnz_y-Ensures
    also tt
    also end

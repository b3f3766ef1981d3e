-- ===== src/Cpu/Table/Top.antt =====
-- Rows c to f of `opcode_tbl` of spc700.c; `none` is a NULL entry.
use spu_kit.Cpu.Insn.Word.{insn_mul_ya, insn_movw_dp_ya}
use spu_kit.Cpu.Insn.Move.{
  insn_mov_y_dpx, insn_mov_y_dp, insn_mov_y_abs, insn_mov_y_a, insn_mov_x_imm, insn_mov_x_dp,
  insn_mov_x_abs, insn_mov_ix_a, insn_mov_dx_ind_a, insn_mov_dpx_y, insn_mov_dpx_a, insn_mov_dpiy_a,
  insn_mov_dp_y, insn_mov_dp_x, insn_mov_dp_dp, insn_mov_dp_a, insn_mov_absy_a, insn_mov_absx_a,
  insn_mov_abs_y, insn_mov_abs_x, insn_mov_abs_a, insn_mov_a_y, insn_mov_a_ix, insn_mov_a_imm,
  insn_mov_a_dx_ind, insn_mov_a_dpx, insn_mov_a_dpiy, insn_mov_a_dp, insn_mov_a_absy,
  insn_mov_a_absx, insn_mov_a_abs,
}
use spu_kit.Cpu.Insn.Membit.{insn_not1, insn_mov1_store}
use spu_kit.Cpu.Insn.Shift.{insn_inc_y, insn_dec_y}
use spu_kit.Cpu.Insn.Compare.{insn_cmp_x_imm}
use spu_kit.Cpu.Insn.Control.{insn_pop_y, insn_pop_x, insn_notc, insn_di, insn_clrv}
use spu_kit.Cpu.Insn.Branch.{
  insn_tcall_15, insn_tcall_14, insn_tcall_13, insn_tcall_12, insn_dbnz_y, insn_cbne_dpx_rel,
  insn_bne, insn_beq,
}
use spu_kit.Cpu.Insn.Bit.{
  insn_set_db_7, insn_set_db_6, insn_clr_db_7, insn_clr_db_6, insn_bbs_db_7, insn_bbs_db_6,
  insn_bbc_db_7, insn_bbc_db_6,
}
use spu_kit.Cpu.Table.Cell.{Entry}
use spu_kit.Base.{none, some, List, [], ◌∷◌}

unfoldable pub row_c : List Entry
row_c =
    some insn_di
    ∷ some insn_tcall_12
    ∷ some insn_set_db_6
    ∷ some insn_bbs_db_6
    ∷ some insn_mov_dp_a
    ∷ some insn_mov_abs_a
    ∷ some insn_mov_ix_a
    ∷ some insn_mov_dx_ind_a
    ∷ some insn_cmp_x_imm
    ∷ some insn_mov_abs_x
    ∷ some insn_mov1_store
    ∷ some insn_mov_dp_y
    ∷ some insn_mov_abs_y
    ∷ some insn_mov_x_imm
    ∷ some insn_pop_x
    ∷ some insn_mul_ya
    ∷ []

unfoldable pub row_d : List Entry
row_d =
    some insn_bne
    ∷ some insn_tcall_13
    ∷ some insn_clr_db_6
    ∷ some insn_bbc_db_6
    ∷ some insn_mov_dpx_a
    ∷ some insn_mov_absx_a
    ∷ some insn_mov_absy_a
    ∷ some insn_mov_dpiy_a
    ∷ some insn_mov_dp_x
    ∷ none
    ∷ some insn_movw_dp_ya
    ∷ some insn_mov_dpx_y
    ∷ some insn_dec_y
    ∷ some insn_mov_a_y
    ∷ some insn_cbne_dpx_rel
    ∷ none
    ∷ []

unfoldable pub row_e : List Entry
row_e =
    some insn_clrv
    ∷ some insn_tcall_14
    ∷ some insn_set_db_7
    ∷ some insn_bbs_db_7
    ∷ some insn_mov_a_dp
    ∷ some insn_mov_a_abs
    ∷ some insn_mov_a_ix
    ∷ some insn_mov_a_dx_ind
    ∷ some insn_mov_a_imm
    ∷ some insn_mov_x_abs
    ∷ some insn_not1
    ∷ some insn_mov_y_dp
    ∷ some insn_mov_y_abs
    ∷ some insn_notc
    ∷ some insn_pop_y
    ∷ none
    ∷ []

unfoldable pub row_f : List Entry
row_f =
    some insn_beq
    ∷ some insn_tcall_15
    ∷ some insn_clr_db_7
    ∷ some insn_bbc_db_7
    ∷ some insn_mov_a_dpx
    ∷ some insn_mov_a_absx
    ∷ some insn_mov_a_absy
    ∷ some insn_mov_a_dpiy
    ∷ some insn_mov_x_dp
    ∷ none
    ∷ some insn_mov_dp_dp
    ∷ some insn_mov_y_dpx
    ∷ some insn_inc_y
    ∷ some insn_mov_y_a
    ∷ some insn_dbnz_y
    ∷ none
    ∷ []

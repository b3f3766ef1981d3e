-- ===== src/Cpu/Table/High.antt =====
-- Rows 8 to b of `opcode_tbl` of spc700.c; `none` is a NULL entry.
use spu_kit.Cpu.Insn.Move.{insn_mov_y_imm, insn_mov_dp_imm}
use spu_kit.Cpu.Insn.Membit.{insn_mov1_load, insn_eor1}
use spu_kit.Cpu.Insn.Control.{insn_setc, insn_pop_psw, insn_pop_a, insn_ei}
use spu_kit.Cpu.Insn.Word.{insn_xcn, insn_subw_ya_dp, insn_movw_ya_dp, insn_divw_ya_x}
use spu_kit.Cpu.Insn.Shift.{
  insn_inc_dpx, insn_inc_dp, insn_inc_abs, insn_inc_a, insn_dec_dpx, insn_dec_dp, insn_dec_abs,
  insn_dec_a,
}
use spu_kit.Cpu.Insn.Compare.{insn_cmp_y_imm}
use spu_kit.Cpu.Insn.Branch.{
  insn_tcall_9, insn_tcall_8, insn_tcall_11, insn_tcall_10, insn_bcs, insn_bcc,
}
use spu_kit.Cpu.Insn.Bit.{
  insn_set_db_5, insn_set_db_4, insn_clr_db_5, insn_clr_db_4, insn_bbs_db_5, insn_bbs_db_4,
  insn_bbc_db_5, insn_bbc_db_4,
}
use spu_kit.Cpu.Insn.Sum.{
  insn_sbc_ix_iy, insn_sbc_dp_imm, insn_sbc_dp_dp, insn_sbc_a_ix, insn_sbc_a_imm, insn_sbc_a_dx_ind,
  insn_sbc_a_dpx, insn_sbc_a_dpiy, insn_sbc_a_dp, insn_sbc_a_absy, insn_sbc_a_absx, insn_sbc_a_abs,
  insn_adc_ix_iy, insn_adc_dp_imm, insn_adc_dp_dp, insn_adc_a_ix, insn_adc_a_imm, insn_adc_a_dx_ind,
  insn_adc_a_dpx, insn_adc_a_dpiy, insn_adc_a_dp, insn_adc_a_absy, insn_adc_a_absx, insn_adc_a_abs,
}
use spu_kit.Cpu.Table.Cell.{Entry}
use spu_kit.Base.{none, some, List, [], ◌∷◌}

unfoldable pub row_8 : List Entry
row_8 =
    some insn_setc
    ∷ some insn_tcall_8
    ∷ some insn_set_db_4
    ∷ some insn_bbs_db_4
    ∷ some insn_adc_a_dp
    ∷ some insn_adc_a_abs
    ∷ some insn_adc_a_ix
    ∷ some insn_adc_a_dx_ind
    ∷ some insn_adc_a_imm
    ∷ some insn_adc_dp_dp
    ∷ some insn_eor1
    ∷ some insn_dec_dp
    ∷ some insn_dec_abs
    ∷ some insn_mov_y_imm
    ∷ some insn_pop_psw
    ∷ some insn_mov_dp_imm
    ∷ []

unfoldable pub row_9 : List Entry
row_9 =
    some insn_bcc
    ∷ some insn_tcall_9
    ∷ some insn_clr_db_4
    ∷ some insn_bbc_db_4
    ∷ some insn_adc_a_dpx
    ∷ some insn_adc_a_absx
    ∷ some insn_adc_a_absy
    ∷ some insn_adc_a_dpiy
    ∷ some insn_adc_dp_imm
    ∷ some insn_adc_ix_iy
    ∷ some insn_subw_ya_dp
    ∷ some insn_dec_dpx
    ∷ some insn_dec_a
    ∷ none
    ∷ some insn_divw_ya_x
    ∷ some insn_xcn
    ∷ []

unfoldable pub row_a : List Entry
row_a =
    some insn_ei
    ∷ some insn_tcall_10
    ∷ some insn_set_db_5
    ∷ some insn_bbs_db_5
    ∷ some insn_sbc_a_dp
    ∷ some insn_sbc_a_abs
    ∷ some insn_sbc_a_ix
    ∷ some insn_sbc_a_dx_ind
    ∷ some insn_sbc_a_imm
    ∷ some insn_sbc_dp_dp
    ∷ some insn_mov1_load
    ∷ some insn_inc_dp
    ∷ some insn_inc_abs
    ∷ some insn_cmp_y_imm
    ∷ some insn_pop_a
    ∷ none
    ∷ []

unfoldable pub row_b : List Entry
row_b =
    some insn_bcs
    ∷ some insn_tcall_11
    ∷ some insn_clr_db_5
    ∷ some insn_bbc_db_5
    ∷ some insn_sbc_a_dpx
    ∷ some insn_sbc_a_absx
    ∷ some insn_sbc_a_absy
    ∷ some insn_sbc_a_dpiy
    ∷ some insn_sbc_dp_imm
    ∷ some insn_sbc_ix_iy
    ∷ some insn_movw_ya_dp
    ∷ some insn_inc_dpx
    ∷ some insn_inc_a
    ∷ none
    ∷ none
    ∷ none
    ∷ []

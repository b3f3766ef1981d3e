-- ===== src/Cpu/Table/Middle.antt =====
-- Rows 4 to 7 of `opcode_tbl` of spc700.c; `none` is a NULL entry.
use spu_kit.Cpu.Insn.Move.{insn_mov_x_a, insn_mov_a_x}
use spu_kit.Cpu.Insn.Shift.{
  insn_ror_dpx, insn_ror_dp, insn_ror_abs, insn_ror_a, insn_lsr_dpx, insn_lsr_dp, insn_lsr_abs,
  insn_lsr_a,
}
use spu_kit.Cpu.Insn.Logic.{
  insn_eor_ix_iy, insn_eor_dp_imm, insn_eor_dp_dp, insn_eor_a_ix, insn_eor_a_imm, insn_eor_a_dx_ind,
  insn_eor_a_dpx, insn_eor_a_dpiy, insn_eor_a_dp, insn_eor_a_absy, insn_eor_a_absx, insn_eor_a_abs,
}
use spu_kit.Cpu.Insn.Branch.{
  insn_tcall_7, insn_tcall_6, insn_tcall_5, insn_tcall_4, insn_ret, insn_jmp_abs, insn_dbnz_dp,
}
use spu_kit.Cpu.Insn.Compare.{
  insn_cmpw_ya_d, insn_cmp_y_dp, insn_cmp_ix_iy, insn_cmp_dp_imm, insn_cmp_dp_dp, insn_cmp_a_ix,
  insn_cmp_a_imm, insn_cmp_a_dx_ind, insn_cmp_a_dpx, insn_cmp_a_dpiy, insn_cmp_a_dp,
  insn_cmp_a_absy, insn_cmp_a_absx, insn_cmp_a_abs,
}
use spu_kit.Cpu.Insn.Control.{insn_setp, insn_push_y, insn_push_x, insn_clrc}
use spu_kit.Cpu.Insn.Bit.{
  insn_set_db_3, insn_set_db_2, insn_clr_db_3, insn_clr_db_2, insn_bbs_db_3, insn_bbs_db_2,
  insn_bbc_db_3, insn_bbc_db_2,
}
use spu_kit.Cpu.Insn.Membit.{insn_tclr1_abs, insn_and1_not, insn_and1}
use spu_kit.Cpu.Insn.Word.{insn_addw_ya_dp}
use spu_kit.Cpu.Table.Cell.{Entry}
use spu_kit.Base.{none, some, List, [], ◌∷◌}

unfoldable pub row_4 : List Entry
row_4 =
    some insn_setp
    ∷ some insn_tcall_4
    ∷ some insn_set_db_2
    ∷ some insn_bbs_db_2
    ∷ some insn_eor_a_dp
    ∷ some insn_eor_a_abs
    ∷ some insn_eor_a_ix
    ∷ some insn_eor_a_dx_ind
    ∷ some insn_eor_a_imm
    ∷ some insn_eor_dp_dp
    ∷ some insn_and1
    ∷ some insn_lsr_dp
    ∷ some insn_lsr_abs
    ∷ some insn_push_x
    ∷ some insn_tclr1_abs
    ∷ none
    ∷ []

unfoldable pub row_5 : List Entry
row_5 =
    none
    ∷ some insn_tcall_5
    ∷ some insn_clr_db_2
    ∷ some insn_bbc_db_2
    ∷ some insn_eor_a_dpx
    ∷ some insn_eor_a_absx
    ∷ some insn_eor_a_absy
    ∷ some insn_eor_a_dpiy
    ∷ some insn_eor_dp_imm
    ∷ some insn_eor_ix_iy
    ∷ some insn_cmpw_ya_d
    ∷ some insn_lsr_dpx
    ∷ some insn_lsr_a
    ∷ some insn_mov_x_a
    ∷ none
    ∷ some insn_jmp_abs
    ∷ []

unfoldable pub row_6 : List Entry
row_6 =
    some insn_clrc
    ∷ some insn_tcall_6
    ∷ some insn_set_db_3
    ∷ some insn_bbs_db_3
    ∷ some insn_cmp_a_dp
    ∷ some insn_cmp_a_abs
    ∷ some insn_cmp_a_ix
    ∷ some insn_cmp_a_dx_ind
    ∷ some insn_cmp_a_imm
    ∷ some insn_cmp_dp_dp
    ∷ some insn_and1_not
    ∷ some insn_ror_dp
    ∷ some insn_ror_abs
    ∷ some insn_push_y
    ∷ some insn_dbnz_dp
    ∷ some insn_ret
    ∷ []

unfoldable pub row_7 : List Entry
row_7 =
    none
    ∷ some insn_tcall_7
    ∷ some insn_clr_db_3
    ∷ some insn_bbc_db_3
    ∷ some insn_cmp_a_dpx
    ∷ some insn_cmp_a_absx
    ∷ some insn_cmp_a_absy
    ∷ some insn_cmp_a_dpiy
    ∷ some insn_cmp_dp_imm
    ∷ some insn_cmp_ix_iy
    ∷ some insn_addw_ya_dp
    ∷ some insn_ror_dpx
    ∷ some insn_ror_a
    ∷ some insn_mov_a_x
    ∷ some insn_cmp_y_dp
    ∷ none
    ∷ []

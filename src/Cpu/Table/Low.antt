-- ===== src/Cpu/Table/Low.antt =====
-- Rows 0 to 3 of `opcode_tbl` of spc700.c; `none` is a NULL entry.
use spu_kit.Cpu.Insn.Membit.{insn_tset1_abs, insn_or1_not, insn_or1}
use spu_kit.Cpu.Insn.Word.{insn_incw_dp, insn_decw_dp}
use spu_kit.Cpu.Insn.Control.{insn_push_psw, insn_push_a, insn_nop, insn_clrp}
use spu_kit.Cpu.Insn.Branch.{
  insn_tcall_3, insn_tcall_2, insn_tcall_1, insn_tcall_0, insn_jmp_absx_ind, insn_cbne_dp_rel,
  insn_call_abs, insn_bra, insn_bpl, insn_bmi,
}
use spu_kit.Cpu.Insn.Bit.{
  insn_set_db_1, insn_set_db_0, insn_clr_db_1, insn_clr_db_0, insn_bbs_db_1, insn_bbs_db_0,
  insn_bbc_db_1, insn_bbc_db_0,
}
use spu_kit.Cpu.Insn.Shift.{
  insn_rol_dpx, insn_rol_dp, insn_rol_abs, insn_rol_a, insn_inc_x, insn_dec_x, insn_asl_dpx,
  insn_asl_dp, insn_asl_abs, insn_asl_a,
}
use spu_kit.Cpu.Insn.Logic.{
  insn_or_ix_iy, insn_or_dp_imm, insn_or_dp_dp, insn_or_a_ix, insn_or_a_imm, insn_or_a_dx_ind,
  insn_or_a_dpx, insn_or_a_dpiy, insn_or_a_dp, insn_or_a_absy, insn_or_a_absx, insn_or_a_abs,
  insn_and_ix_iy, insn_and_dp_imm, insn_and_dp_dp, insn_and_a_ix, insn_and_a_imm, insn_and_a_dx_ind,
  insn_and_a_dpx, insn_and_a_dpiy, insn_and_a_dp, insn_and_a_absy, insn_and_a_absx, insn_and_a_abs,
}
use spu_kit.Cpu.Table.Cell.{Entry}
use spu_kit.Base.{none, some, List, [], ◌∷◌}

unfoldable pub row_0 : List Entry
row_0 =
    some insn_nop
    ∷ some insn_tcall_0
    ∷ some insn_set_db_0
    ∷ some insn_bbs_db_0
    ∷ some insn_or_a_dp
    ∷ some insn_or_a_abs
    ∷ some insn_or_a_ix
    ∷ some insn_or_a_dx_ind
    ∷ some insn_or_a_imm
    ∷ some insn_or_dp_dp
    ∷ some insn_or1
    ∷ some insn_asl_dp
    ∷ some insn_asl_abs
    ∷ some insn_push_psw
    ∷ some insn_tset1_abs
    ∷ none
    ∷ []

unfoldable pub row_1 : List Entry
row_1 =
    some insn_bpl
    ∷ some insn_tcall_1
    ∷ some insn_clr_db_0
    ∷ some insn_bbc_db_0
    ∷ some insn_or_a_dpx
    ∷ some insn_or_a_absx
    ∷ some insn_or_a_absy
    ∷ some insn_or_a_dpiy
    ∷ some insn_or_dp_imm
    ∷ some insn_or_ix_iy
    ∷ some insn_decw_dp
    ∷ some insn_asl_dpx
    ∷ some insn_asl_a
    ∷ some insn_dec_x
    ∷ none
    ∷ some insn_jmp_absx_ind
    ∷ []

unfoldable pub row_2 : List Entry
row_2 =
    some insn_clrp
    ∷ some insn_tcall_2
    ∷ some insn_set_db_1
    ∷ some insn_bbs_db_1
    ∷ some insn_and_a_dp
    ∷ some insn_and_a_abs
    ∷ some insn_and_a_ix
    ∷ some insn_and_a_dx_ind
    ∷ some insn_and_a_imm
    ∷ some insn_and_dp_dp
    ∷ some insn_or1_not
    ∷ some insn_rol_dp
    ∷ some insn_rol_abs
    ∷ some insn_push_a
    ∷ some insn_cbne_dp_rel
    ∷ some insn_bra
    ∷ []

unfoldable pub row_3 : List Entry
row_3 =
    some insn_bmi
    ∷ some insn_tcall_3
    ∷ some insn_clr_db_1
    ∷ some insn_bbc_db_1
    ∷ some insn_and_a_dpx
    ∷ some insn_and_a_absx
    ∷ some insn_and_a_absy
    ∷ some insn_and_a_dpiy
    ∷ some insn_and_dp_imm
    ∷ some insn_and_ix_iy
    ∷ some insn_incw_dp
    ∷ some insn_rol_dpx
    ∷ some insn_rol_a
    ∷ some insn_inc_x
    ∷ none
    ∷ some insn_call_abs
    ∷ []

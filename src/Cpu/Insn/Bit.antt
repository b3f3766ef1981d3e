-- ===== src/Cpu/Insn/Bit.antt =====
-- The instructions of spc700.c on single bits of the direct page.
use spu_kit.Base.{ℕ, bit_and, bit_or, not, if◌then◌else◌, test, not8, ◌<<<◌}
use spu_kit.Machine.Action.{M, pure, ◌>>=◌}
use spu_kit.Memory.{mem_load, mem_store}
use spu_kit.Cpu.Address.{branch, relative, direct_page}

unfoldable pub set_db : ℕ → M (Unit {0})
set_db bit = do
  addr ← direct_page
  operand ← mem_load addr
  mem_store addr (bit_or operand (1 <<< bit))

unfoldable pub clr_db : ℕ → M (Unit {0})
clr_db bit = do
  addr ← direct_page
  operand ← mem_load addr
  mem_store addr (bit_and operand (not8 (1 <<< bit)))

unfoldable pub bbs_db : ℕ → M (Unit {0})
bbs_db bit = do
  addr ← direct_page
  disp ← relative
  operand ← mem_load addr
  if test operand (1 <<< bit) then branch disp else pure tt

unfoldable pub bbc_db : ℕ → M (Unit {0})
bbc_db bit = do
  addr ← direct_page
  disp ← relative
  operand ← mem_load addr
  if not (test operand (1 <<< bit)) then branch disp else pure tt

unfoldable pub insn_set_db_0 : M (Unit {0})
insn_set_db_0 = set_db 0

unfoldable pub insn_set_db_1 : M (Unit {0})
insn_set_db_1 = set_db 1

unfoldable pub insn_set_db_2 : M (Unit {0})
insn_set_db_2 = set_db 2

unfoldable pub insn_set_db_3 : M (Unit {0})
insn_set_db_3 = set_db 3

unfoldable pub insn_set_db_4 : M (Unit {0})
insn_set_db_4 = set_db 4

unfoldable pub insn_set_db_5 : M (Unit {0})
insn_set_db_5 = set_db 5

unfoldable pub insn_set_db_6 : M (Unit {0})
insn_set_db_6 = set_db 6

unfoldable pub insn_set_db_7 : M (Unit {0})
insn_set_db_7 = set_db 7

unfoldable pub insn_clr_db_0 : M (Unit {0})
insn_clr_db_0 = clr_db 0

unfoldable pub insn_clr_db_1 : M (Unit {0})
insn_clr_db_1 = clr_db 1

unfoldable pub insn_clr_db_2 : M (Unit {0})
insn_clr_db_2 = clr_db 2

unfoldable pub insn_clr_db_3 : M (Unit {0})
insn_clr_db_3 = clr_db 3

unfoldable pub insn_clr_db_4 : M (Unit {0})
insn_clr_db_4 = clr_db 4

unfoldable pub insn_clr_db_5 : M (Unit {0})
insn_clr_db_5 = clr_db 5

unfoldable pub insn_clr_db_6 : M (Unit {0})
insn_clr_db_6 = clr_db 6

unfoldable pub insn_clr_db_7 : M (Unit {0})
insn_clr_db_7 = clr_db 7

unfoldable pub insn_bbs_db_0 : M (Unit {0})
insn_bbs_db_0 = bbs_db 0

unfoldable pub insn_bbs_db_1 : M (Unit {0})
insn_bbs_db_1 = bbs_db 1

unfoldable pub insn_bbs_db_2 : M (Unit {0})
insn_bbs_db_2 = bbs_db 2

unfoldable pub insn_bbs_db_3 : M (Unit {0})
insn_bbs_db_3 = bbs_db 3

unfoldable pub insn_bbs_db_4 : M (Unit {0})
insn_bbs_db_4 = bbs_db 4

unfoldable pub insn_bbs_db_5 : M (Unit {0})
insn_bbs_db_5 = bbs_db 5

unfoldable pub insn_bbs_db_6 : M (Unit {0})
insn_bbs_db_6 = bbs_db 6

unfoldable pub insn_bbs_db_7 : M (Unit {0})
insn_bbs_db_7 = bbs_db 7

unfoldable pub insn_bbc_db_0 : M (Unit {0})
insn_bbc_db_0 = bbc_db 0

unfoldable pub insn_bbc_db_1 : M (Unit {0})
insn_bbc_db_1 = bbc_db 1

unfoldable pub insn_bbc_db_2 : M (Unit {0})
insn_bbc_db_2 = bbc_db 2

unfoldable pub insn_bbc_db_3 : M (Unit {0})
insn_bbc_db_3 = bbc_db 3

unfoldable pub insn_bbc_db_4 : M (Unit {0})
insn_bbc_db_4 = bbc_db 4

unfoldable pub insn_bbc_db_5 : M (Unit {0})
insn_bbc_db_5 = bbc_db 5

unfoldable pub insn_bbc_db_6 : M (Unit {0})
insn_bbc_db_6 = bbc_db 6

unfoldable pub insn_bbc_db_7 : M (Unit {0})
insn_bbc_db_7 = bbc_db 7

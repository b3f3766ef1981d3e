-- ===== src/Cpu/Insn/Branch.antt =====
-- The branches, jumps and calls of spc700.c. Slot 9 of `tcall` calls slot 0, as in the source.
use spu_kit.Base.{ℕ, Bool, not, ◌==◌, if◌then◌else◌}
use spu_kit.Machine.{Cpu}
use spu_kit.Machine.Action.{M, pure, registers, assign, ◌>>=◌, ◌>>◌}
use spu_kit.Memory.{mem_load, mem_store}
use spu_kit.Cpu.Flags.{set_z}
use spu_kit.Cpu.Address.{
  set_pc, set_y, branch, relative, direct_page, direct_page_x, absolute, absolute_x_indirect,
}
use spu_kit.Cpu.Stack.{pop_word, call, tcall}
use spu_kit.Cpu.Insn.Shift.{decrement}

unfoldable pub branch_if : (Cpu → Bool) → M (Unit {0})
branch_if cond = do disp ← relative; c ← registers; if cond c then branch disp else pure tt

unfoldable pub insn_bra : M (Unit {0})
insn_bra = do disp ← relative; branch disp

unfoldable pub insn_bcc : M (Unit {0})
insn_bcc = branch_if (λ c. not c.carry)

unfoldable pub insn_bcs : M (Unit {0})
insn_bcs = branch_if (λ c. c.carry)

unfoldable pub insn_bpl : M (Unit {0})
insn_bpl = branch_if (λ c. not c.negative)

unfoldable pub insn_bmi : M (Unit {0})
insn_bmi = branch_if (λ c. c.negative)

unfoldable pub insn_bne : M (Unit {0})
insn_bne = branch_if (λ c. not c.zero)

unfoldable pub insn_beq : M (Unit {0})
insn_beq = branch_if (λ c. c.zero)

unfoldable pub insn_dbnz_dp : M (Unit {0})
insn_dbnz_dp = do
  addr ← direct_page
  operand ← mem_load addr
  disp ← relative
  assign (set_z (decrement operand))
  c ← registers
  if not c.zero then branch disp else pure tt
  mem_store addr (decrement operand)

unfoldable pub insn_dbnz_y : M (Unit {0})
insn_dbnz_y = do
  c ← registers
  disp ← relative
  if not (decrement c.y == 0) then branch disp else pure tt
  set_y (decrement c.y)

unfoldable pub cbne : M ℕ → M (Unit {0})
cbne mode = do
  addr ← mode
  operand ← mem_load addr
  disp ← relative
  c ← registers
  if not (operand == c.a) then branch disp else pure tt

unfoldable pub insn_cbne_dp_rel : M (Unit {0})
insn_cbne_dp_rel = cbne direct_page

unfoldable pub insn_cbne_dpx_rel : M (Unit {0})
insn_cbne_dpx_rel = cbne direct_page_x

unfoldable pub insn_jmp_absx_ind : M (Unit {0})
insn_jmp_absx_ind = do addr ← absolute_x_indirect; set_pc addr

unfoldable pub insn_jmp_abs : M (Unit {0})
insn_jmp_abs = do addr ← absolute; set_pc addr

unfoldable pub insn_call_abs : M (Unit {0})
insn_call_abs = do addr ← absolute; call addr

unfoldable pub insn_tcall_0 : M (Unit {0})
insn_tcall_0 = tcall 0

unfoldable pub insn_tcall_1 : M (Unit {0})
insn_tcall_1 = tcall 1

unfoldable pub insn_tcall_2 : M (Unit {0})
insn_tcall_2 = tcall 2

unfoldable pub insn_tcall_3 : M (Unit {0})
insn_tcall_3 = tcall 3

unfoldable pub insn_tcall_4 : M (Unit {0})
insn_tcall_4 = tcall 4

unfoldable pub insn_tcall_5 : M (Unit {0})
insn_tcall_5 = tcall 5

unfoldable pub insn_tcall_6 : M (Unit {0})
insn_tcall_6 = tcall 6

unfoldable pub insn_tcall_7 : M (Unit {0})
insn_tcall_7 = tcall 7

unfoldable pub insn_tcall_8 : M (Unit {0})
insn_tcall_8 = tcall 8

unfoldable pub insn_tcall_9 : M (Unit {0})
insn_tcall_9 = tcall 0

unfoldable pub insn_tcall_10 : M (Unit {0})
insn_tcall_10 = tcall 10

unfoldable pub insn_tcall_11 : M (Unit {0})
insn_tcall_11 = tcall 11

unfoldable pub insn_tcall_12 : M (Unit {0})
insn_tcall_12 = tcall 12

unfoldable pub insn_tcall_13 : M (Unit {0})
insn_tcall_13 = tcall 13

unfoldable pub insn_tcall_14 : M (Unit {0})
insn_tcall_14 = tcall 14

unfoldable pub insn_tcall_15 : M (Unit {0})
insn_tcall_15 = tcall 15

unfoldable pub insn_ret : M (Unit {0})
insn_ret = do reta ← pop_word; set_pc reta

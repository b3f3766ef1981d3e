-- ===== src/Cpu/Safe/Control.antt =====
-- The invariant of the machine through branches, jumps, calls, the stack and the flags.
use spu_kit.Cpu.Alu.Ranges.{set_z-IsValidCpu}
use spu_kit.Cpu.Flags.{psw_decompose, psw_compose}
use spu_kit.Cpu.Stack.{push_byte, pop_byte}
use spu_kit.Memory.Safe.{mem_store-Ensures, mem_load-Ensures}
use spu_kit.Cpu.Insn.Branch.{
  insn_ret, insn_jmp_absx_ind, insn_jmp_abs, insn_dbnz_y, insn_dbnz_dp, insn_call_abs, insn_bra,
}
use spu_kit.Cpu.Safe.Stack.{
  push_byte-Ensures, pop_word-Ensures, pop_byte-Ensures, or-IsByte, call-Ensures, bit-IsByte,
}
use spu_kit.Cpu.Safe.{
  set_y-Ensures, set_pc-Ensures, relative-Ensures, direct_page-Ensures, branch_when-Ensures,
  branch-Ensures, absolute_x_indirect-Ensures, absolute-Ensures,
}
use spu_kit.Cpu.Safe.Shape.{decrement-IsByte, SetsByte}
use spu_kit.Machine.Action.{◌>>=◌, registers, M}
use spu_kit.Machine.Valid.{IsValidCpu}
use spu_kit.Cpu.Safe.Rest.{ByteReg}
use spu_kit.Base.{◌<<<◌, ◌<◌, ℕ, true, of_bool, false, bit_or, arith, IsByte, Bool}
use spu_kit.Machine.Ensures.{
  Ensures-then, Ensures-registers, Ensures-bind, Ensures-assign, Ensures, Any,
}
use spu_kit.Machine.{Cpu}

pub bra-Ensures : Ensures Any insn_bra
unfolding insn_bra
bra-Ensures = Ensures-bind _ _ relative-Ensures (λ disp _. branch-Ensures disp)

pub dbnz_dp-Ensures : Ensures Any insn_dbnz_dp
unfolding insn_dbnz_dp
dbnz_dp-Ensures = Ensures-bind _ _ direct_page-Ensures (λ addr ha.
    Ensures-bind _ _ (mem_load-Ensures addr ha) (λ operand _.
      Ensures-bind _ _ relative-Ensures (λ disp _.
        Ensures-then _ _ (Ensures-assign _ (set_z-IsValidCpu _)) (
          Ensures-bind _ _ Ensures-registers (λ c _.
            Ensures-then _ _ (branch_when-Ensures _ disp)
              (mem_store-Ensures addr _ ha (decrement-IsByte operand)))))))

pub dbnz_y-Ensures : Ensures Any insn_dbnz_y
unfolding insn_dbnz_y
dbnz_y-Ensures = Ensures-bind _ _ Ensures-registers (λ c _.
    Ensures-bind _ _ relative-Ensures (λ disp _.
      Ensures-then _ _ (branch_when-Ensures _ disp) (set_y-Ensures _ (decrement-IsByte c.y))))

pub jmp_absx_ind-Ensures : Ensures Any insn_jmp_absx_ind
unfolding insn_jmp_absx_ind
jmp_absx_ind-Ensures =
    Ensures-bind _ _ absolute_x_indirect-Ensures (λ addr h. set_pc-Ensures addr h)

pub jmp_abs-Ensures : Ensures Any insn_jmp_abs
unfolding insn_jmp_abs
jmp_abs-Ensures = Ensures-bind _ _ absolute-Ensures (λ addr h. set_pc-Ensures addr h)

pub call_abs-Ensures : Ensures Any insn_call_abs
unfolding insn_call_abs
call_abs-Ensures = Ensures-bind _ _ absolute-Ensures (λ addr h. call-Ensures addr h)

pub ret-Ensures : Ensures Any insn_ret
unfolding insn_ret
ret-Ensures = Ensures-bind _ _ pop_word-Ensures (λ reta h. set_pc-Ensures reta h)

-- The stack and the flags
pub push_reg-Ensures :
    (reg : Cpu → ℕ) → ByteReg reg → Ensures Any (registers >>= λ c. push_byte (reg c))
push_reg-Ensures reg fits =
    Ensures-bind _ _ Ensures-registers (λ c v. push_byte-Ensures _ (fits c v))

pub pop_reg-Ensures :
    (set_reg : ℕ → M (Unit {0})) → SetsByte set_reg → Ensures Any (pop_byte >>= set_reg)
pop_reg-Ensures set_reg sets = Ensures-bind _ _ pop_byte-Ensures sets

flag-IsByte : (b : Bool) (k : ℕ) → k < 8 → IsByte (of_bool b <<< k)
flag-IsByte true k h = bit-IsByte k h
flag-IsByte false k h = omega arith

of_bool-IsByte : (b : Bool) → IsByte (of_bool b)
of_bool-IsByte true = omega arith
of_bool-IsByte false = omega arith

with_flag : {n : ℕ} (b : Bool) (k : ℕ) → k < 8 → IsByte n → IsByte (bit_or n (of_bool b <<< k))
with_flag b k h hn = or-IsByte _ _ hn (flag-IsByte b k h)

pub compose-IsByte : (c : Cpu) → IsByte (psw_compose c)
unfolding psw_compose
compose-IsByte c = with_flag c.negative 7 (omega arith) (
    with_flag c.overflow 6 (omega arith) (
      with_flag c.psw_p 5 (omega arith) (
        with_flag c.psw_b 4 (omega arith) (
          with_flag c.half_carry 3 (omega arith) (
            with_flag c.psw_i 2 (omega arith)
              (with_flag c.zero 1 (omega arith) (of_bool-IsByte c.carry)))))))

pub decompose-IsValidCpu : (psw : ℕ) (c : Cpu) → IsValidCpu c → IsValidCpu (psw_decompose psw c)
unfolding psw_decompose
decompose-IsValidCpu psw c v = omega arith

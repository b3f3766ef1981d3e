-- ===== src/Cpu/Safe/Insn.antt =====
-- The invariant of the machine through the instructions of spc700.c that share no shape.
use spu_kit.Cpu.Alu.Ranges.{subw-Safe, addw-Safe}
use spu_kit.Memory.Safe.{
  u16-IsWord, mem_store_word-Ensures, mem_store-Ensures, mem_load_word-Ensures, mem_load-Ensures,
}
use spu_kit.Cpu.Safe.{
  u8-IsByte, set_a-Ensures, set_ya-Ensures, set_x-Ensures, get_ya-IsWord, immediate-Ensures,
  direct_page-Ensures, absolute-Ensures,
}
use spu_kit.Cpu.Safe.Stack.{
  xor-IsByte, bitaddr-IsWord, bit-IsByte, and-IsByte, bitaddr_store-Ensures, bitaddr-Ensures,
  or-IsByte,
}
use spu_kit.Cpu.Safe.Shape.{zn16-Ensures, zn-Ensures, increment-IsByte}
use spu_kit.Machine.Valid.{IsValidCpu}
use spu_kit.Machine.Ensures.{
  Ensures-on_cpu, Ensures-then, Ensures-registers, Ensures-bind, Ensures-assign, Any, Ensures,
}
use spu_kit.Base.{arith, IsByte, ℕ}
use spu_kit.Cpu.Flags.{set_zn}
use spu_kit.Cpu.Insn.Move.{insn_mov_x_dp, insn_mov_x_abs, insn_mov_dp_imm, insn_mov_dp_dp}
use spu_kit.Cpu.Insn.Membit.{insn_tset1_abs, insn_tclr1_abs, insn_not1, insn_mov1_store}
use spu_kit.Cpu.Insn.Shift.{insn_inc_abs}
use spu_kit.Cpu.Insn.Word.{
  step_word, insn_xcn, insn_subw_ya_dp, insn_mul_ya, insn_movw_ya_dp, insn_movw_dp_ya,
  insn_divw_ya_x, insn_addw_ya_dp, exchange, divide,
}
use spu_kit.Machine.{Cpu}

pub mov1_store-Ensures : Ensures Any insn_mov1_store
unfolding insn_mov1_store
mov1_store-Ensures =
    Ensures-bind _ _ bitaddr-Ensures
      (λ m h. Ensures-bind _ _ Ensures-registers (λ c _. bitaddr_store-Ensures m c.carry h))

pub not1-Ensures : Ensures Any insn_not1
unfolding insn_not1
not1-Ensures = Ensures-bind _ _ bitaddr-Ensures (λ m h.
    Ensures-bind _ _ (mem_load-Ensures m.addr (bitaddr-IsWord h)) (λ byte hb.
      mem_store-Ensures m.addr _ (bitaddr-IsWord h)
        (xor-IsByte byte _ hb (bit-IsByte m.bit h.bit_fits))))

pub tset1-Ensures : Ensures Any insn_tset1_abs
unfolding insn_tset1_abs
tset1-Ensures = Ensures-bind _ _ absolute-Ensures (λ addr ha.
    Ensures-bind _ _ (mem_load-Ensures addr ha) (λ operand ho.
      Ensures-bind _ _ Ensures-registers (λ c v.
        Ensures-then _ _ (mem_store-Ensures addr _ ha (or-IsByte operand c.a ho v.a_fits))
          (zn-Ensures _))))

pub tclr1-Ensures : Ensures Any insn_tclr1_abs
unfolding insn_tclr1_abs
tclr1-Ensures = Ensures-bind _ _ absolute-Ensures (λ addr ha.
    Ensures-bind _ _ (mem_load-Ensures addr ha) (λ operand ho.
      Ensures-bind _ _ Ensures-registers (λ c v.
        Ensures-then _ _ (mem_store-Ensures addr _ ha (and-IsByte operand _ ho)) (zn-Ensures _))))

pub inc_abs-Ensures : Ensures Any insn_inc_abs
unfolding insn_inc_abs
inc_abs-Ensures = Ensures-bind _ _ absolute-Ensures (λ addr ha.
    Ensures-bind _ _ (mem_load-Ensures addr ha) (λ operand _.
      Ensures-then _ _ (mem_store-Ensures addr _ ha (increment-IsByte operand)) (zn-Ensures _)))

pub mov_x_abs-Ensures : Ensures Any insn_mov_x_abs
unfolding insn_mov_x_abs
mov_x_abs-Ensures = Ensures-bind _ _ absolute-Ensures (λ addr ha.
    Ensures-bind _ _ (mem_load-Ensures addr ha)
      (λ operand h. Ensures-then _ _ (set_x-Ensures operand h) (zn-Ensures operand)))

pub mov_x_dp-Ensures : Ensures Any insn_mov_x_dp
unfolding insn_mov_x_dp
mov_x_dp-Ensures =
    Ensures-bind _ _ direct_page-Ensures (λ addr ha.
      Ensures-bind _ _ (mem_load-Ensures addr ha) (λ operand h. set_x-Ensures operand h))

pub mov_dp_imm-Ensures : Ensures Any insn_mov_dp_imm
unfolding insn_mov_dp_imm
mov_dp_imm-Ensures =
    Ensures-bind _ _ immediate-Ensures
      (λ imm hi. Ensures-bind _ _ direct_page-Ensures (λ addr ha. mem_store-Ensures addr imm ha hi))

pub mov_dp_dp-Ensures : Ensures Any insn_mov_dp_dp
unfolding insn_mov_dp_dp
mov_dp_dp-Ensures = Ensures-bind _ _ direct_page-Ensures (λ src hs.
    Ensures-bind _ _ direct_page-Ensures (λ dst hd.
      Ensures-bind _ _ (mem_load-Ensures src hs) (λ operand h. mem_store-Ensures dst _ hd h)))

-- 16-bit instructions
pub step_word-Ensures : (delta : ℕ) → Ensures Any (step_word delta)
unfolding step_word
step_word-Ensures delta = Ensures-bind _ _ direct_page-Ensures (λ addr ha.
    Ensures-bind _ _ (mem_load_word-Ensures addr)
      (λ operand _. Ensures-then _ _ (zn16-Ensures _) (mem_store-Ensures addr _ ha (u8-IsByte _))))

pub addw-Ensures : Ensures Any insn_addw_ya_dp
unfolding insn_addw_ya_dp
addw-Ensures = Ensures-bind _ _ direct_page-Ensures (λ addr _.
    Ensures-bind _ _ (mem_load_word-Ensures addr) (λ operand _.
      Ensures-bind _ _ Ensures-registers (λ c _.
        Ensures-bind _ _ (Ensures-on_cpu _ (addw-Safe _ operand)) (λ r h. set_ya-Ensures r h))))

pub subw-Ensures : Ensures Any insn_subw_ya_dp
unfolding insn_subw_ya_dp
subw-Ensures = Ensures-bind _ _ direct_page-Ensures (λ addr _.
    Ensures-bind _ _ (mem_load_word-Ensures addr) (λ operand _.
      Ensures-bind _ _ Ensures-registers (λ c _.
        Ensures-bind _ _ (Ensures-on_cpu _ (subw-Safe _ operand)) (λ r h. set_ya-Ensures r h))))

pub movw_ya_dp-Ensures : Ensures Any insn_movw_ya_dp
unfolding insn_movw_ya_dp
movw_ya_dp-Ensures = Ensures-bind _ _ direct_page-Ensures (λ addr _.
    Ensures-bind _ _ (mem_load_word-Ensures addr)
      (λ operand h. Ensures-then _ _ (set_ya-Ensures operand h) (zn16-Ensures operand)))

pub movw_dp_ya-Ensures : Ensures Any insn_movw_dp_ya
unfolding insn_movw_dp_ya
movw_dp_ya-Ensures = Ensures-bind _ _ direct_page-Ensures (λ addr _.
    Ensures-bind _ _ Ensures-registers (λ c v. mem_store_word-Ensures addr _ (get_ya-IsWord v)))

divide-IsValidCpu : (c : Cpu) → IsValidCpu c → IsValidCpu (divide c)
unfolding divide set_zn
divide-IsValidCpu c v = ground arith

pub div-Ensures : Ensures Any insn_divw_ya_x
unfolding insn_divw_ya_x
div-Ensures = Ensures-assign _ divide-IsValidCpu

pub mul-Ensures : Ensures Any insn_mul_ya
unfolding insn_mul_ya
mul-Ensures =
    Ensures-bind _ _ Ensures-registers
      (λ c _. Ensures-then _ _ (zn16-Ensures _) (set_ya-Ensures _ (u16-IsWord _)))

exchange-IsByte : (a : ℕ) → IsByte (exchange a)
unfolding exchange
exchange-IsByte a = omega arith

pub xcn-Ensures : Ensures Any insn_xcn
unfolding insn_xcn
xcn-Ensures =
    Ensures-bind _ _ Ensures-registers
      (λ c _. Ensures-then _ _ (zn-Ensures _) (set_a-Ensures _ (exchange-IsByte c.a)))

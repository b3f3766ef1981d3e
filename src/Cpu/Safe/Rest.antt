-- ===== src/Cpu/Safe/Rest.antt =====
-- The invariant of the machine through the instructions of spc700.c that share a shape of
-- comparison, load, store, branch or single bit.
use spu_kit.Cpu.Alu.Ranges.{cmp-IsValidCpu}
use spu_kit.Memory.Safe.{mem_store-Ensures, mem_load_word-Ensures, mem_load-Ensures}
use spu_kit.Cpu.Safe.{
  set_carry-Ensures, indirect_y-Ensures, branch_when-Ensures, relative-Ensures, indirect_x-Ensures,
  immediate-Ensures, direct_page-Ensures,
}
use spu_kit.Cpu.Safe.Stack.{
  bit-IsByte, or-IsByte, and-IsByte, bitaddr_load-Ensures, bitaddr-Ensures,
}
use spu_kit.Cpu.Alu.{alu_cmp}
use spu_kit.Cpu.Safe.Shape.{zn-Ensures, SetsByte}
use spu_kit.Cpu.Flags.{set_zn16}
use spu_kit.Machine.Action.{assign, M}
use spu_kit.Machine.Valid.{IsValidCpu}
use spu_kit.Machine.Ensures.{
  Ensures-then, Ensures-assign, Ensures-registers, Ensures-bind, Any, Ensures,
}
use spu_kit.Base.{arith, IsWord, IsByte, Bool, ◌<◌, ℕ}
use spu_kit.Cpu.Insn.Move.{transfer, store_reg, load_reg, load_imm}
use spu_kit.Cpu.Insn.Membit.{carry_bit}
use spu_kit.Cpu.Insn.Branch.{cbne, branch_if}
use spu_kit.Cpu.Insn.Bit.{set_db, clr_db, bbs_db, bbc_db}
use spu_kit.Cpu.Insn.Compare.{
  insn_cmpw_ya_d, insn_cmp_ix_iy, insn_cmp_dp_imm, insn_cmp_dp_dp, cmp_mem, cmp_imm, alu_cmpw,
}
use spu_kit.Machine.{Cpu}

cmp-Ensures : (a b : ℕ) → Ensures Any (assign (alu_cmp a b))
cmp-Ensures a b = Ensures-assign _ (cmp-IsValidCpu a b)

pub cmp_mem-Ensures :
    (reg : Cpu → ℕ) (mode : M ℕ) → Ensures IsWord mode → Ensures Any (cmp_mem reg mode)
unfolding cmp_mem
cmp_mem-Ensures reg mode em = Ensures-bind _ _ em (λ addr ha.
    Ensures-bind _ _ (mem_load-Ensures addr ha)
      (λ operand _. Ensures-bind _ _ Ensures-registers (λ c _. cmp-Ensures (reg c) operand)))

pub cmp_imm-Ensures : (reg : Cpu → ℕ) → Ensures Any (cmp_imm reg)
unfolding cmp_imm
cmp_imm-Ensures reg =
    Ensures-bind _ _ immediate-Ensures
      (λ imm _. Ensures-bind _ _ Ensures-registers (λ c _. cmp-Ensures (reg c) imm))

pub cmp_dp_dp-Ensures : Ensures Any insn_cmp_dp_dp
unfolding insn_cmp_dp_dp
cmp_dp_dp-Ensures = Ensures-bind _ _ direct_page-Ensures (λ src hs.
    Ensures-bind _ _ direct_page-Ensures (λ dst hd.
      Ensures-bind _ _ (mem_load-Ensures src hs)
        (λ a _. Ensures-bind _ _ (mem_load-Ensures dst hd) (λ b _. cmp-Ensures a b))))

pub cmp_dp_imm-Ensures : Ensures Any insn_cmp_dp_imm
unfolding insn_cmp_dp_imm
cmp_dp_imm-Ensures = Ensures-bind _ _ immediate-Ensures (λ imm _.
    Ensures-bind _ _ direct_page-Ensures
      (λ addr ha. Ensures-bind _ _ (mem_load-Ensures addr ha) (λ a _. cmp-Ensures a imm)))

pub cmp_ix_iy-Ensures : Ensures Any insn_cmp_ix_iy
unfolding insn_cmp_ix_iy
cmp_ix_iy-Ensures = Ensures-bind _ _ indirect_x-Ensures (λ dst hd.
    Ensures-bind _ _ indirect_y-Ensures (λ src hs.
      Ensures-bind _ _ (mem_load-Ensures src hs)
        (λ a _. Ensures-bind _ _ (mem_load-Ensures dst hd) (λ b _. cmp-Ensures a b))))

cmpw-IsValidCpu : (ya operand : ℕ) (c : Cpu) → IsValidCpu c → IsValidCpu (alu_cmpw ya operand c)
unfolding alu_cmpw set_zn16
cmpw-IsValidCpu ya operand c v = omega arith

pub cmpw-Ensures : Ensures Any insn_cmpw_ya_d
unfolding insn_cmpw_ya_d
cmpw-Ensures = Ensures-bind _ _ direct_page-Ensures (λ addr _.
    Ensures-bind _ _ (mem_load_word-Ensures addr) (λ operand _.
      Ensures-bind _ _ Ensures-registers (λ c _. Ensures-assign _ (cmpw-IsValidCpu _ operand))))

pub load_reg-Ensures :
    (set_reg : ℕ → M (Unit {0})) (mode : M ℕ)
    → SetsByte set_reg
    → Ensures IsWord mode
    → Ensures Any (load_reg set_reg mode)
unfolding load_reg
load_reg-Ensures set_reg mode sets em = Ensures-bind _ _ em (λ addr ha.
    Ensures-bind _ _ (mem_load-Ensures addr ha)
      (λ operand h. Ensures-then _ _ (zn-Ensures operand) (sets operand h)))

pub load_imm-Ensures :
    (set_reg : ℕ → M (Unit {0})) → SetsByte set_reg → Ensures Any (load_imm set_reg)
unfolding load_imm
load_imm-Ensures set_reg sets =
    Ensures-bind _ _ immediate-Ensures
      (λ operand h. Ensures-then _ _ (zn-Ensures operand) (sets operand h))

-- A register that holds a byte.
abbrev pub ByteReg : (Cpu → ℕ) → Type 0
ByteReg reg = (c : Cpu) → IsValidCpu c → IsByte (reg c)

pub store_reg-Ensures :
    (reg : Cpu → ℕ) (mode : M ℕ)
    → ByteReg reg
    → Ensures IsWord mode
    → Ensures Any (store_reg reg mode)
unfolding store_reg
store_reg-Ensures reg mode fits em =
    Ensures-bind _ _ em (λ addr ha.
      Ensures-bind _ _ Ensures-registers (λ c v. mem_store-Ensures addr _ ha (fits c v)))

pub transfer-Ensures :
    (reg : Cpu → ℕ) (set_reg : ℕ → M (Unit {0}))
    → ByteReg reg
    → SetsByte set_reg
    → Ensures Any (transfer reg set_reg)
unfolding transfer
transfer-Ensures reg set_reg fits sets =
    Ensures-bind _ _ Ensures-registers (λ c v. Ensures-then _ _ (zn-Ensures _) (sets _ (fits c v)))

pub branch_if-Ensures : (cond : Cpu → Bool) → Ensures Any (branch_if cond)
unfolding branch_if
branch_if-Ensures cond =
    Ensures-bind _ _ relative-Ensures
      (λ disp _. Ensures-bind _ _ Ensures-registers (λ c _. branch_when-Ensures (cond c) disp))

pub cbne-Ensures : (mode : M ℕ) → Ensures IsWord mode → Ensures Any (cbne mode)
unfolding cbne
cbne-Ensures mode em = Ensures-bind _ _ em (λ addr ha.
    Ensures-bind _ _ (mem_load-Ensures addr ha) (λ operand _.
      Ensures-bind _ _ relative-Ensures
        (λ disp _. Ensures-bind _ _ Ensures-registers (λ c _. branch_when-Ensures _ disp))))

pub set_db-Ensures : (bit : ℕ) → bit < 8 → Ensures Any (set_db bit)
unfolding set_db
set_db-Ensures bit h = Ensures-bind _ _ direct_page-Ensures (λ addr ha.
    Ensures-bind _ _ (mem_load-Ensures addr ha)
      (λ operand ho. mem_store-Ensures addr _ ha (or-IsByte operand _ ho (bit-IsByte bit h))))

pub clr_db-Ensures : (bit : ℕ) → Ensures Any (clr_db bit)
unfolding clr_db
clr_db-Ensures bit = Ensures-bind _ _ direct_page-Ensures (λ addr ha.
    Ensures-bind _ _ (mem_load-Ensures addr ha)
      (λ operand ho. mem_store-Ensures addr _ ha (and-IsByte operand _ ho)))

pub bbs_db-Ensures : (bit : ℕ) → Ensures Any (bbs_db bit)
unfolding bbs_db
bbs_db-Ensures bit = Ensures-bind _ _ direct_page-Ensures (λ addr ha.
    Ensures-bind _ _ relative-Ensures (λ disp _.
      Ensures-bind _ _ (mem_load-Ensures addr ha) (λ operand _. branch_when-Ensures _ disp)))

pub bbc_db-Ensures : (bit : ℕ) → Ensures Any (bbc_db bit)
unfolding bbc_db
bbc_db-Ensures bit = Ensures-bind _ _ direct_page-Ensures (λ addr ha.
    Ensures-bind _ _ relative-Ensures (λ disp _.
      Ensures-bind _ _ (mem_load-Ensures addr ha) (λ operand _. branch_when-Ensures _ disp)))

pub carry_bit-Ensures : (op : Bool → Bool → Bool) → Ensures Any (carry_bit op)
unfolding carry_bit
carry_bit-Ensures op = Ensures-bind _ _ bitaddr-Ensures (λ m h.
    Ensures-bind _ _ (bitaddr_load-Ensures m h)
      (λ bit _. Ensures-bind _ _ Ensures-registers (λ c _. set_carry-Ensures _)))

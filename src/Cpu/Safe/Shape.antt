-- ===== src/Cpu/Safe/Shape.antt =====
-- The invariant of the machine through each shape of instruction of spc700.c.
use spu_kit.Memory.{mem_store}
use spu_kit.Cpu.Flags.{set_zn16, set_zn}
use spu_kit.Memory.Safe.{mem_store-Ensures, mem_load-Ensures}
use spu_kit.Cpu.Safe.{
  set_a-Ensures, indirect_y-Ensures, indirect_x-Ensures, immediate-Ensures, direct_page-Ensures,
}
use spu_kit.Cpu.Alu.Ranges.{set_zn16-IsValidCpu, set_zn-IsValidCpu, AluSafe}
use spu_kit.Machine.Action.{◌>>=◌, on_cpu, assign, M}
use spu_kit.Machine.Ensures.{
  Ensures-then, Ensures-on_cpu, Ensures-assign, Ensures-registers, Ensures-bind, Any, Ensures,
}
use spu_kit.Base.{arith, IsWord, IsByte, ℕ}
use spu_kit.Cpu.Insn.Shift.{step_reg, step_mem, shift_mem, shift_a, increment, decrement}
use spu_kit.Cpu.Insn.Shape.{
  alu_ix_iy, alu_imm_dp, alu_dp_imm, alu_dp_dp, alu_a_mem, alu_a_imm, AluOp,
}
use spu_kit.Machine.{Cpu}

-- An operation on two bytes is safe on all bytes.
abbrev pub BytesSafe : AluOp → Type 0
BytesSafe op = (a b : ℕ) → IsByte a → IsByte b → AluSafe IsByte (op a b)

pub alu_a_mem-Ensures :
    (op : AluOp) (mode : M ℕ) → BytesSafe op → Ensures IsWord mode → Ensures Any (alu_a_mem op mode)
unfolding alu_a_mem
alu_a_mem-Ensures op mode safe em = Ensures-bind _ _ em (λ addr ha.
    Ensures-bind _ _ (mem_load-Ensures addr ha) (λ operand ho.
      Ensures-bind _ _ Ensures-registers (λ c v.
        Ensures-bind _ _ (Ensures-on_cpu _ (safe _ _ v.a_fits ho)) (λ r h. set_a-Ensures r h))))

pub alu_a_imm-Ensures : (op : AluOp) → BytesSafe op → Ensures Any (alu_a_imm op)
unfolding alu_a_imm
alu_a_imm-Ensures op safe = Ensures-bind _ _ immediate-Ensures (λ imm hi.
    Ensures-bind _ _ Ensures-registers (λ c v.
      Ensures-bind _ _ (Ensures-on_cpu _ (safe _ _ v.a_fits hi)) (λ r h. set_a-Ensures r h)))

-- A result computed from two bytes and stored.
compute-Ensures :
    (op : AluOp) (addr a b : ℕ)
    → BytesSafe op
    → IsWord addr
    → IsByte a
    → IsByte b
    → Ensures Any (on_cpu (op a b) >>= mem_store addr)
compute-Ensures op addr a b safe h ha hb =
    Ensures-bind _ _ (Ensures-on_cpu _ (safe a b ha hb)) (λ r hr. mem_store-Ensures addr r h hr)

pub alu_dp_dp-Ensures : (op : AluOp) → BytesSafe op → Ensures Any (alu_dp_dp op)
unfolding alu_dp_dp
alu_dp_dp-Ensures op safe = Ensures-bind _ _ direct_page-Ensures (λ src hs.
    Ensures-bind _ _ direct_page-Ensures (λ dst hd.
      Ensures-bind _ _ (mem_load-Ensures src hs) (λ a ha.
        Ensures-bind _ _ (mem_load-Ensures dst hd)
          (λ b hb. compute-Ensures op dst a b safe hd ha hb))))

pub alu_dp_imm-Ensures : (op : AluOp) → BytesSafe op → Ensures Any (alu_dp_imm op)
unfolding alu_dp_imm
alu_dp_imm-Ensures op safe = Ensures-bind _ _ immediate-Ensures (λ imm hi.
    Ensures-bind _ _ direct_page-Ensures (λ addr ha.
      Ensures-bind _ _ (mem_load-Ensures addr ha)
        (λ b hb. compute-Ensures op addr b imm safe ha hb hi)))

pub alu_imm_dp-Ensures : (op : AluOp) → BytesSafe op → Ensures Any (alu_imm_dp op)
unfolding alu_imm_dp
alu_imm_dp-Ensures op safe = Ensures-bind _ _ immediate-Ensures (λ imm hi.
    Ensures-bind _ _ direct_page-Ensures (λ addr ha.
      Ensures-bind _ _ (mem_load-Ensures addr ha)
        (λ b hb. compute-Ensures op addr imm b safe ha hi hb)))

pub alu_ix_iy-Ensures : (op : AluOp) → BytesSafe op → Ensures Any (alu_ix_iy op)
unfolding alu_ix_iy
alu_ix_iy-Ensures op safe = Ensures-bind _ _ indirect_x-Ensures (λ dst hd.
    Ensures-bind _ _ indirect_y-Ensures (λ src hs.
      Ensures-bind _ _ (mem_load-Ensures src hs) (λ a ha.
        Ensures-bind _ _ (mem_load-Ensures dst hd)
          (λ b hb. compute-Ensures op dst a b safe hd ha hb))))

-- An operation on one byte is safe on every byte.
abbrev pub ByteSafe : (ℕ → Cpu → ℕ × Cpu) → Type 0
ByteSafe op = (a : ℕ) → IsByte a → AluSafe IsByte (op a)

pub shift_mem-Ensures :
    (op : ℕ → Cpu → ℕ × Cpu) (mode : M ℕ)
    → ByteSafe op
    → Ensures IsWord mode
    → Ensures Any (shift_mem op mode)
unfolding shift_mem
shift_mem-Ensures op mode safe em = Ensures-bind _ _ em (λ addr ha.
    Ensures-bind _ _ (mem_load-Ensures addr ha) (λ operand ho.
      Ensures-bind _ _ (Ensures-on_cpu _ (safe operand ho))
        (λ r hr. mem_store-Ensures addr r ha hr)))

pub shift_a-Ensures : (op : ℕ → Cpu → ℕ × Cpu) → ByteSafe op → Ensures Any (shift_a op)
unfolding shift_a
shift_a-Ensures op safe =
    Ensures-bind _ _ Ensures-registers
      (λ c v. Ensures-bind _ _ (Ensures-on_cpu _ (safe c.a v.a_fits)) (λ r hr. set_a-Ensures r hr))

-- Setting a byte register needs a byte.
abbrev pub SetsByte : (ℕ → M (Unit {0})) → Type 0
SetsByte set_reg = (n : ℕ) → IsByte n → Ensures Any (set_reg n)

pub zn-Ensures : (n : ℕ) → Ensures Any (assign (set_zn n))
zn-Ensures n = Ensures-assign _ (set_zn-IsValidCpu n)

pub zn16-Ensures : (n : ℕ) → Ensures Any (assign (set_zn16 n))
zn16-Ensures n = Ensures-assign _ (set_zn16-IsValidCpu n)

pub decrement-IsByte : (n : ℕ) → IsByte (decrement n)
unfolding decrement
decrement-IsByte n = omega arith

pub increment-IsByte : (n : ℕ) → IsByte (increment n)
unfolding increment
increment-IsByte n = omega arith

pub step_mem-Ensures :
    (step : ℕ → ℕ) (mode : M ℕ)
    → ((n : ℕ) → IsByte (step n))
    → Ensures IsWord mode
    → Ensures Any (step_mem step mode)
unfolding step_mem
step_mem-Ensures step mode fits em = Ensures-bind _ _ em (λ addr ha.
    Ensures-bind _ _ (mem_load-Ensures addr ha)
      (λ operand _. Ensures-then _ _ (zn-Ensures _) (mem_store-Ensures addr _ ha (fits operand))))

pub step_reg-Ensures :
    (step : ℕ → ℕ) (reg : Cpu → ℕ) (set_reg : ℕ → M (Unit {0}))
    → ((n : ℕ) → IsByte (step n))
    → SetsByte set_reg
    → Ensures Any (step_reg step reg set_reg)
unfolding step_reg
step_reg-Ensures step reg set_reg fits sets =
    Ensures-bind _ _ Ensures-registers
      (λ c _. Ensures-then _ _ (zn-Ensures _) (sets _ (fits (reg c))))

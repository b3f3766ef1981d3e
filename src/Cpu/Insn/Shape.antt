-- ===== src/Cpu/Insn/Shape.antt =====
-- The shapes that the two-operand instructions of spc700.c share: one helper for each list of
-- operands, over the ALU operation and the addressing mode.
use spu_kit.Base.{ℕ}
use spu_kit.Machine.{Cpu}
use spu_kit.Machine.Action.{M, registers, on_cpu, ◌>>=◌}
use spu_kit.Memory.{mem_load, mem_store}
use spu_kit.Cpu.Address.{set_a, immediate, direct_page, indirect_x, indirect_y}

abbrev pub AluOp : Type 0
AluOp = ℕ → ℕ → Cpu → ℕ × Cpu

-- `A op= mem[mode]`
unfoldable pub alu_a_mem : AluOp → M ℕ → M (Unit {0})
alu_a_mem op mode = do
  addr ← mode
  operand ← mem_load addr
  c ← registers
  result ← on_cpu (op c.a operand)
  set_a result

-- `A op= #i`
unfoldable pub alu_a_imm : AluOp → M (Unit {0})
alu_a_imm op = do imm ← immediate; c ← registers; result ← on_cpu (op c.a imm); set_a result

-- `d op= d`
unfoldable pub alu_dp_dp : AluOp → M (Unit {0})
alu_dp_dp op = do
  src ← direct_page
  dst ← direct_page
  src_val ← mem_load src
  dst_val ← mem_load dst
  result ← on_cpu (op src_val dst_val)
  mem_store dst result

-- `d op= #i`, the byte in memory first
unfoldable pub alu_dp_imm : AluOp → M (Unit {0})
alu_dp_imm op = do
  imm ← immediate
  addr ← direct_page
  operand ← mem_load addr
  result ← on_cpu (op operand imm)
  mem_store addr result

-- `d op= #i`, the immediate first
unfoldable pub alu_imm_dp : AluOp → M (Unit {0})
alu_imm_dp op = do
  imm ← immediate
  addr ← direct_page
  operand ← mem_load addr
  result ← on_cpu (op imm operand)
  mem_store addr result

-- `(X) op= (Y)`
unfoldable pub alu_ix_iy : AluOp → M (Unit {0})
alu_ix_iy op = do
  dst ← indirect_x
  src ← indirect_y
  src_val ← mem_load src
  dst_val ← mem_load dst
  result ← on_cpu (op src_val dst_val)
  mem_store dst result

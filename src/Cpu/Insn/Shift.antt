-- ===== src/Cpu/Insn/Shift.antt =====
-- The shifts, rotations, increments and decrements of spc700.c.
use spu_kit.Base.{ℕ, ◌+◌, u8}
use spu_kit.Machine.{Cpu}
use spu_kit.Machine.Action.{M, registers, on_cpu, assign, ◌>>=◌, ◌>>◌}
use spu_kit.Memory.{mem_load, mem_store}
use spu_kit.Cpu.Flags.{set_zn}
use spu_kit.Cpu.Alu.{alu_asl, alu_rol, alu_lsr, alu_ror}
use spu_kit.Cpu.Address.{set_a, set_x, set_y, direct_page, direct_page_x, absolute}

unfoldable pub shift_mem : (ℕ → Cpu → ℕ × Cpu) → M ℕ → M (Unit {0})
shift_mem op mode = do
  addr ← mode
  operand ← mem_load addr
  result ← on_cpu (op operand)
  mem_store addr result

unfoldable pub shift_a : (ℕ → Cpu → ℕ × Cpu) → M (Unit {0})
shift_a op = do c ← registers; result ← on_cpu (op c.a); set_a result

unfoldable pub insn_asl_dp : M (Unit {0})
insn_asl_dp = shift_mem alu_asl direct_page

unfoldable pub insn_asl_abs : M (Unit {0})
insn_asl_abs = shift_mem alu_asl absolute

unfoldable pub insn_asl_dpx : M (Unit {0})
insn_asl_dpx = shift_mem alu_asl direct_page_x

unfoldable pub insn_asl_a : M (Unit {0})
insn_asl_a = shift_a alu_asl

unfoldable pub insn_rol_dp : M (Unit {0})
insn_rol_dp = shift_mem alu_rol direct_page

unfoldable pub insn_rol_abs : M (Unit {0})
insn_rol_abs = shift_mem alu_rol absolute

unfoldable pub insn_rol_dpx : M (Unit {0})
insn_rol_dpx = shift_mem alu_rol direct_page_x

unfoldable pub insn_rol_a : M (Unit {0})
insn_rol_a = shift_a alu_rol

unfoldable pub insn_lsr_dp : M (Unit {0})
insn_lsr_dp = shift_mem alu_lsr direct_page

unfoldable pub insn_lsr_abs : M (Unit {0})
insn_lsr_abs = shift_mem alu_lsr absolute

unfoldable pub insn_lsr_dpx : M (Unit {0})
insn_lsr_dpx = shift_mem alu_lsr direct_page_x

unfoldable pub insn_lsr_a : M (Unit {0})
insn_lsr_a = shift_a alu_lsr

unfoldable pub insn_ror_dp : M (Unit {0})
insn_ror_dp = shift_mem alu_ror direct_page

unfoldable pub insn_ror_abs : M (Unit {0})
insn_ror_abs = shift_mem alu_ror absolute

unfoldable pub insn_ror_dpx : M (Unit {0})
insn_ror_dpx = shift_mem alu_ror direct_page_x

unfoldable pub insn_ror_a : M (Unit {0})
insn_ror_a = shift_a alu_ror

-- `operand - 1` and `operand + 1` of a `uint8_t`
unfoldable pub decrement : ℕ → ℕ
decrement operand = u8 (operand + 255)

unfoldable pub increment : ℕ → ℕ
increment operand = u8 (operand + 1)

-- The flags are set before the store.
unfoldable pub step_mem : (ℕ → ℕ) → M ℕ → M (Unit {0})
step_mem step mode = do
  addr ← mode
  operand ← mem_load addr
  assign (set_zn (step operand))
  mem_store addr (step operand)

unfoldable pub step_reg : (ℕ → ℕ) → (Cpu → ℕ) → (ℕ → M (Unit {0})) → M (Unit {0})
step_reg step reg set_reg = do c ← registers; assign (set_zn (step (reg c))); set_reg (step (reg c))

unfoldable pub insn_dec_dp : M (Unit {0})
insn_dec_dp = step_mem decrement direct_page

unfoldable pub insn_dec_abs : M (Unit {0})
insn_dec_abs = step_mem decrement absolute

unfoldable pub insn_dec_dpx : M (Unit {0})
insn_dec_dpx = step_mem decrement direct_page_x

unfoldable pub insn_dec_a : M (Unit {0})
insn_dec_a = step_reg decrement (λ c. c.a) set_a

unfoldable pub insn_dec_x : M (Unit {0})
insn_dec_x = step_reg decrement (λ c. c.x) set_x

unfoldable pub insn_dec_y : M (Unit {0})
insn_dec_y = step_reg decrement (λ c. c.y) set_y

unfoldable pub insn_inc_dp : M (Unit {0})
insn_inc_dp = step_mem increment direct_page

unfoldable pub insn_inc_abs : M (Unit {0})
insn_inc_abs = do
  addr ← absolute
  operand ← mem_load addr
  mem_store addr (increment operand)
  assign (set_zn (increment operand))

unfoldable pub insn_inc_dpx : M (Unit {0})
insn_inc_dpx = step_mem increment direct_page_x

unfoldable pub insn_inc_a : M (Unit {0})
insn_inc_a = step_reg increment (λ c. c.a) set_a

unfoldable pub insn_inc_x : M (Unit {0})
insn_inc_x = step_reg increment (λ c. c.x) set_x

unfoldable pub insn_inc_y : M (Unit {0})
insn_inc_y = step_reg increment (λ c. c.y) set_y

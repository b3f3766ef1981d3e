-- ===== src/Cpu/Insn/Control.antt =====
-- The stack and flag instructions of spc700.c.
use spu_kit.Base.{true, false, not}
use spu_kit.Machine.Action.{M, pure, registers, assign, ◌>>=◌}
use spu_kit.Cpu.Flags.{psw_compose, psw_decompose}
use spu_kit.Cpu.Address.{set_a, set_x, set_y}
use spu_kit.Cpu.Stack.{push_byte, pop_byte}

unfoldable pub insn_nop : M (Unit {0})
insn_nop = pure tt

unfoldable pub insn_push_psw : M (Unit {0})
insn_push_psw = do c ← registers; push_byte (psw_compose c)

unfoldable pub insn_push_a : M (Unit {0})
insn_push_a = do c ← registers; push_byte c.a

unfoldable pub insn_push_x : M (Unit {0})
insn_push_x = do c ← registers; push_byte c.x

unfoldable pub insn_push_y : M (Unit {0})
insn_push_y = do c ← registers; push_byte c.y

unfoldable pub insn_pop_a : M (Unit {0})
insn_pop_a = do operand ← pop_byte; set_a operand

unfoldable pub insn_pop_x : M (Unit {0})
insn_pop_x = do operand ← pop_byte; set_x operand

unfoldable pub insn_pop_y : M (Unit {0})
insn_pop_y = do operand ← pop_byte; set_y operand

unfoldable pub insn_pop_psw : M (Unit {0})
insn_pop_psw = do operand ← pop_byte; assign (psw_decompose operand)

unfoldable pub insn_clrc : M (Unit {0})
insn_clrc = assign (λ c. record c { carry = false })

unfoldable pub insn_setc : M (Unit {0})
insn_setc = assign (λ c. record c { carry = true })

unfoldable pub insn_notc : M (Unit {0})
insn_notc = assign (λ c. record c { carry = not c.carry })

unfoldable pub insn_clrv : M (Unit {0})
insn_clrv = assign (λ c. record c { overflow = false; half_carry = false })

unfoldable pub insn_clrp : M (Unit {0})
insn_clrp = assign (λ c. record c { psw_p = false })

unfoldable pub insn_setp : M (Unit {0})
insn_setp = assign (λ c. record c { psw_p = true })

unfoldable pub insn_ei : M (Unit {0})
insn_ei = assign (λ c. record c { psw_i = true })

unfoldable pub insn_di : M (Unit {0})
insn_di = assign (λ c. record c { psw_i = false })

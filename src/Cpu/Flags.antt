-- ===== src/Cpu/Flags.antt =====
-- The processor status word of spc700.c, and the flags that an ALU operation sets.
pub mod Psw
use spu_kit.Base.{ℕ, bit_or, ◌==◌, test, of_bool, ◌<<<◌}
use spu_kit.Machine.{Cpu}

unfoldable pub psw_decompose : ℕ → Cpu → Cpu
psw_decompose psw c = record c {
  carry = test psw 0x01;
  zero = test psw 0x02;
  psw_i = test psw 0x04;
  half_carry = test psw 0x08;
  psw_b = test psw 0x10;
  psw_p = test psw 0x20;
  overflow = test psw 0x40;
  negative = test psw 0x80;
}

infixl 60 ◌or◌
abbrev ◌or◌ : ℕ → ℕ → ℕ
a or b = bit_or a b

unfoldable pub psw_compose : Cpu → ℕ
psw_compose c =
    of_bool c.carry
    or of_bool c.zero <<< 1
    or of_bool c.psw_i <<< 2
    or of_bool c.half_carry <<< 3
    or of_bool c.psw_b <<< 4
    or of_bool c.psw_p <<< 5
    or of_bool c.overflow <<< 6
    or of_bool c.negative <<< 7

unfoldable pub set_z : ℕ → Cpu → Cpu
set_z result c = record c { zero = result == 0 }

unfoldable pub set_zn : ℕ → Cpu → Cpu
unfolding set_z
set_zn result c = record (set_z result c) { negative = test result 0x80 }

unfoldable pub set_zn16 : ℕ → Cpu → Cpu
set_zn16 result c = record c { zero = result == 0; negative = test result 0x8000 }

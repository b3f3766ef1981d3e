-- ===== src/Cpu/Stack.antt =====
-- The stack of spc700.c, and the calls that use it.
pub mod RoundTrip
pub mod Table
use spu_kit.Base.{ℕ, ◌+◌, ◌-◌, bit_and, bit_or, u8, ◌<<<◌, ◌>>>◌}
use spu_kit.Machine.{Cpu}
use spu_kit.Machine.Action.{M, pure, registers, ◌>>=◌, ◌>>◌}
use spu_kit.Memory.{mem_load, mem_store, mem_load_word}
use spu_kit.Cpu.Address.{set_pc, set_sp}

unfoldable pub stack_addr : Cpu → ℕ
stack_addr c = bit_or 0x0100 c.sp

unfoldable pub push_byte : ℕ → M (Unit {0})
push_byte byte = do c ← registers; mem_store (stack_addr c) byte; set_sp (u8 (c.sp + 255))

unfoldable pub pop_byte : M ℕ
pop_byte = do c ← registers; set_sp (u8 (c.sp + 1)); d ← registers; mem_load (stack_addr d)

unfoldable pub push_word : ℕ → M (Unit {0})
push_word word = do push_byte (word >>> 8); push_byte (bit_and word 0xff)

unfoldable pub pop_word : M ℕ
pop_word = do lo ← pop_byte; hi ← pop_byte; pure (bit_or (hi <<< 8) lo)

unfoldable pub call : ℕ → M (Unit {0})
call addr = do c ← registers; push_word c.pc; set_pc addr

unfoldable pub tcall : ℕ → M (Unit {0})
tcall slot = do addr ← mem_load_word (0xffc0 + (0xf - bit_and slot 0xf) <<< 1); call addr

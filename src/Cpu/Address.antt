-- ===== src/Cpu/Address.antt =====
-- Fetching, the addressing modes and the register assignments of spc700.c.
pub mod Branches
pub mod Bits
use spu_kit.Base.{
  ℕ, ◌+◌, bit_and, bit_or, Bool, ltb, if◌then◌else◌, u8, u16, of_bool, test, not8, ◌<<<◌, ◌>>>◌,
}
use spu_kit.Machine.{Cpu}
use spu_kit.Machine.Action.{M, pure, gets, registers, assign, ◌>>=◌, ◌>>◌}
use spu_kit.Memory.{mem_load, mem_store, mem_load_word}

unfoldable pub set_pc : ℕ → M (Unit {0})
unfolding assign
set_pc v = assign (λ c. record c { pc = v })

unfoldable pub set_a : ℕ → M (Unit {0})
unfolding assign
set_a v = assign (λ c. record c { a = v })

unfoldable pub set_x : ℕ → M (Unit {0})
unfolding assign
set_x v = assign (λ c. record c { x = v })

unfoldable pub set_y : ℕ → M (Unit {0})
unfolding assign
set_y v = assign (λ c. record c { y = v })

unfoldable pub set_sp : ℕ → M (Unit {0})
unfolding assign
set_sp v = assign (λ c. record c { sp = v })

unfoldable pub set_carry : Bool → M (Unit {0})
unfolding assign
set_carry v = assign (λ c. record c { carry = v })

unfoldable pub get_ya : Cpu → ℕ
get_ya c = bit_or (c.y <<< 8) c.a

unfoldable pub set_ya : ℕ → M (Unit {0})
set_ya ya = do set_y (ya >>> 8); set_a (bit_and ya 0xff)

-- Instructions are fetched from `aram` itself, past the APU registers.
unfoldable pub fetch_insn : M ℕ
fetch_insn = do c ← registers; set_pc (u16 (c.pc + 1)); gets (λ s. s.aram c.pc)

unfoldable pub immediate : M ℕ
unfolding fetch_insn
immediate = fetch_insn

unfoldable pub relative : M ℕ
unfolding fetch_insn
relative = fetch_insn

-- `pc += disp` for an `int8_t disp` given by its bits
unfoldable pub displace : ℕ → ℕ → ℕ
displace pc disp = u16 (pc + (if ltb disp 0x80 then disp else disp + 0xff00))

unfoldable pub branch : ℕ → M (Unit {0})
branch disp = do c ← registers; set_pc (displace c.pc disp)

unfoldable pub direct_page_effective : ℕ → Cpu → ℕ
direct_page_effective addr c = bit_or (of_bool c.psw_p <<< 8) addr

-- d
unfoldable pub direct_page : M ℕ
direct_page = do lo ← fetch_insn; c ← registers; pure (direct_page_effective lo c)

-- d+X
unfoldable pub direct_page_x : M ℕ
direct_page_x = do lo ← fetch_insn; c ← registers; pure (direct_page_effective (u8 (lo + c.x)) c)

-- (d)+Y
unfoldable pub direct_page_indirect_y : M ℕ
direct_page_indirect_y = do
  ind_addr ← direct_page
  addr ← mem_load_word ind_addr
  c ← registers
  pure (u16 (addr + c.y))

-- (d+X)
unfoldable pub direct_page_x_indirect : M ℕ
direct_page_x_indirect = do addr ← direct_page_x; mem_load_word addr

-- (X)
unfoldable pub indirect_x : M ℕ
indirect_x = do c ← registers; pure (direct_page_effective c.x c)

-- (Y)
unfoldable pub indirect_y : M ℕ
indirect_y = do c ← registers; pure (direct_page_effective c.y c)

-- !a
unfoldable pub absolute : M ℕ
absolute = do lo ← fetch_insn; hi ← fetch_insn; pure (bit_or (hi <<< 8) lo)

-- !a+X
unfoldable pub absolute_x : M ℕ
absolute_x = do addr ← absolute; c ← registers; pure (u16 (addr + c.x))

-- !a+Y
unfoldable pub absolute_y : M ℕ
absolute_y = do addr ← absolute; c ← registers; pure (u16 (addr + c.y))

-- (!a+X)
unfoldable pub absolute_x_indirect : M ℕ
absolute_x_indirect = do addr ← absolute_x; mem_load_word addr

-- m.b: a bit of a byte of the first 8 KiB
pub record Bitaddr : Type 0 where
  pub addr : ℕ
  pub bit : ℕ

unfoldable pub bitaddr_init : ℕ → Bitaddr
bitaddr_init word = record { addr = bit_and word 0x1fff; bit = word >>> 13 }

unfoldable pub bitaddr : M Bitaddr
bitaddr = do word ← absolute; pure (bitaddr_init word)

unfoldable pub bitaddr_load : Bitaddr → M Bool
bitaddr_load m = do byte ← mem_load m.addr; pure (test byte (1 <<< m.bit))

unfoldable pub bitaddr_store : Bitaddr → Bool → M (Unit {0})
bitaddr_store m val = do
  byte ← mem_load m.addr
  mem_store m.addr (if val then bit_or byte (1 <<< m.bit) else bit_and byte (not8 (1 <<< m.bit)))

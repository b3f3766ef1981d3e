-- ===== src/Cpu/Run.antt =====
-- Restoring and resetting the processor of spc700.c.
pub mod Reset
use Prim.Native.Nat.{zero, suc}
use spu_kit.Base.{ℕ, ◌+◌, bit_and, none, some, ◌==◌, if◌then◌else◌, u32, copy}
use spu_kit.Machine.{Cpu}
use spu_kit.Machine.Action.{M, pure, modify, assign, ◌>>=◌, ◌>>◌}
use spu_kit.Memory.{mem_load_word}
use spu_kit.Cpu.Flags.{psw_decompose}
use spu_kit.Cpu.Address.{fetch_insn}
use spu_kit.Cpu.Table.{Entry, opcode_tbl, entry}

-- `struct spc700_regs`
pub record Spc700Regs : Type 0 where
  pub pc : ℕ
  pub a : ℕ
  pub x : ℕ
  pub y : ℕ
  pub psw : ℕ
  pub sp : ℕ

unfoldable pub set_regs : Spc700Regs → Cpu → Cpu
unfolding psw_decompose
set_regs r c = psw_decompose r.psw (record c { pc = r.pc; a = r.a; x = r.x; y = r.y; sp = r.sp })

unfoldable pub spc700_restore : Spc700Regs → (ℕ → ℕ) → (ℕ → ℕ) → M (Unit {0})
spc700_restore r ram extra = do
  assign (set_regs r)
  modify (λ s. record s {
    aram = copy s.aram 0 ram 0 0x10000;
    extra_ram = copy s.extra_ram 0 extra 0 0x40;
  })

unfoldable pub spc700_reset : M (Unit {0})
spc700_reset = do
  reset_vector ← mem_load_word 0xfffe
  assign (set_regs (record { pc = reset_vector; a = 0; x = 0; y = 0; psw = 0x02; sp = 0xef }))

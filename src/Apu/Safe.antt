-- ===== src/Apu/Safe.antt =====
-- The invariant of the machine, and the assertions, through the operations of apu.c.
use spu_kit.Base.{ℕ, ◌-◌, ◌≤◌, ◌<◌, ◌≡◌, true, arith, ◌==◌, ltb, leb, ◌&&◌, IsByte, test}
use spu_kit.Base.Bits.{and_mask}
use spu_kit.Machine.Action.{gets}
use spu_kit.Machine.Ensures.{
  Ensures-if, ensures_rules, Ensures, Any, Ensures-gets, Ensures-bind, Ensures-modify_apu,
  Ensures-xassert,
}
use spu_kit.Rom.Safe.{overlay-Ensures}
use spu_kit.Dsp.Safe.{dsp_store-Ensures, dsp_load-Ensures}
use spu_kit.Apu.{
  tout, clear_tout, apu_reg, apu_ctrl_store, io_load, io_store, mmio_store_case, apu_mmio_store,
  mmio_load_case, apu_mmio_load, timer_tick,
}
use spu_kit.Apu.Ranges.{ctrl_regs-IsValidApu, tick-IsValidApu, store-IsValidApu, port-IsValidApu}

pub apu_ctrl_store-Ensures : (byte : ℕ) → Ensures Any (apu_ctrl_store byte)
unfolding apu_ctrl_store
apu_ctrl_store-Ensures byte =
    Ensures-bind _ _ (Ensures-modify_apu _ (ctrl_regs-IsValidApu byte))
      (λ _ _. overlay-Ensures (test byte 0x80))

-- The registers lie at $00f0 to $00ff.
abbrev pub IsMmio : ℕ → Type 0
IsMmio addr = (0xf0 ≤ addr) × (addr < 0x100)

port_in_range :
    (addr : ℕ)
    → IsMmio addr
    → (leb 4 (apu_reg addr) && leb (apu_reg addr) 7) ≡ true
    → ltb (addr - 0xf4) 4 ≡ true
unfolding apu_reg
port_in_range addr h e = ground (arith, and_mask 4 addr)

dsp_addr-Ensures : Ensures IsByte (gets (λ s. s.apu.sram 2))
dsp_addr-Ensures = Ensures-gets _ (λ s v. v.apu_valid.sram_fits 2)

register-Ensures : (r : ℕ) → Ensures IsByte (gets (λ s. s.apu.sram r))
register-Ensures r = Ensures-gets _ (λ s v. v.apu_valid.sram_fits r)

io_load-Ensures : (addr : ℕ) → ltb addr 4 ≡ true → Ensures IsByte (io_load addr)
unfolding io_load
io_load-Ensures addr h =
    Ensures-bind _ _ (Ensures-xassert _ h) (λ _ _. Ensures-gets _ (λ s v. v.apu_valid.in_fits addr))

io_store-Ensures :
    (addr byte : ℕ) → IsByte byte → ltb addr 4 ≡ true → Ensures Any (io_store addr byte)
unfolding io_store
io_store-Ensures addr byte hb h =
    Ensures-bind _ _ (Ensures-xassert _ h)
      (λ _ _. Ensures-modify_apu _ (λ p v. port-IsValidApu addr byte p hb v))

mmio_store_case-Ensures :
    (addr byte : ℕ)
    → IsMmio addr
    → IsByte byte
    → Ensures Any (mmio_store_case (apu_reg addr) addr byte)
unfolding mmio_store_case
mmio_store_case-Ensures addr byte ha hb =
    search
      (
        apu_ctrl_store-Ensures, dsp_addr-Ensures, dsp_store-Ensures, io_store-Ensures,
        port_in_range, ensures_rules,
      )
      depth 8

-- `_apu_mmio_store` of a byte to a register address.
pub apu_mmio_store-Ensures :
    (addr byte : ℕ) → IsMmio addr → IsByte byte → Ensures Any (apu_mmio_store addr byte)
unfolding apu_mmio_store
apu_mmio_store-Ensures addr byte ha hb =
    Ensures-bind _ _ (Ensures-modify_apu _ (λ p v. store-IsValidApu (apu_reg addr) byte p hb v))
      (λ _ _. mmio_store_case-Ensures addr byte ha hb)

pub clear_tout-Ensures : (index : ℕ) → Ensures Any (clear_tout index)
unfolding clear_tout
clear_tout-Ensures index =
    Ensures-modify_apu _ (λ p v. store-IsValidApu (tout index) 0 p (omega arith) v)

mmio_load_case-Ensures :
    (addr byte : ℕ)
    → IsMmio addr
    → IsByte byte
    → Ensures IsByte (mmio_load_case (apu_reg addr) addr byte)
unfolding mmio_load_case
mmio_load_case-Ensures addr byte ha hb =
    Ensures-if (apu_reg addr == 3) _ _
      (λ _. search (dsp_addr-Ensures, dsp_load-Ensures, ensures_rules))
      (λ _.
        Ensures-if (leb 4 (apu_reg addr) && leb (apu_reg addr) 7) _ _
          (λ e. io_load-Ensures (addr - 0xf4) (port_in_range addr ha e))
          (λ _. search (clear_tout-Ensures, ensures_rules)))

-- `_apu_mmio_load` from a register address.
pub apu_mmio_load-Ensures : (addr : ℕ) → IsMmio addr → Ensures IsByte (apu_mmio_load addr)
unfolding apu_mmio_load
apu_mmio_load-Ensures addr ha =
    Ensures-bind _ _ (register-Ensures (apu_reg addr))
      (λ byte hb. mmio_load_case-Ensures addr byte ha hb)

pub timer_tick-Ensures : (i : ℕ) → i < 3 → Ensures Any (timer_tick i)
unfolding timer_tick
timer_tick-Ensures i h =
    Ensures-bind _ _ (Ensures-xassert (ltb i 3) (ground arith))
      (λ _ _. Ensures-modify_apu _ (λ p v. tick-IsValidApu i p v))

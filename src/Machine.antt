-- ===== src/Machine.antt =====
-- The state that the source files keep in their static variables, and actions on it.
pub mod Action
pub mod Valid
pub mod Ensures
use spu_kit.Base.{ℕ, Bool}

-- `struct timer` of apu.c
pub record Timer : Type 0 where
  pub cycles : ℕ
  pub target : ℕ
  pub enabled : Bool

-- The static variables of apu.c. `sram` is the register file `union state s` by its bytes.
pub record Apu : Type 0 where
  pub sram : ℕ → ℕ
  pub io_in : ℕ → ℕ
  pub io_out : ℕ → ℕ
  pub timers : ℕ → Timer

-- The register file of dsp.c.
pub record Dsp : Type 0 where
  pub regs : ℕ → ℕ

-- The CPU registers of spc700.c.
pub record Cpu : Type 0 where
  pub pc : ℕ
  pub a : ℕ
  pub x : ℕ
  pub y : ℕ
  pub sp : ℕ
  pub carry : Bool
  pub zero : Bool
  pub psw_i : Bool
  pub half_carry : Bool
  pub psw_b : Bool
  pub psw_p : Bool
  pub overflow : Bool
  pub negative : Bool

pub record Machine : Type 0 where
  pub cpu : Cpu
  pub aram : ℕ → ℕ
  pub extra_ram : ℕ → ℕ
  pub show_rom : Bool
  pub apu : Apu
  pub dsp : Dsp

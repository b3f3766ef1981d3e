-- ===== src/Tests.antt =====
-- A machine for the tests, with a short program at address 0, and what the parts of the program
-- compute from it.
pub mod Alu
pub mod Store
pub mod Timing
pub mod Output
pub mod Playing
pub mod Loading
pub mod Decoding
pub mod Holding
pub mod Dumping
use spu_kit.Machine.Action.{◌>>◌}
use spu_kit.Apu.{apu_state_from_aram, apu_restore}
use spu_kit.Cpu.Safe.Restore.{IsValidRegs}
use spu_kit.Cpu.Run.{spc700_restore, Spc700Regs}
use spu_kit.Machine.Action.{pure}
use spu_kit.Base.{refl, ◌∷◌, false, ℕ, true, table-lt, table, arith, [], List}
use spu_kit.Machine.Valid.{IsValidCpu, IsValid}
use spu_kit.Machine.Ensures.{Good, Ensures-pure, Any}
use spu_kit.Machine.{Machine, Cpu, Dsp, Apu}

-- `mov A,#5; clrc; adc A,#3; push A; pop X; bra -2`
abbrev program : List ℕ
program = 0xe8 ∷ 0x05 ∷ 0x60 ∷ 0x88 ∷ 0x03 ∷ 0x2d ∷ 0xce ∷ 0x2f ∷ 0xfe ∷ []

abbrev pub start : Cpu
start = record {
  pc = 0;
  a = 0x42;
  x = 7;
  y = 3;
  sp = 0;
  carry = true;
  zero = false;
  psw_i = false;
  half_carry = false;
  psw_b = false;
  psw_p = true;
  overflow = false;
  negative = false;
}

abbrev pub idle : Apu
idle = record {
  sram = λ i. 0;
  io_in = λ i. 0xaa;
  io_out = λ i. 0;
  timers = λ i. record { cycles = 0; target = 4; enabled = true };
}

abbrev pub machine : Machine
machine = record {
  cpu = start;
  aram = table program;
  extra_ram = λ i. 0;
  show_rom = false;
  apu = idle;
  dsp = record { regs = λ i. 0 };
}

start-IsValid : IsValidCpu start
start-IsValid = omega arith

pub machine-IsValid : IsValid machine
machine-IsValid = record {
  cpu_valid = start-IsValid;
  aram_fits = λ i. table-lt 256 program i (omega arith) refl;
  extra_fits = λ i. omega arith;
  apu_valid = record {
    sram_fits = λ i. omega arith;
    in_fits = λ i. omega arith;
    out_fits = λ i. omega arith;
    timers_fit = λ i. record {
      cycles_fit = omega arith;
      target_fits = omega arith;
      running = λ _. omega arith;
    };
  };
  dsp_valid = record { regs_fit = λ i. omega arith };
}

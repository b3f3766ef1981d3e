-- ===== src/Cpu/Safe/Restore.antt =====
-- The invariant of the machine through restoring and resetting it.
use spu_kit.Rom.Safe.{overlay-Ensures}
use spu_kit.Memory.Safe.{mem_load_word-Ensures}
use spu_kit.Apu.{apu_state_from_aram, apu_restore, apu_reset}
use spu_kit.Apu.Safe.{apu_ctrl_store-Ensures}
use spu_kit.Machine.Valid.{copy-bytes, IsValidCpu, IsValidApu, IsValid}
use spu_kit.Base.{◌+◌, ℕ, true, false, copy, arith, IsWord, IsByte}
use spu_kit.Machine.Ensures.{
  Ensures-then, Ensures-modify_apu, Ensures-modify, Ensures-bind, Ensures-assign, Ensures, Any,
}
use spu_kit.Machine.{Machine, Apu, Cpu}
use spu_kit.Cpu.Run.{spc700_restore, spc700_reset, set_regs, Spc700Regs}

-- The registers of a saved state are in the ranges of their types.
pub record IsValidRegs (r : Spc700Regs) : Type 0 where
  pub pc_fits : IsWord r.pc
  pub a_fits : IsByte r.a
  pub x_fits : IsByte r.x
  pub y_fits : IsByte r.y
  pub sp_fits : IsByte r.sp

set_regs-IsValidCpu : (r : Spc700Regs) (c : Cpu) → IsValidRegs r → IsValidCpu (set_regs r c)
unfolding set_regs
set_regs-IsValidCpu r c h = omega arith

memory-IsValid :
    (ram extra : ℕ → ℕ) (s : Machine)
    → ((i : ℕ) → IsByte (ram i))
    → ((i : ℕ) → IsByte (extra i))
    → IsValid s
    → IsValid (record s {
      aram = copy s.aram 0 ram 0 0x10000;
      extra_ram = copy s.extra_ram 0 extra 0 0x40;
    })
memory-IsValid ram extra s hr he v = record {
  cpu_valid = v.cpu_valid;
  aram_fits = copy-bytes s.aram 0 ram 0 0x10000 v.aram_fits hr;
  extra_fits = copy-bytes s.extra_ram 0 extra 0 0x40 v.extra_fits he;
  apu_valid = v.apu_valid;
  dsp_valid = v.dsp_valid;
}

pub spc700_restore-Ensures :
    (r : Spc700Regs) (ram extra : ℕ → ℕ)
    → IsValidRegs r
    → ((i : ℕ) → IsByte (ram i))
    → ((i : ℕ) → IsByte (extra i))
    → Ensures Any (spc700_restore r ram extra)
unfolding spc700_restore
spc700_restore-Ensures r ram extra h hr he =
    Ensures-then _ _ (Ensures-assign _ (λ c v. set_regs-IsValidCpu r c h))
      (Ensures-modify _ (λ s v. memory-IsValid ram extra s hr he v))

pub spc700_reset-Ensures : Ensures Any spc700_reset
unfolding spc700_reset
spc700_reset-Ensures = Ensures-bind _ _ (mem_load_word-Ensures 0xfffe) (λ vector h.
    Ensures-assign _ (λ c v. set_regs-IsValidCpu _ c (record {
      pc_fits = h;
      a_fits = omega arith;
      x_fits = omega arith;
      y_fits = omega arith;
      sp_fits = omega arith;
    })))

registers_set :
    (st : ℕ → ℕ) (p : Apu)
    → ((i : ℕ) → IsByte (st i))
    → IsValidApu p
    → IsValidApu (record p { sram = st })
registers_set st p h v = record {
  sram_fits = h;
  in_fits = v.in_fits;
  out_fits = v.out_fits;
  timers_fit = v.timers_fit;
}

ports_set :
    (st : ℕ → ℕ) (p : Apu)
    → ((i : ℕ) → IsByte (st i))
    → IsValidApu p
    → IsValidApu (record p { sram = st; io_in = copy p.io_in 0 st 4 4 })
ports_set st p h v = record {
  sram_fits = h;
  in_fits = copy-bytes p.io_in 0 st 4 4 v.in_fits h;
  out_fits = v.out_fits;
  timers_fit = v.timers_fit;
}

pub apu_restore-Ensures : (st : ℕ → ℕ) → ((i : ℕ) → IsByte (st i)) → Ensures Any (apu_restore st)
unfolding apu_restore
apu_restore-Ensures st h = Ensures-then _ _ (Ensures-modify_apu _ (λ p v. registers_set st p h v)) (
    Ensures-then _ _ (apu_ctrl_store-Ensures (st 1))
      (Ensures-modify_apu _ (λ p v. ports_set st p h v)))

cleared-IsValidApu :
    (p : Apu)
    → IsValidApu p
    → IsValidApu (record p {
      sram = λ i. 0;
      timers = λ i. record { cycles = 0; target = 0; enabled = false };
      io_out = λ i. 0;
    })
cleared-IsValidApu p v = record {
  sram_fits = λ i. omega arith;
  in_fits = v.in_fits;
  out_fits = λ i. omega arith;
  timers_fit =
      λ i. record { cycles_fit = omega arith; target_fits = omega arith; running = λ e. cc };
}

pub apu_reset-Ensures : Ensures Any apu_reset
unfolding apu_reset
apu_reset-Ensures =
    Ensures-then _ _ (Ensures-modify_apu _ (λ p v. cleared-IsValidApu p v)) (overlay-Ensures true)

pub state-bytes :
    (ram : ℕ → ℕ) → ((i : ℕ) → IsByte (ram i)) → (i : ℕ) → IsByte (apu_state_from_aram ram i)
unfolding apu_state_from_aram
state-bytes ram h i = h (0xf0 + i)

-- ===== src/Cpu/Run/Reset.antt =====
-- The machine that apu_reset and spc700_reset leave.
use spu_kit.Base.{ℕ, ◌+◌, ◌-◌, ◌<◌, ◌≡◌, refl, ap, arith, true, false}
use spu_kit.Machine.{Machine, Timer}
use spu_kit.Machine.Action.{done, ◌>>=◌, ◌>>◌}
use spu_kit.Rom.{overlay, overlay_from, ipl_rom, rom_bytes, apu_set_show_ipl_rom}
use spu_kit.Apu.{apu_reset}
use spu_kit.Memory.{mem_load, mem_load_word, apu_mmio_address}
use spu_kit.Cpu.Flags.{psw_compose}
use spu_kit.Cpu.Flags.Psw.{compose-decompose}
use spu_kit.Cpu.Run.{spc700_reset, set_regs}

abbrev stopped : Timer
stopped = record { cycles = 0; target = 0; enabled = false }

-- What a machine holds after a reset from another.
pub record Rebooted (s s' : Machine) : Type 0 where
  pub pc_reset : s'.cpu.pc ≡ 0xffc0
  pub a_reset : s'.cpu.a ≡ 0
  pub x_reset : s'.cpu.x ≡ 0
  pub y_reset : s'.cpu.y ≡ 0
  pub psw_reset : psw_compose s'.cpu ≡ 0x02
  pub sp_reset : s'.cpu.sp ≡ 0xef
  pub rom_reset : (k : ℕ) → k < 64 → s'.aram (0xffc0 + k) ≡ ipl_rom k
  pub ram_kept : (i : ℕ) → i < 0xffc0 → s'.aram i ≡ s.aram i
  pub top_kept : (k : ℕ) → k < 64 → s'.extra_ram k ≡ s.aram (0xffc0 + k)
  pub shown : s'.show_rom ≡ true
  pub registers_reset : (k : ℕ) → s'.apu.sram k ≡ 0
  pub timers_reset : (k : ℕ) → s'.apu.timers k ≡ stopped
  pub out_reset : (k : ℕ) → s'.apu.io_out k ≡ 0
  pub in_kept : s'.apu.io_in ≡ s.apu.io_in
  pub dsp_kept : s'.dsp ≡ s.dsp

abbrev cleared : Machine → Machine
cleared s = record s {
  apu = record s.apu { sram = λ i. 0; timers = λ i. stopped; io_out = λ i. 0 };
}

abbrev rom_shown : Machine → Machine
rom_shown s = overlay_from true false (cleared s)

abbrev final : Machine → Machine
final s = record (rom_shown s) {
  cpu = set_regs (record { pc = 0xffc0; a = 0; x = 0; y = 0; psw = 0x02; sp = 0xef }) s.cpu;
}

reset-final : (s : Machine) → s.show_rom ≡ false → (apu_reset >> spc700_reset) s ≡ done tt (final s)
unfolding apu_reset spc700_reset apu_set_show_ipl_rom overlay overlay_from mem_load mem_load_word
    apu_mmio_address ipl_rom rom_bytes ◌>>=◌
reset-final s h = rw h refl

final-Rebooted : (s : Machine) → Rebooted s (final s)
unfolding overlay_from set_regs
final-Rebooted s = record {
  pc_reset = refl;
  a_reset = refl;
  x_reset = refl;
  y_reset = refl;
  psw_reset =
      compose-decompose 0x02 (record s.cpu { pc = 0xffc0; a = 0; x = 0; y = 0; sp = 0xef })
        (omega arith);
  sp_reset = refl;
  rom_reset =
      λ k l. let e : 0 + (0xffc0 + k - 0xffc0) ≡ k = omega arith in ground (arith, ap ipl_rom e);
  ram_kept = λ i l. ground arith;
  top_kept =
      λ k l. let e : 0xffc0 + (k - 0) ≡ 0xffc0 + k = omega arith in ground (arith, ap s.aram e);
  shown = refl;
  registers_reset = λ k. refl;
  timers_reset = λ k. refl;
  out_reset = λ k. refl;
  in_kept = refl;
  dsp_kept = refl;
}

-- From any machine that hides the boot ROM, apu_reset and then spc700_reset return, and the program
-- counter is at the first byte of the boot ROM, which is shown over the memory that is kept in
-- extra_ram; A, X and Y are 0, of the status word only Z is set, and the stack pointer is 0xef. The
-- registers of the APU and its output ports are 0, and its timers are stopped; its input ports, the
-- rest of the memory and the DSP are as before.
pub reset-Rebooted :
    (s : Machine)
    → s.show_rom ≡ false
    → (s' : Machine) × ((apu_reset >> spc700_reset) s ≡ done tt s') × Rebooted s s'
reset-Rebooted s h = (final s, reset-final s h, final-Rebooted s)

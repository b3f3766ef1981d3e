-- ===== src/Load/Restore.antt =====
-- The machine that setup_spc700 leaves.
use spu_kit.Base.{
  ◌∙◌, ℕ, ◌+◌, ◌*◌, ◌-◌, ◌<◌, ◌≡◌, refl, ap, arith, Bool, true, false, copy, test, IsByte,
}
use spu_kit.Machine.{Machine, Cpu}
use spu_kit.Machine.Action.{done, ◌>>=◌}
use spu_kit.Rom.{overlay, overlay_from, ipl_rom, apu_set_show_ipl_rom}
use spu_kit.Apu.{apu_restore, apu_ctrl_store, apu_state_from_aram, ctrl_regs}
use spu_kit.Cpu.Flags.{psw_compose}
use spu_kit.Cpu.Flags.Psw.{compose-decompose}
use spu_kit.Cpu.Run.{spc700_restore, set_regs}
use spu_kit.Load.{setup_spc700, convert_regs, restore_regs, part}

-- The overlay leaves the registers and all but the top of the memory.
overlay-rest :
    (show shown : Bool) (s : Machine)
    → ((overlay_from show shown s).cpu ≡ s.cpu)
      × ((overlay_from show shown s).dsp ≡ s.dsp)
      × ((overlay_from show shown s).apu ≡ s.apu)
      × ((i : ℕ) → i < 0xffc0 → (overlay_from show shown s).aram i ≡ s.aram i)
unfolding overlay_from
overlay-rest true true s = (refl, refl, refl, λ i h. refl)
overlay-rest true false s = (refl, refl, refl, λ i h. ground arith)
overlay-rest false true s = (refl, refl, refl, λ i h. ground arith)
overlay-rest false false s = (refl, refl, refl, λ i h. refl)

-- What the top of the memory holds, by what is to be shown and what is.
abbrev pub top : Bool → Bool → (ℕ → ℕ) → (ℕ → ℕ) → ℕ → ℕ
top true true ram extra k = ram (0xffc0 + k)
top true false ram extra k = ipl_rom k
top false true ram extra k = extra k
top false false ram extra k = ram (0xffc0 + k)

overlay-top :
    (show shown : Bool) (s : Machine) (k : ℕ)
    → k < 64
    → (overlay_from show shown s).aram (0xffc0 + k) ≡ top show shown s.aram s.extra_ram k
unfolding overlay_from
overlay-top true true s k h = refl
overlay-top true false s k h =
    let e : 0 + (0xffc0 + k - 0xffc0) ≡ k = omega arith in ground (arith, ap ipl_rom e)
overlay-top false true s k h =
    let e : 0 + (0xffc0 + k - 0xffc0) ≡ k = omega arith in ground (arith, ap s.extra_ram e)
overlay-top false false s k h = refl

-- The machine with the saved registers and memory.
abbrev with_saved : (ℕ → ℕ) → Machine → Machine
with_saved spc s = record s {
  cpu = set_regs (convert_regs spc) s.cpu;
  aram = copy s.aram 0 (part spc 0x100) 0 0x10000;
  extra_ram = copy s.extra_ram 0 (part spc 0x101c0) 0 0x40;
}

-- With the APU as it is before its last two assignments.
abbrev controlled : (ℕ → ℕ) → Machine → Machine
controlled spc s = record (with_saved spc s) {
  apu = ctrl_regs (spc 0x1f1) (record s.apu { sram = apu_state_from_aram (part spc 0x100) });
}

-- What a machine holds after a file, by the bytes of the file; `shown` is whether the boot ROM was
-- shown before.
pub record IsRestored (spc : ℕ → ℕ) (shown : Bool) (s : Machine) : Type 0 where
  pub pc_restored : s.cpu.pc ≡ spc 37 + spc 38 * 256
  pub a_restored : s.cpu.a ≡ spc 39
  pub x_restored : s.cpu.x ≡ spc 40
  pub y_restored : s.cpu.y ≡ spc 41
  pub psw_restored : psw_compose s.cpu ≡ spc 42
  pub sp_restored : s.cpu.sp ≡ spc 43
  pub ram_restored : (i : ℕ) → i < 0xffc0 → s.aram i ≡ spc (0x100 + i)
  pub top_restored :
      (k : ℕ)
      → k < 64
      → s.aram (0xffc0 + k)
        ≡ top (test (spc 0x1f1) 0x80) shown (part spc 0x100) (part spc 0x101c0) k
  pub apu_restored : (k : ℕ) → s.apu.sram k ≡ spc (0x1f0 + k)
  pub ports_restored : (k : ℕ) → k < 4 → s.apu.io_in k ≡ spc (0x1f4 + k)
  pub dsp_restored : (k : ℕ) → k < 0x80 → s.dsp.regs k ≡ spc (0x10100 + k)

abbrev final : (ℕ → ℕ) → Machine → Machine
final spc m = record m {
  apu = record m.apu {
    sram = apu_state_from_aram (part spc 0x100);
    io_in = copy m.apu.io_in 0 (apu_state_from_aram (part spc 0x100)) 4 4;
  };
  dsp = record m.dsp { regs = copy m.dsp.regs 0 (part spc 0x10100) 0 0x80 };
}

copied : (dst src : ℕ → ℕ) (from n k : ℕ) → k < n → copy dst 0 src from n k ≡ src (from + k)
copied dst src from n k h =
    let e : from + (k - 0) ≡ from + k = omega arith in ground (arith, ap src e)

top-copied :
    (show shown : Bool) (r r' e e' : ℕ → ℕ) (k : ℕ)
    → r (0xffc0 + k) ≡ r' (0xffc0 + k)
    → e k ≡ e' k
    → top show shown r e k ≡ top show shown r' e' k
top-copied true true r r' e e' k p q = p
top-copied true false r r' e e' k p q = refl
top-copied false true r r' e e' k p q = q
top-copied false false r r' e e' k p q = p

final-IsRestored :
    (spc : ℕ → ℕ) (s : Machine)
    → IsByte (spc 42)
    → IsRestored spc s.show_rom
        (final spc (overlay_from (test (spc 0x1f1) 0x80) s.show_rom (controlled spc s)))
unfolding convert_regs set_regs apu_state_from_aram
final-IsRestored spc s h =
    let show = test (spc 0x1f1) 0x80 in
    let c = controlled spc s in
    let m = overlay_from show s.show_rom c in
    let unpacked = record s.cpu {
      pc = spc 37 + spc 38 * 256;
      a = spc 39;
      x = spc 40;
      y = spc 41;
      sp = spc 43;
    } in
    let kept : (i n : ℕ)
        → i < 0x10000
        → n ≡ 0x100 + i
        → copy s.aram 0 (part spc 0x100) 0 0x10000 i ≡ spc n =
      λ i n l e. copied s.aram (part spc 0x100) 0 0x10000 i l ∙ ap spc (omega arith) in
    let (cpu, dsp, apu, rest) = overlay-rest show s.show_rom c in
    record {
      pc_restored = ap (λ (t : Cpu). t.pc) cpu;
      a_restored = ap (λ (t : Cpu). t.a) cpu;
      x_restored = ap (λ (t : Cpu). t.x) cpu;
      y_restored = ap (λ (t : Cpu). t.y) cpu;
      psw_restored = ap psw_compose cpu ∙ compose-decompose (spc 42) unpacked h;
      sp_restored = ap (λ (t : Cpu). t.sp) cpu;
      ram_restored = λ i l. rest i l ∙ kept i (0x100 + i) (omega arith) refl;
      top_restored = λ k l.
          overlay-top show s.show_rom c k l
          ∙ top-copied show s.show_rom c.aram (part spc 0x100) c.extra_ram (part spc 0x101c0) k
              (kept (0xffc0 + k) (0x100 + (0xffc0 + k)) (omega arith) refl)
              (copied s.extra_ram (part spc 0x101c0) 0 0x40 k l ∙ ap spc (omega arith));
      apu_restored = λ k. ap spc (omega arith);
      ports_restored = λ k l.
          copied m.apu.io_in (apu_state_from_aram (part spc 0x100)) 4 4 k l ∙ ap spc (omega arith);
      dsp_restored = λ k l. copied m.dsp.regs (part spc 0x10100) 0 0x80 k l ∙ ap spc (omega arith);
    }

-- From any machine, setup_spc700 returns, and the machine holds what is in the file: the registers
-- of the processor with its status word, the memory below 0xffc0, the registers and the input ports
-- of the APU and the registers of the DSP. The top 64 bytes depend on the machine too: if the boot
-- ROM is to be shown as before, they are those of the memory in the file; if it is to be shown and
-- was not, the ROM; if it is not to be shown and was, not those of the memory in the file but its
-- extra RAM.
pub setup-IsRestored :
    (spc : ℕ → ℕ) (s : Machine)
    → IsByte (spc 42)
    → (s' : Machine) × (setup_spc700 spc s ≡ done tt s') × IsRestored spc s.show_rom s'
unfolding setup_spc700 spc700_restore apu_restore apu_ctrl_store apu_set_show_ipl_rom restore_regs
    overlay apu_state_from_aram ◌>>=◌
setup-IsRestored spc s h = (
  final spc (overlay_from (test (spc 0x1f1) 0x80) s.show_rom (controlled spc s)),
  refl,
  final-IsRestored spc s h,
)

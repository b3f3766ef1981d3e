-- ===== src/Rom/Safe.antt =====
-- The invariant of the machine through laying the boot ROM over the memory and taking it away.
use spu_kit.Base.{ℕ, Bool, true, false, arith, refl, IsByte, table-lt}
use spu_kit.Machine.{Machine}
use spu_kit.Machine.Valid.{IsValid, copy-bytes}
use spu_kit.Machine.Ensures.{Ensures, Any, Ensures-modify}
use spu_kit.Rom.{
  ipl_rom_base, ipl_rom_size, rom_bytes, ipl_rom, overlay_from, overlay, apu_set_show_ipl_rom,
}

ipl_rom-IsByte : (i : ℕ) → IsByte (ipl_rom i)
unfolding ipl_rom
ipl_rom-IsByte i = table-lt 256 rom_bytes i (omega arith) refl

overlay_from-IsValid :
    (show shown : Bool) (s : Machine) → IsValid s → IsValid (overlay_from show shown s)
unfolding overlay_from
overlay_from-IsValid true false s v = record {
  cpu_valid = v.cpu_valid;
  aram_fits = copy-bytes s.aram ipl_rom_base ipl_rom 0 ipl_rom_size v.aram_fits ipl_rom-IsByte;
  extra_fits = copy-bytes s.extra_ram 0 s.aram ipl_rom_base ipl_rom_size v.extra_fits v.aram_fits;
  apu_valid = v.apu_valid;
  dsp_valid = v.dsp_valid;
}
overlay_from-IsValid false true s v = record {
  cpu_valid = v.cpu_valid;
  aram_fits = copy-bytes s.aram ipl_rom_base s.extra_ram 0 ipl_rom_size v.aram_fits v.extra_fits;
  extra_fits = v.extra_fits;
  apu_valid = v.apu_valid;
  dsp_valid = v.dsp_valid;
}
overlay_from-IsValid true true s v = v
overlay_from-IsValid false false s v = v

pub overlay-Ensures : (show : Bool) → Ensures Any (apu_set_show_ipl_rom show)
unfolding apu_set_show_ipl_rom overlay
overlay-Ensures show = Ensures-modify _ (λ s v. overlay_from-IsValid show s.show_rom s v)

-- ===== src/Rom/Overlay.antt =====
-- Showing and hiding the boot ROM of spc700.c.
use spu_kit.Rom.{overlay_from, overlay, ipl_rom_size, ipl_rom_base, ipl_rom}
use spu_kit.Base.{
  arith, ◌-◌, ◌&&◌, ◌≡◌, if◌then◌else◌, ℕ, true, refl, ltb, leb, fun_ext, false, copy, Bool,
}
use spu_kit.Machine.{Machine}

-- What the memory holds where the ROM is shown.
abbrev pub shadowed : (ℕ → ℕ) → ℕ → ℕ
shadowed aram i = if leb 0xffc0 i && ltb i 0x10000 then ipl_rom (i - 0xffc0) else aram i

shown_lem :
    (s : Machine) (i : ℕ) → copy s.aram ipl_rom_base ipl_rom 0 ipl_rom_size i ≡ shadowed s.aram i
shown_lem s i = ground arith

copied_back :
    (f e r : ℕ → ℕ) (i : ℕ)
    → copy
        (copy f ipl_rom_base r 0 ipl_rom_size)
        ipl_rom_base
        (copy e 0 f ipl_rom_base ipl_rom_size)
        0
        ipl_rom_size
        i
      ≡ f i
copied_back f e r i = ground arith

again :
    (show shown : Bool) (s : Machine)
    → s.show_rom ≡ shown
    → overlay show (overlay_from show shown s) ≡ overlay_from show shown s
unfolding overlay overlay_from
again true true s h = rw h refl
again true false s h = refl
again false true s h = refl
again false false s h = rw h refl

-- Where the ROM was hidden, showing it puts `ipl_rom` at 0xffc0 to 0xffff and leaves the rest of the
-- memory; hiding it again gives back the whole memory.
pub overlay-shadowed :
    (s : Machine)
    → s.show_rom ≡ false
    → ((overlay true s).aram ≡ shadowed s.aram)
      × ((overlay false (overlay true s)).aram ≡ s.aram)
      × ((overlay false (overlay true s)).show_rom ≡ false)
unfolding overlay overlay_from
overlay-shadowed s h =
    rw h
      (fun_ext (λ i. shown_lem s i), fun_ext (λ i. copied_back s.aram s.extra_ram ipl_rom i), refl)

-- Asking twice for the same is asking once.
pub overlay-overlay : (show : Bool) (s : Machine) → overlay show (overlay show s) ≡ overlay show s
unfolding overlay
overlay-overlay show s = again show s.show_rom s refl

-- ===== src/Rom.antt =====
-- The boot ROM of spc700.c: `ipl_rom`, and `_apu_set_show_ipl_rom`, which lays the ROM over the top
-- 64 bytes of `aram` (the build without ACCURATE_IPL_ROM).
pub mod Safe
pub mod Overlay
use spu_kit.Base.{ℕ, Bool, List, [], ◌∷◌, table, copy, true, false}
use spu_kit.Machine.{Machine}
use spu_kit.Machine.Action.{M, modify}

abbrev pub ipl_rom_base : ℕ
ipl_rom_base = 0xffc0

abbrev pub ipl_rom_size : ℕ
ipl_rom_size = 0x40

unfoldable pub rom_bytes : List ℕ
rom_bytes =
    0xcd ∷ 0xef ∷ 0xbd ∷ 0xe8 ∷ 0x00 ∷ 0xc6 ∷ 0x1d ∷ 0xd0 ∷ 0xfc ∷ 0x8f ∷ 0xaa ∷ 0xf4 ∷ 0x8f ∷ 0xbb
    ∷ 0xf5 ∷ 0x78 ∷ 0xcc ∷ 0xf4 ∷ 0xd0 ∷ 0xfb ∷ 0x2f ∷ 0x19 ∷ 0xeb ∷ 0xf4 ∷ 0xd0 ∷ 0xfc ∷ 0x7e
    ∷ 0xf4 ∷ 0xd0 ∷ 0x0b ∷ 0xe4 ∷ 0xf5 ∷ 0xcb ∷ 0xf4 ∷ 0xd7 ∷ 0x00 ∷ 0xfc ∷ 0xd0 ∷ 0xf3 ∷ 0xab
    ∷ 0x01 ∷ 0x10 ∷ 0xef ∷ 0x7e ∷ 0xf4 ∷ 0x10 ∷ 0xeb ∷ 0xba ∷ 0xf6 ∷ 0xda ∷ 0x00 ∷ 0xba ∷ 0xf4
    ∷ 0xc4 ∷ 0xf4 ∷ 0xdd ∷ 0x5d ∷ 0xd0 ∷ 0xdb ∷ 0x1f ∷ 0x00 ∷ 0x00 ∷ 0xc0 ∷ 0xff ∷ []

unfoldable pub ipl_rom : ℕ → ℕ
unfolding rom_bytes
ipl_rom = table rom_bytes

-- `_apu_set_show_ipl_rom(show)` where `show_rom` is `shown`.
unfoldable pub overlay_from : Bool → Bool → Machine → Machine
overlay_from true false s = record s {
  show_rom = true;
  extra_ram = copy s.extra_ram 0 s.aram ipl_rom_base ipl_rom_size;
  aram = copy s.aram ipl_rom_base ipl_rom 0 ipl_rom_size;
}
overlay_from false true s = record s {
  show_rom = false;
  aram = copy s.aram ipl_rom_base s.extra_ram 0 ipl_rom_size;
}
overlay_from _ _ s = s

unfoldable pub overlay : Bool → Machine → Machine
unfolding overlay_from
overlay show s = overlay_from show s.show_rom s

unfoldable pub apu_set_show_ipl_rom : Bool → M (Unit {0})
apu_set_show_ipl_rom show = modify (overlay show)

-- ===== src/Cpu/Words.antt =====
-- `incw` of spc700.c.
use spu_kit.Machine.Action.{done, ◌>>=◌}
use spu_kit.Machine.Action.{◌>>=◌}
use spu_kit.Cpu.Flags.{set_zn16}
use spu_kit.Memory.RoundTrip.{mem_store_lem, mem_load_lem}
use spu_kit.Cpu.Insn.Word.{step_word, insn_incw_dp}
use spu_kit.Cpu.Address.{set_pc, fetch_insn, direct_page_effective, direct_page}
use spu_kit.Memory.{mem_load_word, apu_mmio_address}
use spu_kit.Base.{◌≡◌, ◌<<<◌, ◌+◌, update, u8, u16, false, bit_or, arith, IsWord}
use spu_kit.Machine.{Machine}

-- From an operand in the direct page whose two bytes are not APU registers, `incw` sets Z and N by
-- the word plus one, modulo 2 ^ 16, but puts only the low byte of this sum in memory: the high byte
-- there is as before.
pub incw_lem :
    (s : Machine)
    → let addr = direct_page_effective (s.aram s.cpu.pc) s.cpu in
      let word = bit_or (s.aram (u16 (addr + 1)) <<< 8) (s.aram addr) in
      IsWord addr
      → apu_mmio_address addr ≡ false
      → apu_mmio_address (u16 (addr + 1)) ≡ false
      → insn_incw_dp s
        ≡ done tt (record s {
          cpu = set_zn16 (u16 (word + 1)) (record s.cpu { pc = u16 (s.cpu.pc + 1) });
          aram = update s.aram addr (u8 (u16 (word + 1)));
        })
unfolding insn_incw_dp step_word direct_page direct_page_effective fetch_insn set_pc mem_load_word
    ◌>>=◌
incw_lem s h k l =
    let addr = direct_page_effective (s.aram s.cpu.pc) s.cpu in
    let base : u16 (addr + 0) ≡ addr = omega arith in
    let t = record s { cpu = record s.cpu { pc = u16 (s.cpu.pc + 1) } } in
    rw base (
      rw (mem_load_lem addr t k)
        (rw (mem_load_lem (u16 (addr + 1)) t l) (mem_store_lem addr _ _ k)))

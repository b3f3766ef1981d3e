-- ===== src/Cpu/Stack/Table.antt =====
-- tcall of spc700.c.
use spu_kit.Base.{
  ◌<<<◌, ◌>>>◌, ◌≡◌, ◌+◌, ◌-◌, ◌≤◌, ◌*◌, ◌<◌, ◌∙◌, ℕ, bit_and, u8, u16, refl, false, arith, IsByte,
}
use spu_kit.Base.Bits.{and_mask, or_field}
use spu_kit.Machine.{Machine}
use spu_kit.Machine.Action.{done, ◌>>=◌}
use spu_kit.Memory.{mem_load, mem_load_word, apu_mmio_address}
use spu_kit.Memory.RoundTrip.{apu_mmio_address_lem}
use spu_kit.Cpu.Address.{set_pc}
use spu_kit.Cpu.Stack.{tcall, call, push_word}
use spu_kit.Cpu.Stack.RoundTrip.{pushed, stacked, push_byte_lem}

-- A call: the program counter is pushed, and is then the address.
pub call_lem :
    (addr : ℕ) (s : Machine)
    → IsByte s.cpu.sp
    → call addr s
      ≡ done tt (record s {
        cpu = record s.cpu { pc = addr; sp = u8 (s.cpu.sp + 254) };
        aram = stacked s.cpu.pc s;
      })
unfolding ◌>>=◌ call push_word set_pc
call_lem addr s h =
    let t = pushed (s.cpu.pc >>> 8) s in
    let back : u8 (u8 (s.cpu.sp + 255) + 255) ≡ u8 (s.cpu.sp + 254) = omega arith in
    rw (push_byte_lem (s.cpu.pc >>> 8) s h)
      (rw (push_byte_lem (bit_and s.cpu.pc 0xff) t (omega arith), back) refl)

pub vector_lem :
    (addr : ℕ) (s : Machine)
    → 0x100 ≤ addr
    → addr < 0xffff
    → IsByte (s.aram addr)
    → mem_load_word addr s ≡ done (s.aram (addr + 1) * 256 + s.aram addr) s
unfolding ◌>>=◌ mem_load_word mem_load
vector_lem addr s l h lo =
    let a : u16 (addr + 0) ≡ addr = omega arith in
    let b : u16 (addr + 1) ≡ addr + 1 = omega arith in
    let c : apu_mmio_address addr ≡ false =
      apu_mmio_address_lem addr (omega arith) ∙ ground arith in
    let d : apu_mmio_address (addr + 1) ≡ false =
      apu_mmio_address_lem (addr + 1) (omega arith) ∙ ground arith in
    rw (a, b, c, d) (rw (or_field 8 (s.aram (addr + 1)) (s.aram addr) lo) refl)

-- The machine after a call through a slot, whose address stands two bytes below that of the slot
-- before it, the first at 0xffde.
abbrev pub called : ℕ → Machine → Machine
called slot s =
    let at = 0xffde - 2 * slot in
    record s {
      cpu = record s.cpu { pc = s.aram (at + 1) * 256 + s.aram at; sp = u8 (s.cpu.sp + 254) };
      aram = stacked s.cpu.pc s;
    }

pub tcall_lem :
    (slot : ℕ) (s : Machine)
    → slot < 16
    → IsByte s.cpu.sp
    → IsByte (s.aram (0xffde - 2 * slot))
    → tcall slot s ≡ done tt (called slot s)
unfolding ◌>>=◌ tcall
tcall_lem slot s h sp lo =
    let low : bit_and slot 0xf ≡ slot = and_mask 4 slot ∙ omega arith in
    let at : 0xffc0 + (0xf - slot) <<< 1 ≡ 0xffde - 2 * slot = omega arith in
    rw (low, at)
      (rw (vector_lem (0xffde - 2 * slot) s (omega arith) (omega arith) lo) (call_lem _ s sp))

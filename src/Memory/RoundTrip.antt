-- ===== src/Memory/RoundTrip.antt =====
-- Stores and loads of spc700.c in turn, away from the APU registers.
use spu_kit.Machine.Action.{done, ◌>>=◌}
use spu_kit.Machine.Action.{◌>>=◌}
use spu_kit.Memory.{poke, mem_store_word, mem_store, mem_load_word, mem_load, apu_mmio_address}
use spu_kit.Base.Bits.{or_field, and_mask}
use spu_kit.Memory.Safe.{and_fff0}
use spu_kit.Base.{
  ==_refl, ◌∙◌, ◌<<<◌, if◌then◌else◌, ◌>>>◌, ◌&&◌, ◌≡◌, ◌==◌, ◌+◌, ℕ, update, u16, refl, leb, false,
  bit_or, bit_and, arith, IsWord,
}
use spu_kit.Machine.{Machine}

-- The addresses of the APU registers are 0xf0 to 0xff.
pub apu_mmio_address_lem :
    (addr : ℕ) → IsWord addr → apu_mmio_address addr ≡ (leb 0xf0 addr && leb addr 0xff)
unfolding apu_mmio_address
apu_mmio_address_lem addr h = ground (arith, and_fff0 addr h)

pub mem_store_lem :
    (addr byte : ℕ) (s : Machine)
    → apu_mmio_address addr ≡ false
    → mem_store addr byte s ≡ done tt (record s { aram = update s.aram addr byte })
unfolding mem_store poke ◌>>=◌
mem_store_lem addr byte s h = rw h refl

pub mem_load_lem :
    (addr : ℕ) (s : Machine)
    → apu_mmio_address addr ≡ false
    → mem_load addr s ≡ done (s.aram addr) s
unfolding mem_load ◌>>=◌
mem_load_lem addr s h = rw h refl

-- A load from an address that is not of an APU register, after a store to another such address,
-- gives the byte from before the store; after a store there, the byte stored.
pub store-load :
    (addr other byte : ℕ) (s : Machine)
    → apu_mmio_address addr ≡ false
    → apu_mmio_address other ≡ false
    → (mem_store addr byte >>= λ _. mem_load other) s
      ≡ done
          (if addr == other then byte else s.aram other)
          (record s { aram = update s.aram addr byte })
unfolding ◌>>=◌
store-load addr other byte s h k = rw (mem_store_lem addr byte s h) (mem_load_lem other _ k)

next_differs : (addr : ℕ) → IsWord addr → (u16 (addr + 1) == addr) ≡ false
next_differs addr h = ground arith

-- A word stored is loaded again, at every address whose two bytes are not APU registers; the high
-- byte of the word at 0xffff stands at 0.
store-load_word :
    (addr word : ℕ) (s : Machine)
    → IsWord addr
    → apu_mmio_address addr ≡ false
    → apu_mmio_address (u16 (addr + 1)) ≡ false
    → (mem_store_word addr word >>= λ _. mem_load_word addr) s
      ≡ done word (record s {
        aram = update (update s.aram addr (bit_and word 0xff)) (u16 (addr + 1)) (word >>> 8);
      })
unfolding mem_store_word mem_load_word ◌>>=◌
store-load_word addr word s h k l =
    let base : u16 (addr + 0) ≡ addr = omega arith in
    let next = u16 (addr + 1) in
    let low = and_mask 8 word in
    let joined : bit_or (word >>> 8 <<< 8) (bit_and word 0xff) ≡ word =
      or_field 8 (word >>> 8) (bit_and word 0xff) (omega arith) ∙ omega arith in
    rw base (
      rw (mem_store_lem addr (bit_and word 0xff) s k) (
        rw
          (mem_store_lem next (word >>> 8)
            (record s { aram = update s.aram addr (bit_and word 0xff) }) l)
          (rw
            (mem_load_lem addr
              (record s {
                aram = update (update s.aram addr (bit_and word 0xff)) next (word >>> 8);
              })
              k)
            (rw
              (mem_load_lem next
                (record s {
                  aram = update (update s.aram addr (bit_and word 0xff)) next (word >>> 8);
                })
                l)
              (rw (next_differs addr h, ==_refl addr, ==_refl next, joined) refl)))))

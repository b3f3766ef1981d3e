-- ===== src/Memory.antt =====
-- The memory of spc700.c: loads and stores that go to the APU registers or to `aram`, and words.
pub mod Safe
pub mod RoundTrip
use spu_kit.Base.{ℕ, ◌+◌, bit_and, bit_or, Bool, ◌==◌, if◌then◌else◌, u16, ◌<<<◌, ◌>>>◌, update}
use spu_kit.Machine.Action.{M, pure, gets, modify, ◌>>=◌, ◌>>◌}
use spu_kit.Apu.{apu_mmio_store, apu_mmio_load}

unfoldable pub apu_mmio_address : ℕ → Bool
apu_mmio_address addr = bit_and addr 0xfff0 == 0x00f0

-- `aram[addr] = byte`
unfoldable pub poke : ℕ → ℕ → M (Unit {0})
poke addr byte = modify (λ s. record s { aram = update s.aram addr byte })

unfoldable pub mem_store : ℕ → ℕ → M (Unit {0})
mem_store addr byte = do
  if apu_mmio_address addr then apu_mmio_store addr byte else pure tt
  poke addr byte

unfoldable pub mem_load : ℕ → M ℕ
mem_load addr = if apu_mmio_address addr then apu_mmio_load addr else gets (λ s. s.aram addr)

unfoldable pub mem_load_word : ℕ → M ℕ
mem_load_word addr = do
  lo ← mem_load (u16 (addr + 0))
  hi ← mem_load (u16 (addr + 1))
  pure (bit_or (hi <<< 8) lo)

unfoldable pub mem_store_word : ℕ → ℕ → M (Unit {0})
mem_store_word addr word = do
  mem_store (u16 (addr + 0)) (bit_and word 0xff)
  mem_store (u16 (addr + 1)) (word >>> 8)

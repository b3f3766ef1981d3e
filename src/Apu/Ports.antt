-- ===== src/Apu/Ports.antt =====
-- The four ports between the SPC700 and the host, at 0xf4 to 0xf7.
use spu_kit.Base.{refl, each-lt, ◌≡◌, ◌+◌, ◌<◌, ℕ, update}
use spu_kit.Memory.{apu_mmio_address, poke, mem_store, mem_load}
use spu_kit.Apu.{
  tout, clear_tout, apu_off, apu_reg, io_store, io_load, apu_mmio_store, apu_mmio_load,
}
use spu_kit.Machine.Action.{done, ◌>>=◌}
use spu_kit.Machine.{Machine}

-- The machine after `byte` is stored at a port.
abbrev sent : ℕ → ℕ → Machine → Machine
sent port byte s = record s {
  aram = update s.aram (0xf4 + port) byte;
  apu = record s.apu {
    sram = update s.apu.sram (4 + port) byte;
    io_out = update s.apu.io_out port byte;
  };
}

-- A store to a port is seen by the host alone: what the program then loads from the port is the
-- byte that the host put there, and the store stands in the register file, in the port to the
-- host and in `aram`.
port_store-load :
    (port byte : ℕ) (s : Machine)
    → port < 4
    → (mem_store (0xf4 + port) byte >>= λ _. mem_load (0xf4 + port)) s
      ≡ done (s.apu.io_in port) (sent port byte s)
unfolding ◌>>=◌ mem_store mem_load poke apu_mmio_store apu_mmio_load io_store io_load
    apu_mmio_address apu_reg
port_store-load port byte s h =
    each-lt
      (λ k.
        (mem_store (0xf4 + k) byte >>= λ _. mem_load (0xf4 + k)) s
        ≡ done (s.apu.io_in k) (sent k byte s))
      4 (refl, (refl, (refl, (refl, tt)))) port h

-- A load from the output register of any of the three timers gives its count and clears the output
-- register of timer 0, whichever timer it was.
pub tout_load :
    (index : ℕ) (s : Machine)
    → index < 3
    → mem_load (0xfd + index) s
      ≡ done
          (s.apu.sram (tout index))
          (record s { apu = record s.apu { sram = update s.apu.sram (tout 0) 0 } })
unfolding ◌>>=◌ mem_load apu_mmio_load apu_mmio_address apu_reg apu_off clear_tout
tout_load index s h =
    each-lt
      (λ k.
        mem_load (0xfd + k) s
        ≡ done (s.apu.sram (tout k))
            (record s { apu = record s.apu { sram = update s.apu.sram (tout 0) 0 } }))
      3 (refl, (refl, (refl, tt))) index h

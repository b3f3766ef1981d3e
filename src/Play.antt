-- ===== src/Play.antt =====
-- The loop of `spc700_run_forever` of spc700.c with `_apu_update_clocks` of apu.c, which runs the DSP
-- and so writes the WAV file.
pub mod Action
pub mod Ensures
pub mod Safe
pub mod Clocks
use Prim.Native.Nat.{zero, suc}
use spu_kit.Base.{ℕ, ◌+◌, bit_and, none, some, ◌==◌, if◌then◌else◌, u32, ltb}
use spu_kit.Io.{Os, Result, done, spins, asserted, overrun}
use spu_kit.Machine.{Machine}
use spu_kit.Machine.Action.{xassert}
use spu_kit.Apu.{timer_tick}
use spu_kit.Cpu.Address.{fetch_insn}
use spu_kit.Cpu.Table.{Entry, opcode_tbl, entry}
use spu_kit.Sound.{Sound}
use spu_kit.Render.{Render, Next, going, exited, gives_up, dsp_run32}
use spu_kit.Render.{crashed as goes_wrong}
use spu_kit.Play.Action.{
  Device, Played, played, exits, aborted, failed, crashed, spinning, P, pure, on, ◌>>=◌, ◌>>◌,
}

-- The sound generation over the registers and the memory of the machine.
unfoldable pub with_machine : Machine → Render → Render
with_machine s r = record r { sound = record r.sound { regs = s.dsp.regs; aram = s.aram } }

-- The machine with the registers and the memory of the sound generation.
unfoldable pub with_sound : Sound → Machine → Machine
with_sound sound s = record s { aram = sound.aram; dsp = record s.dsp { regs = sound.regs } }

-- How one round of the loop ends: `halt` at a NULL entry, else with the new `cycle`.
pub data Round : Type 0 where
  halt : Round
  next : ℕ → Round

module _ {W : Type 0} where
  -- What follows `_dsp_run32` for the program.
  unfoldable pub dsp_result : Device → Result W Next → Played W (Unit {0})
  unfolding with_sound
  dsp_result d (done (going r) w) =
      played tt (record { machine = with_sound r.sound d.machine; render = r }) w
  dsp_result d (done exited w) = exits w
  dsp_result d (done gives_up w) = aborted
  dsp_result d (done goes_wrong w) = crashed d
  dsp_result d spins = spinning
  dsp_result d asserted = failed
  dsp_result d overrun = failed

-- `fuel` is for the writes.
module _ {W : Type 0} (os : Os W) (fuel : ℕ) where
  unfoldable pub run_dsp : P W (Unit {0})
  unfolding dsp_result with_machine dsp_run32
  run_dsp d w = dsp_result d (dsp_run32 os fuel (with_machine d.machine d.render) w)

  unfoldable pub apu_update_clocks : ℕ → P W (Unit {0})
  unfolding run_dsp
  apu_update_clocks cycle = do
    on (xassert (bit_and cycle 0x0f == 0))
    on (timer_tick 2)
    if bit_and cycle 0x1f == 0 then run_dsp else pure tt
    if bit_and cycle 0x7f == 0 then (do on (timer_tick 0); on (timer_tick 1)) else pure tt

  -- `(*cb)()` and what follows it in the loop
  unfoldable pub execute : Entry → ℕ → P W Round
  unfolding apu_update_clocks
  execute none cycle = pure halt
  execute (some cb) cycle = do
    on cb
    let cycle' = u32 (cycle + 4)
    if bit_and cycle' 0xf == 0 then apu_update_clocks cycle' else pure tt
    pure (next cycle')

  -- One round of the loop of `spc700_run_forever`.
  unfoldable pub round : ℕ → P W Round
  unfolding execute
  round cycle = do opcode ← on fetch_insn; execute (entry opcode_tbl opcode) cycle

  -- `rounds` rounds of the loop, or fewer if it halts.
  unfoldable pub run : ℕ → ℕ → P W Round
  unfolding round
  run zero cycle = pure (next cycle)
  run (suc rounds) cycle = do
    r ← round cycle
    elim r [ halt ↦ pure halt | next cycle' ↦ run rounds cycle' ]

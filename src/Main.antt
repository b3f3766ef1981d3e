-- ===== src/Main.antt =====
-- `handle_file` and `main` of main.c.
pub mod Files
pub mod First
use spu_kit.Base.{ℕ, Bool, true, false, List, [], ◌∷◌, table, if◌then◌else◌}
use spu_kit.Base.Lists.{take, drop}
use spu_kit.Io.{Result, done, Os, after}
use spu_kit.Sound.Mix.{dsp_restore}
use spu_kit.Load.{Reader, load, setup_spc700, dump_ram, part}
use spu_kit.Play.{Round, halt, next, run}
use spu_kit.Play.Action.{
  Device, Played, played, exits, aborted, failed, crashed, spinning, P, on, ◌>>=◌, ◌>>◌,
}

-- How the emulation ends the program: by `exit(0)` with the last sample, by `abort()` or a failed
-- `xassert`, within next_sample or with the pointer of wav_create; or it does not, since it is playing
-- after its rounds or the fuel of the writes is used up.
pub data Stop : Type 0 where
  exits_recorded stops_aborted stops_asserted stops_crashed still_playing still_writing : Stop

-- How a call of handle_file ends: it returns whether the file was loaded, or the program has stopped.
pub data Handled : Type 0 where
  returned : Bool → Device → Handled
  stopped : Stop → Handled

-- How the program ends: main returns, or it has stopped.
pub data Exit : Type 0 where
  exit_success exit_failure : Exit
  stops : Stop → Exit

-- "aram.bin"
abbrev pub dump_name : List ℕ
dump_name = 0x61 ∷ 0x72 ∷ 0x61 ∷ 0x6d ∷ 0x2e ∷ 0x62 ∷ 0x69 ∷ 0x6e ∷ []

-- `spc.ram`
abbrev pub ram_bytes : List ℕ → List ℕ
ram_bytes spc = take 0x10000 (drop 0x100 spc)

-- `return ret` of main
unfoldable pub exit_status : Bool → Exit
exit_status true = exit_success
exit_status false = exit_failure

module _ {W : Type 0} where
  -- What follows `spc700_run_forever`, which returns at a halt.
  unfoldable pub emulated : W → Played W Round → Result W Handled
  emulated w0 (played halt d w) = done (returned true d) w
  emulated w0 (played (next cycle) d w) = done (stopped still_playing) w
  emulated w0 (exits w) = done (stopped exits_recorded) w
  emulated w0 aborted = done (stopped stops_aborted) w0
  emulated w0 failed = done (stopped stops_asserted) w0
  emulated w0 (crashed d) = done (stopped stops_crashed) w0
  emulated w0 spinning = done (stopped still_writing) w0

  -- What dsp_restore sets beside the registers.
  unfoldable pub restore_sound : List ℕ → P W (Unit {0})
  unfolding dsp_restore
  restore_sound spc d w =
      played tt
        (record d {
          render = record d.render {
            sound = dsp_restore (part (table spc) 0x10100) d.render.sound;
          };
        })
        w

-- `rounds` is the most rounds of the endless loop that are run.
module _ {W : Type 0} (reader : Reader W) (os : Os W) (fuel rounds : ℕ) where
  -- setup_spc700 behind dump_ram, and the emulation.
  unfoldable pub emulate : List ℕ → P W Round
  unfolding restore_sound
  emulate spc = on (setup_spc700 (table spc)) >> (restore_sound spc >> run os fuel rounds 0)

  -- What follows `load`; dump_ram is the first call of setup_spc700.
  unfoldable pub loaded : Device → Bool × List ℕ → W → Result W Handled
  unfolding emulated emulate
  loaded d (false, spc) w = done (returned false d) w
  loaded d (true, spc) w =
      after (dump_ram os fuel (ram_bytes spc) dump_name w) (λ _ w'. emulated w' (emulate spc d w'))

  unfoldable pub handle_file : List ℕ → Device → W → Result W Handled
  unfolding loaded load
  handle_file name d w = after (load reader fuel name w) (loaded d)

  -- What follows handle_file; `again` is the loop with `ret`.
  unfoldable pub handled : (Bool → Device → W → Result W Exit) → Bool → Handled → W → Result W Exit
  handled again ret (returned loads d) w = again (if loads then ret else false) d w
  handled again ret (stopped e) w = done (stops e) w

  -- The loop over `argv`; `ret` says whether it is EXIT_SUCCESS.
  unfoldable pub main_loop : List (List ℕ) → Bool → Device → W → Result W Exit
  unfolding handled exit_status handle_file
  main_loop [] ret d w = done (exit_status ret) w
  main_loop (name ∷ names) ret d w = after (handle_file name d w) (handled (main_loop names) ret)

  -- `argv` behind the name of the program, and the static variables as they are at the start.
  unfoldable pub main : List (List ℕ) → Device → W → Result W Exit
  unfolding main_loop
  main names d w = main_loop names true d w

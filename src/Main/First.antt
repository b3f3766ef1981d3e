-- ===== src/Main/First.antt =====
-- The first file that main plays.
use spu_kit.Base.{ℕ, ◌+◌, ◌<◌, ◌≡◌, refl, arith, Bool, true, false, none, List, [], table, IsByte}
use spu_kit.Base.Int.{ℤ}
use spu_kit.Base.Lists.{length-take, drop}
use spu_kit.Io.{Result, Os, done, spins, asserted, overrun, after}
use spu_kit.Io.Laws.{Documented}
use spu_kit.Fd.Whole.{TakesAll}
use spu_kit.Wav.Header.{WaveHdr, hdr_bytes}
use spu_kit.Machine.Valid.{IsValid}
use spu_kit.Machine.Ensures.{Any}
use spu_kit.Load.{Reader, load, dump_ram, spc_size}
use spu_kit.Load.Fill.{Reading}
use spu_kit.Load.Start.{setup-Ensures, load-Loads, Loads}
use spu_kit.Play.{Round, halt, next}
use spu_kit.Play.Action.{Device, Played, played, exits, aborted, failed, crashed, spinning}
use spu_kit.Play.Ensures.{Fine, Secures, Secures-on, Secures-bind}
use spu_kit.Play.Safe.{Recording, Complete, Crash, run-Secures}
use spu_kit.Main.{
  Handled, returned, stopped, exits_recorded, stops_aborted, stops_asserted, stops_crashed,
  still_playing, still_writing, emulated, emulate, restore_sound, loaded, handle_file, ram_bytes,
  dump_name,
}
use spu_kit.Main.Files.{Returns, dump_ram-Returns}

module _ {W : Type 0} (os : Os W) (file : ℤ → W → List ℕ) (patience : W → ℕ) (fuel : ℕ) where
  -- A call has ended, with no failed assertion and with fuel left. Where it returns, the machine is
  -- valid, and if the file was loaded, the WAV file holds the samples; where the program exits, a file
  -- has all the samples.
  abbrev pub Handles : Result W Handled → Type 0
  Handles (done (returned true d) w) =
      IsValid d.machine × Recording os file patience fuel d.render w
  Handles (done (returned false d) w) = IsValid d.machine
  Handles (done (stopped exits_recorded) w) = Complete os file patience fuel w
  Handles (done (stopped stops_aborted) w) = Unit {0}
  Handles (done (stopped stops_crashed) w) = Unit {0}
  Handles (done (stopped still_playing) w) = Unit {0}
  Handles (done (stopped stops_asserted) w) = ⊥
  Handles (done (stopped still_writing) w) = ⊥
  Handles _ = ⊥

  module _ (doc : Documented os file patience)
      (whole : (fd : ℤ) (h : WaveHdr) (w : W)
        → TakesAll (hdr_bytes h) (os.pwrite fd (hdr_bytes h) 0 w))
      (reader : Reader W) (input : ℤ → W → List ℕ) (law : Reading reader input) (rounds : ℕ)
      (calm : (w : W) → patience w + spc_size < fuel) where
    emulated-Handles :
        (w0 : W) (r : Played W Round)
        → Fine
            (Recording os file patience fuel)
            (Complete os file patience fuel)
            (Crash os file patience fuel)
            Any
            r
        → Handles (emulated w0 r)
    unfolding emulated
    emulated-Handles w0 (played halt d w) (q, v, i) = (v, i)
    emulated-Handles w0 (played (next c) d w) g = tt
    emulated-Handles w0 (exits w) g = g
    emulated-Handles w0 aborted g = tt
    emulated-Handles w0 (crashed d) g = tt
    emulated-Handles w0 failed g = absurd g
    emulated-Handles w0 spinning g = absurd g

    restore_sound-Secures :
        (spc : List ℕ)
        → Secures
            (Recording os file patience fuel)
            (Complete os file patience fuel)
            (Crash os file patience fuel)
            Any
            (restore_sound spc)
    unfolding restore_sound
    restore_sound-Secures spc = record { at = λ d w v i. (tt, v, i) }

    emulate-Secures :
        (spc : List ℕ)
        → ((i : ℕ) → IsByte (table spc i))
        → Secures
            (Recording os file patience fuel)
            (Complete os file patience fuel)
            (Crash os file patience fuel)
            Any
            (emulate reader os fuel rounds spc)
    unfolding emulate
    emulate-Secures spc h =
        Secures-bind _ _ _ _ _ (Secures-on _ _ _ _ (setup-Ensures (table spc) h)) (λ _ _.
          Secures-bind _ _ _ _ _ (restore_sound-Secures spc)
            (λ _ _. run-Secures os file patience fuel doc whole rounds 0))

    after_dump :
        (f : W → Played W Round) (r : Result W Bool)
        → Returns r
        → ((w : W)
            → Fine
                (Recording os file patience fuel)
                (Complete os file patience fuel)
                (Crash os file patience fuel)
                Any
                (f w))
        → Handles (after r (λ _ w'. emulated w' (f w')))
    after_dump f (done b w') v g = emulated-Handles w' (f w') (g w')
    after_dump f spins v g = absurd v
    after_dump f asserted v g = absurd v
    after_dump f overrun v g = absurd v

    loaded-Handles :
        (d : Device) (r : Result W (Bool × List ℕ))
        → IsValid d.machine
        → ((w : W) → Recording os file patience fuel d.render w)
        → Loads reader input r
        → Handles (after r (loaded reader os fuel rounds d))
    unfolding loaded
    loaded-Handles d (done (false, spc) w') v i l = v
    loaded-Handles d (done (true, spc) w') v i (l, b) =
        let size = length-take {0} 0x10000 (drop 0x100 spc) in
        after_dump (emulate reader os fuel rounds spc d)
          (dump_ram os fuel (ram_bytes spc) dump_name w')
          (dump_ram-Returns os file patience doc fuel (ram_bytes spc) dump_name w'
            (omega (arith, size)) (λ w. omega (arith, size, calm w)))
          (λ w. (emulate-Secures spc b).at d w v (i w))
    loaded-Handles d spins v i l = absurd l
    loaded-Handles d asserted v i l = absurd l
    loaded-Handles d overrun v i l = absurd l

  -- On a system that behaves as documented, interrupts a write so often at most and takes the
  -- header of a WAV file in one piece or fails, and with a valid machine that has played no sample
  -- yet: handle_file ends for any file, after its rounds at the latest. Whatever the file holds,
  -- its emulation, with the DSP and the WAV file, fails no `xassert` outside of next_sample, and
  -- uses up no fuel of the writers; where it halts, the machine is valid and the WAV file holds its
  -- samples, and where it exits, a file consists of the right header and 1920000 samples. It may
  -- call `abort()`, or crash within next_sample or with the NULL or freed pointer of wav_create.
  pub handle_file-Handles :
      Documented os file patience
      → ((fd : ℤ) (h : WaveHdr) (w : W) → TakesAll (hdr_bytes h) (os.pwrite fd (hdr_bytes h) 0 w))
      → (reader : Reader W) (input : ℤ → W → List ℕ) → Reading reader input
      → (rounds : ℕ) → ((w : W) → patience w + spc_size < fuel)
      → (name : List ℕ) (d : Device) (w : W) → IsValid d.machine
      → d.render.wav ≡ none
      → d.render.nr_samples ≡ 0
      → Handles (handle_file reader os fuel rounds name d w)
  unfolding handle_file
  handle_file-Handles doc whole reader input law rounds calm name d w v new zero' =
      loaded-Handles doc whole reader input law rounds calm d (load reader fuel name w) v
        (λ w'. rw (new, zero') ([], refl, omega arith, omega arith, omega (arith, calm w')))
        (load-Loads reader input law fuel name w (omega (arith, calm w)))

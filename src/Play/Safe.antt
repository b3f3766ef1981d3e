-- ===== src/Play/Safe.antt =====
-- The invariant through the loop of `spc700_run_forever`.
use Prim.Native.Nat.{zero, suc}
use spu_kit.Base.{
  ◌⊎◌, inl, inr, refl, leb, Bool, true, false, Bool-cases, ℕ, ◌+◌, ◌*◌, ◌<◌, ◌≡◌, ◌==◌, ◌++◌,
  bit_and, arith, Option, none, some, List, true, u32,
}
use mathlib.Core.Path.{subst}
use spu_kit.Base.Int.{ℤ}
use spu_kit.Base.Lists.{length}
use spu_kit.Wav.{Wav, _wav_close, wav_write_samples16}
use spu_kit.Io.{after, Os, Result, done, spins, asserted, overrun}
use spu_kit.Io.Laws.{Documented}
use spu_kit.Fd.Whole.{TakesAll}
use spu_kit.Wav.Header.{WaveHdr, hdr_bytes, sample_bytes}
use spu_kit.Wav.Close.{sized_hdr}
use spu_kit.Machine.{Machine}
use spu_kit.Machine.Valid.{IsValid}
use spu_kit.Machine.Ensures.{Any, Ensures-xassert}
use spu_kit.Apu.Safe.{timer_tick-Ensures}
use spu_kit.Cpu.Safe.{fetch_insn-Ensures}
use spu_kit.Cpu.Safe.Run.{opcode-Runs}
use spu_kit.Cpu.Safe.Table.{Runs}
use spu_kit.Cpu.Table.{Entry, opcode_tbl, entry}
use spu_kit.Sound.{Sample, Sound}
use spu_kit.Sound.Mix.{next_sample}
use spu_kit.Sound.Mix.Bytes.{If, HoldsBytes, next_sample-HoldsBytes}
use spu_kit.Render.{
  sample_result, write_sample, count_sample, exit_result, sample_words, Render, Next, going, exited,
  gives_up, dsp_run32, most_samples,
}
use spu_kit.Render.{crashed as goes_wrong}
use spu_kit.Render.Recorded.{Recorded, Records, dsp_run32-Records}
use spu_kit.Play.{
  with_machine, with_sound, Round, halt, next, dsp_result, run_dsp, apu_update_clocks, execute,
  round, run,
}
use spu_kit.Play.Action.{Device, P, pure}
use spu_kit.Play.Ensures.{Fine, Secures, Secures-pure, Secures-on, Secures-if, Secures-bind}

module _ {W : Type 0} (os : Os W) (file : ℤ → W → List ℕ) (patience : W → ℕ) (fuel : ℕ) where
  -- The WAV file, or what is still to become one, holds the words of the samples so far, two for each;
  -- there are still samples to come, and fuel for the interruptions and the buffer.
  abbrev pub Recording : Render → W → Type 0
  Recording r w =
      (words : List ℕ) × Recorded os file patience r.wav words w
      × (length words ≡ 2 * r.nr_samples)
      × (r.nr_samples < most_samples)
      × (patience w + 8240 < fuel)

  -- A file consists of a header with the right sizes and the words of 1920000 samples.
  abbrev pub Complete : W → Type 0
  Complete w =
      (fd : ℤ) × (words : List ℕ) × (length words ≡ 2 * most_samples)
      × (file fd w ≡ hdr_bytes (sized_hdr (2 * most_samples)) ++ sample_bytes words)

  -- What a crash needs: that next_sample fails, at an access outside of an array or an `xassert`, or
  -- that there is no WAV file so far, so that wav_create is called.
  abbrev pub Crash : Device → Type 0
  Crash d = (next_sample (with_machine d.machine d.render).sound ≡ none) ⊎ (d.render.wav ≡ none)

  -- A call does not end in a crash.
  abbrev Goes : Result W Next → Type 0
  Goes (done goes_wrong w) = ⊥
  Goes _ = Unit {0}

  close-Goes : (r : Result W Bool) → Goes (after r (exit_result os))
  unfolding exit_result
  close-Goes (done true w) = tt
  close-Goes (done false w) = tt
  close-Goes spins = tt
  close-Goes asserted = tt
  close-Goes overrun = tt

  write-Goes :
      (sound : Sound) (nr : ℕ) (r : Result W (Bool × Wav))
      → Goes (after r (count_sample os fuel sound nr))
  unfolding count_sample
  write-Goes sound nr (done (false, wav) w) = tt
  write-Goes sound nr (done (true, wav) w) = elim (Bool-cases (leb most_samples (u32 (nr + 1)))) [
    | inl e ↦ rw e (close-Goes (_wav_close os fuel wav w))
    | inr e ↦ rw e tt
  ]
  write-Goes sound nr spins = tt
  write-Goes sound nr asserted = tt
  write-Goes sound nr overrun = tt

  -- A sample ends in a crash only where there is none, or no file.
  abbrev CrashOf : Option (Sample × Sound) → Option Wav → Result W Next → Type 0
  CrashOf m wav (done goes_wrong w) = (m ≡ none) ⊎ (wav ≡ none)
  CrashOf m wav _ = Unit {0}

  running-CrashOf :
      (m : Option (Sample × Sound)) (wav : Option Wav) (r : Result W Next)
      → Goes r
      → CrashOf m wav r
  running-CrashOf m wav (done goes_wrong w) g = absurd g
  running-CrashOf m wav (done (going r) w) g = tt
  running-CrashOf m wav (done exited w) g = tt
  running-CrashOf m wav (done gives_up w) g = tt
  running-CrashOf m wav spins g = tt
  running-CrashOf m wav asserted g = tt
  running-CrashOf m wav overrun g = tt

  no_file-CrashOf : (m : Option (Sample × Sound)) (r : Result W Next) → CrashOf m none r
  no_file-CrashOf m (done goes_wrong w) = inr refl
  no_file-CrashOf m (done (going r) w) = tt
  no_file-CrashOf m (done exited w) = tt
  no_file-CrashOf m (done gives_up w) = tt
  no_file-CrashOf m spins = tt
  no_file-CrashOf m asserted = tt
  no_file-CrashOf m overrun = tt

  sample-CrashOf :
      (wav : Option Wav) (nr : ℕ) (m : Option (Sample × Sound)) (w : W)
      → CrashOf m wav (sample_result os fuel wav nr m w)
  unfolding sample_result write_sample
  sample-CrashOf wav nr none w = inl refl
  sample-CrashOf none nr (some (sample, sound)) w = no_file-CrashOf (some (sample, sound)) _
  sample-CrashOf (some wav) nr (some (sample, sound)) w =
      running-CrashOf (some (sample, sound)) (some wav) _
        (write-Goes sound nr (wav_write_samples16 os fuel wav (sample_words sample) w))

  module _ (doc : Documented os file patience)
      (whole : (fd : ℤ) (h : WaveHdr) (w : W)
        → TakesAll (hdr_bytes h) (os.pwrite fd (hdr_bytes h) 0 w)) where
    bytes-IsValid :
        (s : Machine) (sound : Sound) → IsValid s → HoldsBytes sound → IsValid (with_sound sound s)
    unfolding with_sound
    bytes-IsValid s sound v h = record {
      cpu_valid = v.cpu_valid;
      aram_fits = h.aram_bytes;
      extra_fits = v.extra_fits;
      apu_valid = v.apu_valid;
      dsp_valid = record { regs_fit = h.regs_bytes };
    }

    result-Fine :
        (d : Device) (words : List ℕ) (w : W) (r : Result W Next)
        → IsValid d.machine
        → If (λ q. HoldsBytes q.1) (next_sample (with_machine d.machine d.render).sound)
        → patience w + 8240 < fuel
        → Records os file patience (next_sample (with_machine d.machine d.render).sound) words w r
        → CrashOf (next_sample (with_machine d.machine d.render).sound) d.render.wav r
        → Fine Recording Complete Crash Any (dsp_result d r)
    unfolding dsp_result
    result-Fine d words w (done (going r) w') v h e (sample, same, wav, size, few, p) c = (
      tt,
      bytes-IsValid d.machine r.sound v (subst (If (λ q. HoldsBytes q.1)) same h),
      (_, wav, size, few, omega arith),
    )
    result-Fine d words w (done exited w') v h e (sample, sound, fd, same, f, size) c =
        (fd, _, size, f)
    result-Fine d words w (done gives_up w') v h e q c = tt
    result-Fine d words w (done goes_wrong w') v h e q c = c
    result-Fine d words w spins v h e q c = absurd q
    result-Fine d words w asserted v h e q c = absurd q
    result-Fine d words w overrun v h e q c = absurd q

    run_dsp-Secures : Secures Recording Complete Crash Any (run_dsp os fuel)
    unfolding run_dsp dsp_run32 with_machine
    run_dsp-Secures = record {
      at = λ d w v (words, wav, size, few, e).
          let r = with_machine d.machine d.render in
          result-Fine d words w (dsp_run32 os fuel r w) v
            (next_sample-HoldsBytes r.sound
              (record { regs_bytes = v.dsp_valid.regs_fit; aram_bytes = v.aram_fits }))
            e (dsp_run32-Records os file patience doc whole fuel r words w wav size few e)
            (sample-CrashOf r.wav r.nr_samples (next_sample r.sound) w);
    }

    clocks-Secures :
        (cycle : ℕ)
        → (bit_and cycle 0xf == 0) ≡ true
        → Secures Recording Complete Crash Any (apu_update_clocks os fuel cycle)
    unfolding apu_update_clocks
    clocks-Secures cycle h =
        Secures-bind Recording Complete Crash _ _
          (Secures-on Recording Complete Crash _ (Ensures-xassert _ h))
          (λ _ _.
            Secures-bind Recording Complete Crash _ _
              (Secures-on Recording Complete Crash _ (timer_tick-Ensures 2 (omega arith)))
              (λ _ _.
                Secures-bind Recording Complete Crash _ _
                  (Secures-if Recording Complete Crash (bit_and cycle 0x1f == 0) _ _
                    (λ _. run_dsp-Secures) (λ _. Secures-pure Recording Complete Crash tt tt))
                  (λ _ _.
                    Secures-if Recording Complete Crash (bit_and cycle 0x7f == 0) _ _
                      (λ _.
                        Secures-bind Recording Complete Crash _ _
                          (Secures-on Recording Complete Crash _
                            (timer_tick-Ensures 0 (omega arith)))
                          (λ _ _.
                            Secures-on Recording Complete Crash _
                              (timer_tick-Ensures 1 (omega arith))))
                      (λ _. Secures-pure Recording Complete Crash tt tt))))

    execute-Secures :
        (f : Entry) (cycle : ℕ)
        → Runs f
        → Secures Recording Complete Crash Any (execute os fuel f cycle)
    unfolding execute
    execute-Secures none cycle h = Secures-pure Recording Complete Crash halt tt
    execute-Secures (some cb) cycle h =
        Secures-bind Recording Complete Crash _ _ (Secures-on Recording Complete Crash cb h) (λ _ _.
          Secures-bind Recording Complete Crash _ _
            (Secures-if Recording Complete Crash (bit_and (u32 (cycle + 4)) 0xf == 0) _ _
              (λ e. clocks-Secures (u32 (cycle + 4)) e)
              (λ _. Secures-pure Recording Complete Crash tt tt))
            (λ _ _. Secures-pure Recording Complete Crash _ tt))

    round-Secures : (cycle : ℕ) → Secures Recording Complete Crash Any (round os fuel cycle)
    unfolding round
    round-Secures cycle =
        Secures-bind Recording Complete Crash _ _
          (Secures-on Recording Complete Crash _ fetch_insn-Ensures)
          (λ opcode _. execute-Secures (entry opcode_tbl opcode) cycle (opcode-Runs opcode))

    after-Secures :
        (r : Round) (rest : ℕ → P W Round)
        → ((cycle : ℕ) → Secures Recording Complete Crash Any (rest cycle))
        → Secures Recording Complete Crash Any
            (elim r [ halt ↦ pure halt | next cycle ↦ rest cycle ])
    after-Secures halt rest h = Secures-pure Recording Complete Crash halt tt
    after-Secures (next cycle) rest h = h cycle

    pub run-Secures :
        (rounds cycle : ℕ) → Secures Recording Complete Crash Any (run os fuel rounds cycle)
    unfolding run
    run-Secures zero cycle = Secures-pure Recording Complete Crash (next cycle) tt
    run-Secures (suc rounds) cycle =
        Secures-bind Recording Complete Crash _ _ (round-Secures cycle)
          (λ r _. after-Secures r _ (λ c. run-Secures rounds c))

  -- On a system that behaves as documented, where pwrite(2) takes a header in one piece or fails,
  -- with fuel for the interruptions and the buffer, from any valid machine, and where the WAV file,
  -- if it is open, holds the samples so far: no number of rounds of the loop of
  -- `spc700_run_forever`, with the DSP and its WAV file, fails an `xassert` of the processor or of
  -- the writers, leaves an array of the writers or goes round in a loop for ever, whatever the
  -- program in memory. Where the rounds return, every register, byte of memory and timer is in its
  -- range again, and the file holds the samples; where the program exits, a file consists of the
  -- right header and 1920000 samples. It crashes only at a sample for which next_sample fails, at
  -- an access outside of an array or an `xassert`, or before there is a WAV file, with the NULL or
  -- freed pointer of wav_create; and it may call `abort()`.
  pub run-Fine :
      Documented os file patience
      → ((fd : ℤ) (h : WaveHdr) (w : W) → TakesAll (hdr_bytes h) (os.pwrite fd (hdr_bytes h) 0 w))
      → (rounds cycle : ℕ) (d : Device) (w : W) → IsValid d.machine
      → Recording d.render w
      → Fine Recording Complete Crash Any (run os fuel rounds cycle d w)
  run-Fine doc whole rounds cycle d w v i = (run-Secures doc whole rounds cycle).at d w v i

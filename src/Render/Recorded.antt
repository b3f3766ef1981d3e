-- ===== src/Render/Recorded.antt =====
-- What is in the WAV file after each sample.
use spu_kit.Base.Int.{ℤ}
use spu_kit.Wav.Create.{wav_create-Starts}
use spu_kit.Sound.Mix.{next_sample}
use spu_kit.Base.Lists.{length-append, length}
use spu_kit.Fd.Whole.{TakesAll}
use spu_kit.Sound.{Sound, Sample}
use spu_kit.Wav.Contents.{write_samples-Extends, Starts, Holds, Extends}
use spu_kit.Io.Laws.{Documented}
use spu_kit.Wav.Close.{wav_close-Closes, sized_hdr, Closes}
use mathlib.Core.Path.{subst}
use spu_kit.Base.{
  ◌∙◌, ◌≤◌, ◌+◌, ◌<◌, ◌++◌, ◌*◌, ◌≡◌, ℕ, u32, sym, refl, leb, inr, inl, arith, ap, [], Option, List,
  Bool-cases, Bool, none, some, true, false,
}
use spu_kit.Io.{Result, Os, done, spins, asserted, overrun, after}
use spu_kit.Wav.{
  Wav, WavPtr, null, dangling, live, wav_create, wav_write_samples16, _wav_close, fixed_hdr,
}
use spu_kit.Wav.Header.{sample_bytes, WaveHdr, hdr_bytes}
use spu_kit.Render.{
  write_sample, sample_words, sample_result, out_name, most_samples, first_sample, exit_result,
  dsp_run32, count_sample, Render, Next, going, exited, gives_up, crashed,
}

module _ {W : Type 0} (os : Os W) (file : ℤ → W → List ℕ) (patience : W → ℕ) where
  -- The file, or what is still to become one, holds these words.
  abbrev pub Recorded : Option Wav → List ℕ → W → Type 0
  Recorded none words w = words ≡ []
  Recorded (some wav) words w = Holds os file patience wav words w

  -- A call has ended after a sample, whose words come behind those before. Either it goes on, and
  -- the words are counted, or the program exits and a file is complete. Or the program has stopped.
  abbrev pub Records : Option (Sample × Sound) → List ℕ → W → Result W Next → Type 0
  Records next words w (done (going r) w') =
      (sample : Sample) × (next ≡ some (sample, r.sound))
      × Recorded r.wav (words ++ sample_words sample) w'
      × (length (words ++ sample_words sample) ≡ 2 * r.nr_samples)
      × (r.nr_samples < most_samples)
      × (patience w' ≤ patience w)
  Records next words w (done exited w') =
      (sample : Sample) × (sound : Sound) × (fd : ℤ) × (next ≡ some (sample, sound))
      × (file fd w'
          ≡ hdr_bytes (sized_hdr (2 * most_samples)) ++ sample_bytes (words ++ sample_words sample))
      × (length (words ++ sample_words sample) ≡ 2 * most_samples)
  Records next words w (done gives_up w') = Unit {0}
  Records next words w (done crashed w') = Unit {0}
  Records next words w _ = ⊥

  module _ (doc : Documented os file patience)
      (whole : (fd : ℤ) (h : WaveHdr) (w : W)
        → TakesAll (hdr_bytes h) (os.pwrite fd (hdr_bytes h) 0 w))
      (fuel : ℕ) (sample : Sample) (sound : Sound) (nr : ℕ) (words : List ℕ) (w0 : W)
      (counted : length words ≡ 2 * nr) (few : nr < most_samples)
      (enough : patience w0 + 8240 < fuel) where
    abbrev out : Option (Sample × Sound)
    out = some (sample, sound)

    all_words : length (words ++ sample_words sample) ≡ 2 * (nr + 1)
    unfolding sample_words
    all_words = omega (arith, length-append {0} words (sample_words sample))

    exit_cases :
        (fd : ℤ) (r : Result W Bool)
        → nr + 1 ≡ most_samples
        → Closes os file patience fd (words ++ sample_words sample) r
        → Records out words w0 (after r (exit_result os))
    unfolding exit_result
    exit_cases fd (done true w') e v =
        let size : length (words ++ sample_words sample) ≡ 2 * most_samples =
          omega (arith, all_words) in
        (
          sample,
          sound,
          fd,
          refl,
          v ∙ ap (λ n. hdr_bytes (sized_hdr n) ++ sample_bytes (words ++ sample_words sample)) size,
          size,
        )
    exit_cases fd (done false w') e v = tt
    exit_cases fd spins e v = absurd v
    exit_cases fd asserted e v = absurd v
    exit_cases fd overrun e v = absurd v

    count_cases :
        (w : W) (r : Result W (Bool × Wav))
        → patience w ≤ patience w0
        → Extends os file patience (words ++ sample_words sample) w r
        → Records out words w0 (after r (count_sample os fuel sound nr))
    unfolding count_sample
    count_cases w (done (true, wav) w') p (h, q) =
        let small : u32 (nr + 1) ≡ nr + 1 = omega arith in
        elim (Bool-cases (leb most_samples (nr + 1))) [
          | inl e ↦
              rw (small, e)
                (exit_cases wav.buf.fd (_wav_close os fuel wav w') (ground arith) (
                  wav_close-Closes os file patience doc fuel wav (words ++ sample_words sample) w' h
                    (omega (arith, all_words)) (whole wav.buf.fd (fixed_hdr wav.nr_samples))
                    (omega arith)))
          | inr e ↦ rw (small, e) (sample, refl, h, all_words, ground arith, omega arith)
        ]
    count_cases w (done (false, wav) w') p v = tt
    count_cases w spins p v = absurd v
    count_cases w asserted p v = absurd v
    count_cases w overrun p v = absurd v

    write-Records :
        (wav : Wav) (w : W)
        → patience w ≤ patience w0
        → Holds os file patience wav words w
        → Records out words w0 (write_sample os fuel sample sound nr wav w)
    unfolding write_sample sample_words
    write-Records wav w p h =
        count_cases w (wav_write_samples16 os fuel wav (sample_words sample) w) p (
          write_samples-Extends os file patience doc fuel wav words (sample_words sample) w h
            (omega arith) (omega arith))

    first_cases :
        (r : Result W WavPtr)
        → words ≡ []
        → Starts os file patience w0 r
        → Records out words w0 (after r (first_sample os fuel sample sound nr))
    unfolding first_sample
    first_cases (done (live wav) w') e (h, p) =
        write-Records wav w' p (subst (λ t. Holds os file patience wav t w') (sym e) h)
    first_cases (done null w') e v = tt
    first_cases (done dangling w') e v = tt
    first_cases spins e v = absurd v
    first_cases asserted e v = absurd v
    first_cases overrun e v = absurd v

  result-Records :
      Documented os file patience
      → ((fd : ℤ) (h : WaveHdr) (w : W) → TakesAll (hdr_bytes h) (os.pwrite fd (hdr_bytes h) 0 w))
      → (fuel : ℕ) (wav : Option Wav) (nr : ℕ) (next : Option (Sample × Sound)) (words : List ℕ)
        (w : W)
      → Recorded wav words w
      → length words ≡ 2 * nr
      → nr < most_samples
      → patience w + 8240 < fuel
      → Records next words w (sample_result os fuel wav nr next w)
  unfolding sample_result
  result-Records doc whole fuel none nr none words w h c l e = tt
  result-Records doc whole fuel (some wav) nr none words w h c l e = tt
  result-Records doc whole fuel none nr (some (sample, sound)) words w h c l e =
      first_cases doc whole fuel sample sound nr words w c l e (wav_create os fuel out_name w) h
        (wav_create-Starts os file patience doc fuel out_name w (omega arith))
  result-Records doc whole fuel (some wav) nr (some (sample, sound)) words w h c l e =
      write-Records doc whole fuel sample sound nr words w c l e wav w (omega arith) h

  -- On a system that behaves as documented, with fuel for the buffer and the interruptions and where
  -- pwrite(2) takes a header in one piece or fails, _dsp_run32 ends. Unless the program stops, the
  -- two words of the sample that next_sample gives come behind those of the samples before; with
  -- the 1920000th sample the program exits, and the file is then a header with the right sizes and
  -- the words of all the samples, in order.
  pub dsp_run32-Records :
      Documented os file patience
      → ((fd : ℤ) (h : WaveHdr) (w : W) → TakesAll (hdr_bytes h) (os.pwrite fd (hdr_bytes h) 0 w))
      → (fuel : ℕ) (r : Render) (words : List ℕ) (w : W) → Recorded r.wav words w
      → length words ≡ 2 * r.nr_samples
      → r.nr_samples < most_samples
      → patience w + 8240 < fuel
      → Records (next_sample r.sound) words w (dsp_run32 os fuel r w)
  unfolding dsp_run32
  dsp_run32-Records doc whole fuel r words w h c l e =
      result-Records doc whole fuel r.wav r.nr_samples (next_sample r.sound) words w h c l e

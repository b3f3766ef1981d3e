-- ===== src/Render.antt =====
-- `_dsp_run32` of dsp.c: a sample of the DSP, written to the WAV file.
pub mod Recorded
use spu_kit.Base.{
  ℕ, ◌+◌, ◌*◌, leb, if◌then◌else◌, Bool, true, false, Option, none, some, List, [], ◌∷◌, u32,
}
use spu_kit.Base.Int.{to_u16}
use spu_kit.Io.{Result, done, Os, after}
use spu_kit.Sound.{Sample, Sound}
use spu_kit.Sound.Mix.{next_sample}
use spu_kit.Wav.{Wav, WavPtr, null, dangling, live, wav_create, wav_write_samples16, _wav_close}

-- The static variables that the function uses; `wav` is `none` while it is NULL.
pub record Render : Type 0 where
  pub sound : Sound
  pub wav : Option Wav
  pub nr_samples : ℕ

-- How a call ends: it returns, the program exits or aborts, or it goes on with a pointer that is NULL
-- or freed, or fails an assertion or an access within next_sample.
pub data Next : Type 0 where
  going : Render → Next
  exited gives_up crashed : Next

-- `sample.arr`, by the bit patterns
unfoldable pub sample_words : Sample → List ℕ
unfolding to_u16
sample_words s = to_u16 s.left ∷ to_u16 s.right ∷ []

-- "out.wav"
abbrev pub out_name : List ℕ
out_name = 0x6f ∷ 0x75 ∷ 0x74 ∷ 0x2e ∷ 0x77 ∷ 0x61 ∷ 0x76 ∷ []

-- `32000 * SECONDS`
abbrev pub most_samples : ℕ
most_samples = 32000 * 60

module _ {W : Type 0} (os : Os W) where
  -- What follows `wav_close`.
  unfoldable pub exit_result : Bool → W → Result W Next
  exit_result true w = done exited w
  exit_result false w = done gives_up w

  -- What follows the write of the sample.
  unfoldable pub count_sample : ℕ → Sound → ℕ → Bool × Wav → W → Result W Next
  unfolding exit_result
  count_sample fuel sound nr (false, wav) w = done gives_up w
  count_sample fuel sound nr (true, wav) w =
      if leb most_samples (u32 (nr + 1))
      then after (_wav_close os fuel wav w) exit_result
      else done (going (record { sound = sound; wav = some wav; nr_samples = u32 (nr + 1) })) w

  unfoldable pub write_sample : ℕ → Sample → Sound → ℕ → Wav → W → Result W Next
  unfolding count_sample
  write_sample fuel sample sound nr wav w =
      after (wav_write_samples16 os fuel wav (sample_words sample) w) (count_sample fuel sound nr)

  -- What follows `wav_create`.
  unfoldable pub first_sample : ℕ → Sample → Sound → ℕ → WavPtr → W → Result W Next
  unfolding write_sample
  first_sample fuel sample sound nr (live wav) w = write_sample fuel sample sound nr wav w
  first_sample fuel sample sound nr null w = done crashed w
  first_sample fuel sample sound nr dangling w = done crashed w

  -- What follows `next_sample`.
  unfoldable pub sample_result : ℕ → Option Wav → ℕ → Option (Sample × Sound) → W → Result W Next
  unfolding first_sample write_sample
  sample_result fuel wav nr none w = done crashed w
  sample_result fuel none nr (some (sample, sound)) w =
      after (wav_create os fuel out_name w) (first_sample fuel sample sound nr)
  sample_result fuel (some wav) nr (some (sample, sound)) w =
      write_sample fuel sample sound nr wav w

  unfoldable pub dsp_run32 : ℕ → Render → W → Result W Next
  unfolding sample_result next_sample
  dsp_run32 fuel r w = sample_result fuel r.wav r.nr_samples (next_sample r.sound) w

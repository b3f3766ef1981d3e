-- ===== src/Wav/Contents.antt =====
-- What a WAV file holds from wav_create to _wav_close.
use spu_kit.Base.Lists.{length-append, length}
use spu_kit.Base.Int.{ℤ, is_negative}
use spu_kit.Wav.Header.{sample_bytes, le16, hdr_bytes, hdr}
use spu_kit.Bufwr.Write.{bufwr_write-Accepts}
use spu_kit.Io.Laws.{Documented}
use spu_kit.Base.{
  ◌∙◌, ◌+◌, ◌^◌, ◌*◌, ◌≤◌, ◌≡◌, ◌<◌, ◌++◌, ℕ, true, sym, refl, false, arith, ap, [], List, Bool,
}
use spu_kit.Bufwr.Keeps.{pending, IsSound, Accepts}
use mathlib.Core.List.{append_assoc, ◌∷◌}
use spu_kit.Io.{Result, Os, done, spins, asserted, overrun, after}
use spu_kit.Bufwr.{Bufwr, bufwr_write}
use spu_kit.Wav.{wav_write_samples16, samples_result, Wav, WavPtr, null, dangling, live}

module _ {W : Type 0} (os : Os W) (file : ℤ → W → List ℕ) (patience : W → ℕ) where
  -- The file and the buffer together are a header and the samples, which are counted.
  pub record Holds (wav : Wav) (samples : List ℕ) (w : W) : Type 0 where
    pub sound : IsSound wav.buf
    pub is_open : is_negative wav.buf.fd ≡ false
    pub size : wav.buf.max ≡ 8192
    pub content : file wav.buf.fd w ++ pending wav.buf ≡ hdr_bytes hdr ++ sample_bytes samples
    pub counted : wav.nr_samples ≡ length samples

  -- A call has ended, and if it has given a structure, its file holds no samples yet.
  abbrev pub Starts : W → Result W WavPtr → Type 0
  Starts w (done (live wav) w') = Holds wav [] w' × (patience w' ≤ patience w)
  Starts w (done null w') = Unit {0}
  Starts w (done dangling w') = Unit {0}
  Starts w _ = ⊥

  -- A call has ended, and if it has succeeded, the file holds these samples.
  abbrev pub Extends : List ℕ → W → Result W (Bool × Wav) → Type 0
  Extends samples w (done (true, wav) w') = Holds wav samples w' × (patience w' ≤ patience w)
  Extends samples w (done (false, wav) w') = Unit {0}
  Extends samples w _ = ⊥

  length-sample_bytes : (ss : List ℕ) → length (sample_bytes ss) ≡ 2 * length ss
  unfolding sample_bytes
  length-sample_bytes [] = refl
  length-sample_bytes (s ∷ ss) = omega (arith, length-sample_bytes ss)

  sample_bytes-append :
      (xs ys : List ℕ) → sample_bytes (xs ++ ys) ≡ sample_bytes xs ++ sample_bytes ys
  unfolding sample_bytes
  sample_bytes-append [] ys = refl
  sample_bytes-append (x ∷ xs) ys =
      ap (λ t. le16 x ++ t) (sample_bytes-append xs ys)
      ∙ sym (append_assoc (le16 x) (sample_bytes xs) (sample_bytes ys))

  -- On a system that behaves as documented and with fuel for the samples and the interruptions,
  -- wav_write_samples16 ends; where it succeeds, the file and the buffer hold the samples behind those
  -- of the calls before, and nr_samples counts them all.
  pub write_samples-Extends :
      Documented os file patience
      → (fuel : ℕ) (wav : Wav) (samples more : List ℕ) (w : W) → Holds wav samples w
      → length more < 2 ^ 63
      → patience w + 8192 + 2 * length more < fuel
      → Extends (samples ++ more) w (wav_write_samples16 os fuel wav more w)
  unfolding wav_write_samples16 samples_result
  write_samples-Extends doc fuel wav samples more w h fits enough =
      cases (bufwr_write os fuel wav.buf (sample_bytes more) w) (
        bufwr_write-Accepts os file patience doc fuel wav.buf (sample_bytes more) w h.sound
          h.is_open (omega (arith, length-sample_bytes more))
          (omega (arith, length-sample_bytes more, h.size)))
    where
      cases :
          (r : Result W (Bool × Bufwr))
          → Accepts os file patience wav.buf (sample_bytes more) w r
          → Extends (samples ++ more) w (after r (samples_result os wav (length more)))
      cases (done (true, f) w') (s, fd, max, e, p) = (
        record {
          sound = s;
          is_open = ap is_negative fd ∙ h.is_open;
          size = max ∙ h.size;
          content =
              ap (λ t. file t w' ++ pending f) fd
              ∙ e
              ∙ sym (append_assoc (file wav.buf.fd w) (pending wav.buf) (sample_bytes more))
              ∙ ap (λ t. t ++ sample_bytes more) h.content
              ∙ append_assoc (hdr_bytes hdr) (sample_bytes samples) (sample_bytes more)
              ∙ ap (λ t. hdr_bytes hdr ++ t) (sym (sample_bytes-append samples more));
          counted = omega (arith, h.counted, length-append {0} samples more);
        },
        p,
      )
      cases (done (false, f) w') v = tt
      cases spins v = absurd v
      cases asserted v = absurd v
      cases overrun v = absurd v

-- ===== src/Wav.antt =====
-- The WAV writer of wav.c on a little-endian machine.
pub mod Header
pub mod Contents
pub mod Create
pub mod Close
pub mod Held
pub mod Settled
use spu_kit.Base.{
  ℕ, ◌+◌, ◌*◌, ◌^◌, ◌%◌, if◌then◌else◌, Bool, true, false, Option, none, some, List, [], ◌∷◌, ◌++◌,
  u32,
}
use spu_kit.Base.Int.{ℤ, is_negative}
use spu_kit.Base.Lists.{length}
use spu_kit.Io.{Result, done, Os, sub64, after}
use spu_kit.Fd.{Status, success, failure, fd_pwrite}
use spu_kit.Bufwr.{
  Bufwr, bufwr__init, bufwr_write, bufwr_flush, bufwr__close, bufwr__abort, succeeded,
}
use spu_kit.Wav.Header.{WaveHdr, hdr, hdr_bytes, sample_bytes}

-- `struct wav_s`
pub record Wav : Type 0 where
  pub buf : Bufwr
  pub nr_samples : ℕ

-- What wav_create returns: NULL, a structure, or the address of one that is freed.
pub data WavPtr : Type 0 where
  null dangling : WavPtr
  live : Wav → WavPtr

unfoldable pub fixed_hdr : ℕ → WaveHdr
unfolding hdr
fixed_hdr nr_samples =
    let file_size = (nr_samples * 2 + 44) % 2 ^ 64 in
    record hdr { riff_size = u32 (sub64 file_size 8); data_size = u32 (sub64 file_size 44) }

module _ {W : Type 0} (os : Os W) where
  -- From `out_free` and `out_close` on.
  unfoldable pub out_free : W → Result W WavPtr
  out_free w = done dangling (os.free w)

  -- What follows the write of the header.
  unfoldable pub header_result : Bool × Bufwr → W → Result W WavPtr
  unfolding out_free
  header_result (true, f) w = done (live (record { buf = f; nr_samples = 0 })) w
  header_result (false, f) w = out_free (bufwr__abort os f w)

  -- What follows bufwr__init.
  unfoldable pub header_write : ℕ → ℤ → Option Bufwr × W → Result W WavPtr
  unfolding header_result hdr hdr_bytes
  header_write fuel fd (none, w) = out_free (os.close fd w).1
  header_write fuel fd (some f, w) = after (bufwr_write os fuel f (hdr_bytes hdr) w) header_result

  -- What follows open(2).
  unfoldable pub open_result : ℕ → ℤ × W → Result W WavPtr
  unfolding header_write
  open_result fuel (fd, w) =
      if is_negative fd then out_free w else header_write fuel fd (bufwr__init os fd 0 w)

  -- What follows the `malloc` of the structure.
  unfoldable pub create_result : ℕ → List ℕ → Option (ℕ → ℕ) × W → Result W WavPtr
  unfolding open_result
  create_result fuel name (none, w) = done null w
  create_result fuel name (some _, w) = open_result fuel (os.open_file name w)

  unfoldable pub wav_create : ℕ → List ℕ → W → Result W WavPtr
  unfolding create_result
  wav_create fuel name w = create_result fuel name (os.malloc 32 w)

  -- What follows the write of the samples.
  unfoldable pub samples_result : Wav → ℕ → Bool × Bufwr → W → Result W (Bool × Wav)
  samples_result wav num (true, f) w =
      done (true, record { buf = f; nr_samples = wav.nr_samples + num }) w
  samples_result wav num (false, f) w = done (false, record wav { buf = f }) w

  -- The samples are the bit patterns of an int16_t each.
  unfoldable pub wav_write_samples16 : ℕ → Wav → List ℕ → W → Result W (Bool × Wav)
  unfolding samples_result sample_bytes
  wav_write_samples16 fuel wav sample w =
      after (bufwr_write os fuel wav.buf (sample_bytes sample) w)
        (samples_result wav (length sample))

  unfoldable pub rewrite_hdr : ℕ → Wav → W → Result W Bool
  unfolding fixed_hdr hdr_bytes
  rewrite_hdr fuel wav w =
      after (fd_pwrite os fuel wav.buf.fd 0 (hdr_bytes (fixed_hdr wav.nr_samples)) w)
        (λ s w'. done (succeeded os s) w')

  -- The last `free` of _wav_close.
  unfoldable pub finish : Bool → W → Result W Bool
  finish ret w = done ret (os.free w)

  unfoldable pub _wav_close : ℕ → Wav → W → Result W Bool
  unfolding rewrite_hdr finish
  _wav_close fuel wav w = after (bufwr_flush os fuel wav.buf w) (λ (flushed, f) w1.
      if flushed
      then after (rewrite_hdr fuel (record wav { buf = f }) w1) (λ rewritten w2.
        if rewritten then after (bufwr__close os fuel f false w2) finish else finish false w2)
      else finish false w1)

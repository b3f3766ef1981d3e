-- ===== src/Wav/Header.antt =====
-- The header of a WAV file by its bytes, and those of the samples.
use spu_kit.Base.Lists.{length}
use spu_kit.Base.{◌≡◌, refl, ◌*◌, ℕ, ◌>>>◌, List, [], ◌∷◌, ◌++◌, u8}

-- `struct wave_hdr` without the tags of its chunks.
pub record WaveHdr : Type 0 where
  pub riff_size : ℕ
  pub fmt_size : ℕ
  pub audio_fmt : ℕ
  pub num_channels : ℕ
  pub sample_rate : ℕ
  pub byte_rate : ℕ
  pub block_align : ℕ
  pub sample_bits : ℕ
  pub data_size : ℕ

-- `hdr`
unfoldable pub hdr : WaveHdr
hdr = record {
  riff_size = 0;
  fmt_size = 16;
  audio_fmt = 1;
  num_channels = 2;
  sample_rate = 32000;
  byte_rate = 32000 * 2 * 2;
  block_align = 2;
  sample_bits = 16;
  data_size = 0;
}

-- A `uint16_t` and a `uint32_t` in memory.
abbrev pub le16 : ℕ → List ℕ
le16 n = u8 n ∷ u8 (n >>> 8) ∷ []

abbrev pub le32 : ℕ → List ℕ
le32 n = u8 n ∷ u8 (n >>> 8) ∷ u8 (n >>> 16) ∷ u8 (n >>> 24) ∷ []

-- RIFF, WAVE, FMT and DATA
abbrev pub riff_tag : List ℕ
riff_tag = 0x52 ∷ 0x49 ∷ 0x46 ∷ 0x46 ∷ []

abbrev pub wave_tag : List ℕ
wave_tag = 0x57 ∷ 0x41 ∷ 0x56 ∷ 0x45 ∷ []

abbrev pub fmt_tag : List ℕ
fmt_tag = 0x66 ∷ 0x6d ∷ 0x74 ∷ 0x20 ∷ []

abbrev pub data_tag : List ℕ
data_tag = 0x64 ∷ 0x61 ∷ 0x74 ∷ 0x61 ∷ []

-- `struct wave_hdr` in memory; it is packed.
unfoldable pub hdr_bytes : WaveHdr → List ℕ
hdr_bytes h =
    riff_tag
    ++ (le32 h.riff_size
        ++ (wave_tag
            ++ (fmt_tag
                ++ (le32 h.fmt_size
                    ++ (le16 h.audio_fmt
                        ++ (le16 h.num_channels
                            ++ (le32 h.sample_rate
                                ++ (le32 h.byte_rate
                                    ++ (le16 h.block_align
                                        ++ (le16 h.sample_bits
                                            ++ (data_tag ++ le32 h.data_size)))))))))))

-- An array of int16_t in memory, by its bit patterns.
unfoldable pub sample_bytes : List ℕ → List ℕ
sample_bytes [] = []
sample_bytes (s ∷ ss) = le16 s ++ sample_bytes ss

pub length-hdr_bytes : (h : WaveHdr) → length (hdr_bytes h) ≡ 44
unfolding hdr_bytes
length-hdr_bytes h = refl

-- ===== src/Sound/Echo/Ring.antt =====
-- The echo ring.
use spu_kit.Sound.Voice.{write_aram_word, read_aram_word}
use spu_kit.Sound.Echo.{echo_advance}
use spu_kit.Sound.{Sound}
use spu_kit.Base.{
  ◌∙◌, ◌>>>◌, ◌==◌, ◌<◌, ◌⊎◌, ◌+◌, ◌≡◌, ◌%◌, ℕ, u16, true, false, bit_and, arith, IsWord,
}
use spu_kit.Base.Bits.{or_field, and_mask}

-- A word that is written is read back, also at the end of the memory, where its high byte lies at 0.
read-write_aram_word :
    (aram : ℕ → ℕ) (addr val : ℕ)
    → IsWord addr
    → IsWord val
    → read_aram_word (write_aram_word aram addr val) addr ≡ val
unfolding read_aram_word write_aram_word
read-write_aram_word aram addr val a v =
    let hi : (u16 (addr + 0) == u16 (addr + 1)) ≡ false = ground arith in
    let lo : (u16 (addr + 0) == u16 (addr + 0)) ≡ true = ground arith in
    let same : (u16 (addr + 1) == u16 (addr + 1)) ≡ true = ground arith in
    let low : bit_and val 0xff ≡ val % 256 = and_mask 8 val in
    rw (hi, lo, same, low) (or_field 8 (val >>> 8) (val % 256) (omega arith) ∙ omega arith)

-- The offset is that of a pair of samples in a ring of the length read last, or 0.
pub record InRing (s : Sound) : Type 0 where
  pub whole : s.echo_offset % 4 ≡ 0
  pub before_end : (s.echo_offset ≡ 0) ⊎ (s.echo_offset < s.echo_length)
  pub short : s.echo_length < 0x8000

-- The four bytes that are written for a sample lie inside of the ring, or at its start.
pub echo_advance-InRing : (s : Sound) → InRing s → InRing (echo_advance s)
unfolding echo_advance
echo_advance-InRing s v =
    let mask : bit_and (s.regs 0x7d) 0xf ≡ s.regs 0x7d % 16 = and_mask 4 (s.regs 0x7d) in
    record {
      whole = ground (arith, v.whole, v.before_end, v.short, mask);
      before_end = ground (arith, v.whole, v.before_end, v.short, mask);
      short = ground (arith, v.short, mask);
    }

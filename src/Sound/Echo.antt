-- ===== src/Sound/Echo.antt =====
-- The echo: its ring in `aram`, its history and the filter over it.
pub mod Ring
use spu_kit.Base.{
  ℕ, ◌+◌, ◌*◌, ◌%◌, bit_and, leb, ◌==◌, if◌then◌else◌, not, Bool, u8, u16, test, update,
}
use spu_kit.Base.Int.{ℤ, ◌*ℤ◌, ◌>>ℤ◌, to_i16, to_u16, of_u8, of_u16}
use spu_kit.Sound.{Sample, Sound}
use spu_kit.Sound.Samples.{sample_accumulate}
use spu_kit.Sound.Voice.{read_aram_word, write_aram_word}

unfoldable pub echo_read_l : Sound → ℕ
unfolding read_aram_word
echo_read_l s = read_aram_word s.aram (u16 (s.echo_ptr + 0))

unfoldable pub echo_read_r : Sound → ℕ
unfolding read_aram_word
echo_read_r s = read_aram_word s.aram (u16 (s.echo_ptr + 2))

unfoldable pub echo_write_l : ℤ → Sound → Sound
unfolding write_aram_word to_u16
echo_write_l val s = record s {
  aram =
      if s.echo_enabled then write_aram_word s.aram (u16 (s.echo_ptr + 0)) (to_u16 val) else s.aram;
}

unfoldable pub echo_write_r : ℤ → Sound → Sound
unfolding write_aram_word to_u16
echo_write_r val s = record s {
  aram =
      if s.echo_enabled then write_aram_word s.aram (u16 (s.echo_ptr + 2)) (to_u16 val) else s.aram;
}

unfoldable pub fir_write_l : ℤ → Sound → Sound
fir_write_l val s =
    let at = (s.echo_hist_pos + 0) % 8 in
    record s {
      echo_hist = update s.echo_hist at (record (s.echo_hist at) { left = to_i16 (val >>ℤ 1) });
    }

unfoldable pub fir_write_r : ℤ → Sound → Sound
fir_write_r val s =
    let at = (s.echo_hist_pos + 0) % 8 in
    record s {
      echo_hist = update s.echo_hist at (record (s.echo_hist at) { right = to_i16 (val >>ℤ 1) });
    }

unfoldable pub fir_read_l : ℕ → Sound → ℤ
fir_read_l depth s = (s.echo_hist ((s.echo_hist_pos + depth) % 8)).left

unfoldable pub fir_read_r : ℕ → Sound → ℤ
fir_read_r depth s = (s.echo_hist ((s.echo_hist_pos + depth) % 8)).right

-- The register of the coefficient is `reg_coeff(i)`, for `i` below 8.
unfoldable pub calc_fir : Sound → ℕ → Sample
unfolding fir_read_l fir_read_r
calc_fir s i =
    let coeff = of_u8 (s.regs (i * 16 + 15)) in
    record {
      left = (fir_read_l (i + 1) s *ℤ coeff) >>ℤ 6;
      right = (fir_read_r (i + 1) s *ℤ coeff) >>ℤ 6;
    }

-- The step of the history, and the address of the ring.
unfoldable pub echo_begin : Sound → Sound
echo_begin s =
    let next = u8 (s.echo_hist_pos + 1) in
    record s {
      echo_hist_pos = if leb 8 next then 0 else next;
      echo_ptr = u16 (s.esa * 0x100 + s.echo_offset);
    }

-- The FIR steps 0 to 7, with the reads of the ring between them.
unfoldable pub echo_filter : Sound → Sample × Sound
unfolding echo_read_l echo_read_r fir_write_l fir_write_r calc_fir
echo_filter s =
    let s1 = fir_write_l (of_u16 (echo_read_l s)) s in
    let in2 =
      sample_accumulate (sample_accumulate (calc_fir s1 0) (calc_fir s1 1)) (calc_fir s1 2) in
    let s2 = fir_write_r (of_u16 (echo_read_r s1)) s1 in
    let in5 =
      sample_accumulate (sample_accumulate (sample_accumulate in2 (calc_fir s2 3)) (calc_fir s2 4))
        (calc_fir s2 5) in
    (sample_accumulate (sample_accumulate in5 (calc_fir s2 6)) (calc_fir s2 7), s2)

-- The length is read where the ring begins, and the offset goes round.
unfoldable pub echo_advance : Sound → Sound
echo_advance s =
    let length' = if s.echo_offset == 0 then bit_and (s.regs 0x7d) 0xf * 0x800 else s.echo_length in
    let offset' = u16 (s.echo_offset + 4) in
    record s { echo_length = length'; echo_offset = if leb length' offset' then 0 else offset' }

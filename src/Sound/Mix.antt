-- ===== src/Sound/Mix.antt =====
-- `next_sample`, which runs the voices and mixes them, `dsp_restore` and `dsp_reset`.
pub mod Safe
pub mod Bytes
use spu_kit.Base.{
  ℕ, suc, ◌+◌, ◌-◌, ◌<<<◌, bit_and, if◌then◌else◌, not, Option, some, u8, test, copy,
}
use Prim.Native.Nat.{zero}
use spu_kit.Base.Int.{ℤ, pos, ◌+ℤ◌, of_u8}
use spu_kit.Dsp.Counters.{ctr_init, ctr_run}
use spu_kit.Sound.{Sample, Sound}
use spu_kit.Sound.Samples.{
  clamp16, silence, sample_blend, sample_clamp, sample_even, sample_scale, sample_blend_scale8,
}
use spu_kit.Sound.Brr.{and_then}
use spu_kit.Sound.Voice.{voice_run}
use spu_kit.Sound.Echo.{echo_begin, echo_filter, echo_advance, echo_write_l, echo_write_r}

-- KON and KOFF, polled with every other sample.
unfoldable pub poll_keys : Sound → Sound
poll_keys s =
    let toggle' = not s.toggle in
    record s {
      toggle = toggle';
      kon = if toggle' then s.kon else bit_and (s.regs 0x4c) (255 - s.kon);
      koff = if toggle' then s.koff else s.regs 0x5c;
    }

-- The loop over the voices: so many to go, the next one, and what has been mixed.
unfoldable pub run_voices : ℕ → ℕ → Sample → Sample → Sound → Option (Sample × Sample × Sound)
unfolding voice_run
run_voices zero i main_out echo_out s = some (main_out, echo_out, s)
run_voices (suc n) i main_out echo_out s = and_then (voice_run i s) (λ (vsample, s').
    run_voices n (i + 1) (sample_blend main_out vsample)
      (if test s'.eon (1 <<< i) then sample_blend echo_out vsample else echo_out) s')

-- `regs[r] << 4` as an int8_t
abbrev pub volume : Sound → ℕ → ℤ
volume s r = of_u8 (u8 (s.regs r <<< 4))

-- The output of one side: the main volume, the echo volume and the mute flag.
unfoldable pub side : Sound → ℕ → ℕ → ℤ → ℤ → ℤ
unfolding sample_scale
side s mvol evol main_side echo_side =
    if test (s.regs 0x6c) 0x40
    then pos 0
    else sample_scale main_side (volume s mvol) +ℤ sample_scale echo_side (volume s evol)

-- From `--cyc22` on.
unfoldable pub mix : Sample → Sample → Sound → Sample × Sound
unfolding echo_begin echo_filter echo_advance echo_write_l echo_write_r side
mix main_out echo_out s =
    let (echo_in, s1) = echo_filter (echo_begin s) in
    let echo_sample = sample_even (sample_clamp echo_in) in
    let l = side s1 0x0c 0x2c main_out.left echo_sample.left in
    let feedback = sample_even (sample_blend_scale8 echo_out echo_sample (of_u8 (s1.regs 0x0d))) in
    let r = side s1 0x1c 0x3c main_out.right echo_sample.right in
    let s2 = record s1 {
      eon = s1.regs 0x4d;
      echo_enabled = not (test (s1.regs 0x6c) 0x20);
      esa = s1.regs 0x6d;
    } in
    (
      record { left = clamp16 l; right = clamp16 r },
      echo_write_r feedback.right (echo_write_l feedback.left (echo_advance s2)),
    )

unfoldable pub next_sample : Sound → Option (Sample × Sound)
unfolding poll_keys run_voices mix silence
next_sample s =
    let s1 = poll_keys s in
    and_then (run_voices 8 0 silence silence (record s1 { ctr = ctr_run s1.ctr }))
      (λ (main_out, echo_out, s'). some (mix main_out echo_out s'))

-- The register file is copied or cleared, and `init` starts the counters.
unfoldable pub dsp_restore : (ℕ → ℕ) → Sound → Sound
dsp_restore saved s = record s { regs = copy s.regs 0 saved 0 0x80; ctr = ctr_init }

unfoldable pub dsp_reset : Sound → Sound
dsp_reset s = record s { regs = copy s.regs 0 (λ _. 0) 0 0x80; ctr = ctr_init }

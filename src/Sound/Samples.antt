-- ===== src/Sound/Samples.antt =====
-- Arithmetic on samples.
pub mod Clamp
use spu_kit.Base.{ℕ, if◌then◌else◌}
use spu_kit.Base.Int.{ℤ, pos, ◌+ℤ◌, ◌*ℤ◌, ◌>>ℤ◌, ◌==ℤ◌, to_i16, xor_ℤ, even_part}
use spu_kit.Sound.{Sample}

unfoldable pub clamp16 : ℤ → ℤ
unfolding to_i16 xor_ℤ ◌>>ℤ◌
clamp16 val = if to_i16 val ==ℤ val then val else xor_ℤ (val >>ℤ 31) 0x7fff

unfoldable pub silence : Sample
silence = record { left = pos 0; right = pos 0 }

unfoldable pub sample_add : Sample → Sample → Sample
sample_add a b = record { left = a.left +ℤ b.left; right = a.right +ℤ b.right }

unfoldable pub sample_accumulate : Sample → Sample → Sample
sample_accumulate a b = record { left = a.left +ℤ b.left; right = a.right +ℤ b.right }

unfoldable pub sample_clamp : Sample → Sample
unfolding clamp16
sample_clamp a = record { left = clamp16 a.left; right = clamp16 a.right }

unfoldable pub sample_blend : Sample → Sample → Sample
unfolding clamp16
sample_blend a b = record {
  left = clamp16 (a.left +ℤ b.left);
  right = clamp16 (a.right +ℤ b.right);
}

unfoldable pub sample_scale : ℤ → ℤ → ℤ
sample_scale sample scale = sample *ℤ scale >>ℤ 7

unfoldable pub sample_blend_scale8 : Sample → Sample → ℤ → Sample
unfolding clamp16 sample_scale
sample_blend_scale8 a b scale = record {
  left = clamp16 (a.left +ℤ sample_scale b.left scale);
  right = clamp16 (a.right +ℤ sample_scale b.right scale);
}

unfoldable pub pan : ℤ → ℤ → ℤ → Sample
unfolding sample_scale to_i16
pan sample voll volr = record {
  left = to_i16 (sample_scale sample voll);
  right = to_i16 (sample_scale sample volr);
}

-- `left &= ~1` and `right &= ~1`
unfoldable pub sample_even : Sample → Sample
unfolding even_part
sample_even a = record { left = even_part a.left; right = even_part a.right }

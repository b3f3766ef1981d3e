-- ===== src/Sound.antt =====
-- The sound generation of dsp.c: its state.
pub mod Samples
pub mod Envelope
pub mod Brr
pub mod Gauss
pub mod Voice
pub mod Echo
pub mod Mix
use spu_kit.Base.{ℕ, Bool}
use spu_kit.Dsp.Counters.{RateCounters}
use spu_kit.Base.Int.{ℤ}

-- `env_state_t`
pub data EnvMode : Type 0 where
  env_release env_attack env_decay env_sustain : EnvMode

-- `struct vstate`. `interp_pos` is an `int` that no assignment makes negative.
pub record VState : Type 0 where
  pub interp_pos : ℕ
  pub env : ℤ
  pub srcn_ptr : ℕ
  pub next_brr_addr : ℕ
  pub brr_addr : ℕ
  pub pitch : ℕ
  pub env_mode : EnvMode
  pub brr_hdr : ℕ
  pub brr_off : ℕ
  pub buf_pos : ℕ
  pub attack_delay : ℕ
  pub buf : ℕ → ℤ

-- `struct sample` and `struct fat_sample`; the parts of the first are of 16 bits.
pub record Sample : Type 0 where
  pub left : ℤ
  pub right : ℤ

-- The static variables of dsp.c, and `aram`.
pub record Sound : Type 0 where
  pub regs : ℕ → ℕ
  pub aram : ℕ → ℕ
  pub vstate : ℕ → VState
  pub ctr : RateCounters
  pub kon : ℕ
  pub koff : ℕ
  pub toggle : Bool
  pub esa : ℕ
  pub eon : ℕ
  pub echo_enabled : Bool
  pub echo_offset : ℕ
  pub echo_length : ℕ
  pub echo_ptr : ℕ
  pub echo_hist : ℕ → Sample
  pub echo_hist_pos : ℕ

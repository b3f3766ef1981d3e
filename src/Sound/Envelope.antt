-- ===== src/Sound/Envelope.antt =====
-- The envelopes of the voices.
pub mod Ranges
use spu_kit.Base.{
  ℕ, ◌+◌, ◌*◌, ◌>>>◌, bit_and, ltb, ◌==◌, if◌then◌else◌, ◌&&◌, Bool, true, false, u8, test,
}
use spu_kit.Base.Int.{ℤ, pos, negsuc, ◌+ℤ◌, ◌-ℤ◌, ◌>>ℤ◌, ◌==ℤ◌, is_negative}
use spu_kit.Dsp.Counters.{RateCounters}
use spu_kit.Dsp.Rates.{ctr_read}
use spu_kit.Sound.{EnvMode, env_release, env_attack, env_decay, env_sustain, VState}

pub record Envelope : Type 0 where
  pub env : ℤ
  pub rate : ℕ

-- `env - ((env >> 8) + 1)`
unfoldable pub fall : ℤ → ℤ
unfolding ◌+ℤ◌ ◌-ℤ◌ ◌>>ℤ◌
fall env = env -ℤ ((env >>ℤ 8) +ℤ pos 1)

-- By the mode, ENV_RELEASE being unreachable.
unfoldable pub run_adsr_env : EnvMode → ℤ → ℕ → ℕ → Envelope
unfolding fall
run_adsr_env env_attack env adsr1 adsr2 =
    let r = bit_and adsr1 0xf * 2 + 1 in
    record { env = env +ℤ (if r == 0x1f then pos 0x400 else pos 0x20); rate = r }
run_adsr_env env_sustain env adsr1 adsr2 = record { env = fall env; rate = bit_and adsr2 0x1f }
run_adsr_env env_decay env adsr1 adsr2 = record {
  env = fall env;
  rate = 0x10 + bit_and (adsr1 >>> 3) 0xe;
}
run_adsr_env env_release env adsr1 adsr2 = record { env = env; rate = 0 }

unfoldable pub run_gain_env : ℤ → ℕ → Envelope
unfolding fall
run_gain_env env gain =
    let mode = bit_and (gain >>> 5) 0x03 in
    if test gain 0x80
    then record {
      env = if mode == 0 then env -ℤ pos 0x20 else if mode == 1 then fall env else env +ℤ pos 0x20;
      rate = bit_and gain 0x1f;
    }
    else record { env = pos (gain * 0x10); rate = 31 }

unfoldable pub envelope_release : ℤ → ℤ
envelope_release (pos n) = if ltb 8 n then pos n -ℤ pos 8 else pos 0
envelope_release (negsuc n) = pos 0

-- `env_mode == mode`
abbrev pub is_decay : EnvMode → Bool
is_decay env_decay = true
is_decay _ = false

abbrev pub is_attack : EnvMode → Bool
is_attack env_attack = true
is_attack _ = false

abbrev pub is_release : EnvMode → Bool
is_release env_release = true
is_release _ = false

-- `(unsigned)env > 0x7ff`
abbrev pub outside : ℤ → Bool
outside (pos n) = ltb 0x7ff n
outside (negsuc n) = true

-- The two triggers, from a new value and the level of the sustain.
unfoldable pub trigger_sustain : ℤ → ℕ → EnvMode → EnvMode
unfolding ◌>>ℤ◌
trigger_sustain env sustain_target mode =
    if (env >>ℤ 8 ==ℤ pos sustain_target) && is_decay mode then env_sustain else mode

unfoldable pub trigger_decay : ℤ → EnvMode → EnvMode
trigger_decay env mode = if outside env && is_attack mode then env_decay else mode

unfoldable pub limit_env : ℤ → ℤ
limit_env env = if outside env then (if is_negative env then pos 0 else pos 0x7ff) else env

-- From the triggers on: the envelope and its mode.
unfoldable pub apply_envelope : RateCounters → ℕ → Envelope → ℤ → EnvMode → ℤ × EnvMode
unfolding trigger_sustain trigger_decay limit_env ctr_read
apply_envelope c sustain_target ret env mode = (
  if ctr_read ret.rate c then limit_env ret.env else env,
  trigger_decay ret.env (trigger_sustain ret.env sustain_target mode),
)

unfoldable pub next_envelope : RateCounters → ℤ → EnvMode → ℕ → ℕ → ℕ → ℤ × EnvMode
unfolding envelope_release run_adsr_env run_gain_env apply_envelope
next_envelope c env mode adsr1 adsr2 gain =
    if is_release mode
    then (envelope_release env, mode)
    else if test adsr1 0x80
    then apply_envelope c (adsr2 >>> 5) (run_adsr_env mode env adsr1 adsr2) env mode
    else apply_envelope c (gain >>> 5) (run_gain_env env gain) env mode

unfoldable pub run_envelope : RateCounters → VState → ℕ → ℕ → ℕ → VState
unfolding next_envelope
run_envelope c st adsr1 adsr2 gain =
    let (env', mode) = next_envelope c st.env st.env_mode adsr1 adsr2 gain in
    record st { env = env'; env_mode = mode }

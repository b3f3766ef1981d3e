-- ===== src/Tests/Playing.antt =====
-- The DSP as it starts, one voice in an attack, and the theorems about the sound on them.
use spu_kit.Base.{◌*◌, false, ◌-◌, ◌≡◌, true, some, none, inl, refl}
use spu_kit.Sound.Envelope.{run_envelope}
use spu_kit.Sound.Mix.{next_sample}
use spu_kit.Dsp.Counters.{ctr_init}
use spu_kit.Sound.Samples.Clamp.{clamp16-nearest}
use spu_kit.Sound.Samples.{silence, clamp16}
use spu_kit.Sound.Brr.{brr_sample4}
use spu_kit.Base.{ℕ, some, refl, none, inl, arith, Option}
use spu_kit.Sound.Echo.Ring.{InRing}
use spu_kit.Sound.Envelope.Ranges.{
  run_envelopes-release, run_envelopes, run_envelope-InRange, InRange,
}
use spu_kit.Sound.Brr.Safe.{IsSane, Gives}
use spu_kit.Sound.Mix.Safe.{next_sample-Gives, AllSane}
use spu_kit.Base.Int.{ℤ, pos, negsuc}
use spu_kit.Sound.{VState, Sound, env_release, env_attack}

abbrev pub still : VState
still = record {
  interp_pos = 0;
  env = pos 0;
  srcn_ptr = 0;
  next_brr_addr = 0;
  brr_addr = 0;
  pitch = 0;
  env_mode = env_release;
  brr_hdr = 0;
  brr_off = 0;
  buf_pos = 0;
  attack_delay = 0;
  buf = λ i. pos 0;
}

-- All registers hold 1, so that voice 0 is keyed on and has an echo.
abbrev pub starting : Sound
starting = record {
  regs = λ i. 1;
  aram = λ i. 0x12;
  vstate = λ i. still;
  ctr = ctr_init;
  kon = 0;
  koff = 0;
  toggle = true;
  esa = 0;
  eon = 0;
  echo_enabled = false;
  echo_offset = 0;
  echo_length = 0;
  echo_ptr = 0;
  echo_hist = λ i. silence;
  echo_hist_pos = 0;
}

still-IsSane : IsSane still
still-IsSane = record {
  in_range = omega arith;
  aligned = refl;
  inside = omega arith;
  moved = omega arith;
  block = omega arith;
}

starting-InRing : InRing starting
starting-InRing = record { whole = refl; before_end = inl refl; short = omega arith }

next_sample-Gives_example : Gives (λ r. AllSane r.1 × InRing r.1) (next_sample starting)
next_sample-Gives_example =
    next_sample-Gives starting (λ j. still-IsSane) starting-InRing (λ j h. omega arith)

-- Two samples, the next position and the next offset.
abbrev seen : Option VState → Option (ℤ × ℤ × ℕ × ℕ)
seen none = none
seen (some st) = some (st.buf 0, st.buf 1, st.buf_pos, st.brr_off)

-- Two bytes of a block with the first filter.
brr_sample4_runs :
    seen (brr_sample4 (λ i. 0x7f) (record still { brr_hdr = 0x40; brr_off = 1 }))
    ≡ some (pos 56, negsuc 7, 4, 3)
unfolding brr_sample4
brr_sample4_runs = refl

clamp16-nearest_example : clamp16 (negsuc 40000) ≡ negsuc 0x7fff
clamp16-nearest_example = clamp16-nearest (negsuc 40000) (omega arith)

abbrev attacking : VState
attacking = record still { env = pos 0x7f0; env_mode = env_attack }

run_envelope-InRange_example : InRange (run_envelope ctr_init attacking 0x8f 0 0).env
run_envelope-InRange_example = run_envelope-InRange ctr_init attacking 0x8f 0 0 (omega arith)

run_envelopes-release_example :
    ((run_envelopes
        (λ _. ctr_init)
        (λ _. 0)
        (λ _. 0)
        (λ _. 0)
        3
        (record still { env = pos 20 })).env
      ≡ pos (20 - 8 * 3))
    × ((run_envelopes
          (λ _. ctr_init)
          (λ _. 0)
          (λ _. 0)
          (λ _. 0)
          3
          (record still { env = pos 20 })).env_mode
        ≡ env_release)
run_envelopes-release_example =
    run_envelopes-release (λ _. ctr_init) (λ _. 0) (λ _. 0) (λ _. 0) 3 20
      (record still { env = pos 20 }) refl refl

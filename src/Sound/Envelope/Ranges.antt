-- ===== src/Sound/Envelope/Ranges.antt =====
-- The range of an envelope, and the end of a release.
use spu_kit.Base.Int.{pos, negsuc, ◌-ℤ◌, ℤ}
use spu_kit.Dsp.Rates.{ctr_read}
use spu_kit.Dsp.Counters.{RateCounters}
use spu_kit.Sound.Envelope.{
  next_envelope, run_gain_env, run_envelope, run_adsr_env, limit_env, is_release, envelope_release,
  apply_envelope, Envelope,
}
use spu_kit.Base.{
  ◌∙◌, ◌*◌, ◌<◌, ◌-◌, ◌≡◌, if◌then◌else◌, ◌>>>◌, ℕ, true, test, refl, inr, inl, false, arith, ap,
  Bool-cases, Bool,
}
use Prim.Native.Nat.{zero, suc}
use spu_kit.Sound.{EnvMode, VState, env_release}

-- 0 to 0x7ff
abbrev pub InRange : ℤ → Type 0
InRange (pos n) = n < 0x800
InRange (negsuc n) = ⊥

limit_env-InRange : (v : ℤ) → InRange (limit_env v)
unfolding limit_env
limit_env-InRange (pos n) = ground arith
limit_env-InRange (negsuc n) = omega arith

envelope_release-InRange : (v : ℤ) → InRange v → InRange (envelope_release v)
unfolding envelope_release ◌-ℤ◌
envelope_release-InRange (pos n) h = ground arith
envelope_release-InRange (negsuc n) h = absurd h

pub either-InRange : (b : Bool) (v w : ℤ) → InRange v → InRange w → InRange (if b then v else w)
either-InRange true v w p q = p
either-InRange false v w p q = q

apply-InRange :
    (c : RateCounters) (level : ℕ) (ret : Envelope) (env : ℤ) (mode : EnvMode)
    → InRange env
    → InRange (apply_envelope c level ret env mode).0
unfolding apply_envelope
apply-InRange c level ret env mode h =
    either-InRange (ctr_read ret.rate c) (limit_env ret.env) env (limit_env-InRange ret.env) h

next-InRange :
    (c : RateCounters) (env : ℤ) (mode : EnvMode) (adsr1 adsr2 gain : ℕ)
    → InRange env
    → InRange (next_envelope c env mode adsr1 adsr2 gain).0
unfolding next_envelope
next-InRange c env mode adsr1 adsr2 gain h = elim (Bool-cases (is_release mode)) [
  | inl r ↦ rw r (envelope_release-InRange env h)
  | inr r ↦ rw r (elim (Bool-cases (test adsr1 0x80)) [
    | inl t ↦ rw t (apply-InRange c (adsr2 >>> 5) (run_adsr_env mode env adsr1 adsr2) env mode h)
    | inr t ↦ rw t (apply-InRange c (gain >>> 5) (run_gain_env env gain) env mode h)
  ])
]

-- In every mode, for all values of the registers and the counters, run_envelope keeps the envelope
-- between 0 and 0x7ff.
pub run_envelope-InRange :
    (c : RateCounters) (st : VState) (adsr1 adsr2 gain : ℕ)
    → InRange st.env
    → InRange (run_envelope c st adsr1 adsr2 gain).env
unfolding run_envelope
run_envelope-InRange c st adsr1 adsr2 gain h = next-InRange c st.env st.env_mode adsr1 adsr2 gain h

-- `n` calls of run_envelope, with what the registers and the counters hold at each.
unfoldable pub run_envelopes :
    (ℕ → RateCounters) → (ℕ → ℕ) → (ℕ → ℕ) → (ℕ → ℕ) → ℕ → VState → VState
run_envelopes c adsr1 adsr2 gain zero st = st
run_envelopes c adsr1 adsr2 gain (suc n) st =
    run_envelopes c adsr1 adsr2 gain n (run_envelope (c n) st (adsr1 n) (adsr2 n) (gain n))

released :
    (c : RateCounters) (st : VState) (adsr1 adsr2 gain v : ℕ)
    → st.env_mode ≡ env_release
    → st.env ≡ pos v
    → run_envelope c st adsr1 adsr2 gain ≡ record st { env = pos (v - 8) }
unfolding run_envelope envelope_release ◌-ℤ◌
released c st adsr1 adsr2 gain v e h = rw (e, h) (ground arith)

-- A release falls by 8 with every call of run_envelope down to 0, where it stays, and is not left,
-- whatever the registers and the counters hold at each call.
pub run_envelopes-release :
    (c : ℕ → RateCounters) (adsr1 adsr2 gain : ℕ → ℕ) (n v : ℕ) (st : VState)
    → st.env_mode ≡ env_release
    → st.env ≡ pos v
    → ((run_envelopes c adsr1 adsr2 gain n st).env ≡ pos (v - 8 * n))
      × ((run_envelopes c adsr1 adsr2 gain n st).env_mode ≡ env_release)
unfolding run_envelopes
run_envelopes-release c adsr1 adsr2 gain zero v st e h = (h ∙ ap pos (omega arith), e)
run_envelopes-release c adsr1 adsr2 gain (suc n) v st e h =
    let next = released (c n) st (adsr1 n) (adsr2 n) (gain n) v e h in
    let rest =
      run_envelopes-release c adsr1 adsr2 gain n (v - 8) (record st { env = pos (v - 8) }) e refl in
    let step : v - 8 - 8 * n ≡ v - 8 * suc n = omega arith in
    rw (next, run_envelopes) (rest.0 ∙ ap pos step, rest.1)

-- ===== src/Sound/Voice/Sane.antt =====
-- The voices between two samples.
use spu_kit.Sound.Envelope.{is_release, run_envelope}
use spu_kit.Dsp.Counters.{RateCounters}
use spu_kit.Sound.Envelope.Ranges.{InRange, run_envelope-InRange, either-InRange}
use spu_kit.Sound.Voice.{
  vreg, voice_run, voice_envelope, voice_tail, voice_step, voice_decode, next_block, voice_sample,
  voice_keys, voice_fetch, voice_attack,
}
use spu_kit.Sound.Brr.{brr_sample4, interpolate}
use spu_kit.Sound.{Sample, VState, Sound}
use spu_kit.Base.{
  ◌<<<◌, ◌&&◌, ◌≡◌, ◌%◌, update, refl, leb, ◌||◌, ◌<◌, ◌+◌, ◌≤◌, ◌==◌, ℕ, test, inr, inl, bit_and,
  arith, Bool-cases,
}
use spu_kit.Base.Int.{ℤ, ◌==ℤ◌, pos}
use spu_kit.Sound.Brr.Safe.{brr_sample4-Gives, interpolate-Gives, IsSane, Gives, Gives-then}

attack-IsSane : (st : VState) → IsSane st → IsSane (voice_attack st)
unfolding voice_attack
attack-IsSane st v = elim (Bool-cases (st.attack_delay == 0)) [
  | inl z ↦ rw z v
  | inr z ↦ rw z (record {
    in_range = omega arith;
    aligned = ground (arith, v.aligned);
    inside = ground (arith, v.inside);
    moved = ground arith;
    block = ground (arith, v.block);
  })
]

fetch-IsSane : (s : Sound) (i : ℕ) (st : VState) → IsSane st → IsSane (voice_fetch s i st)
unfolding voice_fetch
fetch-IsSane s i st v = record {
  in_range = v.in_range;
  aligned = v.aligned;
  inside = v.inside;
  moved = v.moved;
  block = v.block;
}

keys-IsSane : (s : Sound) (bit : ℕ) (st : VState) → IsSane st → IsSane (voice_keys s bit st)
unfolding voice_keys
keys-IsSane s bit st v = record {
  in_range =
      either-InRange (test (s.regs 0x6c) 0x80 || (bit_and st.brr_hdr 3 == 1)) (pos 0) st.env
        (omega arith) v.in_range;
  aligned = v.aligned;
  inside = v.inside;
  moved = v.moved;
  block = v.block;
}

-- The block from which a voice is about to decode lies inside of the memory.
abbrev ReadsInside : VState → Type 0
ReadsInside st = 0x4000 ≤ st.interp_pos → st.brr_addr + 9 < 0x10000

-- The first sample of an attack, which goes to another block, decodes nothing.
attack-ReadsInside :
    (s : Sound) (i : ℕ) (st : VState)
    → st.brr_addr + 9 < 0x10000
    → ReadsInside (voice_attack (voice_fetch s i st))
unfolding voice_attack voice_fetch
attack-ReadsInside s i st h = elim (Bool-cases (st.attack_delay == 0)) [
  | inl z ↦ rw (z, voice_attack) (λ _. h)
  | inr z ↦ rw (z, voice_attack) (λ l. ground arith)
]

envelope-IsSane :
    (c : RateCounters) (st : VState) (adsr1 adsr2 gain : ℕ)
    → IsSane st
    → IsSane (run_envelope c st adsr1 adsr2 gain)
unfolding run_envelope
envelope-IsSane c st adsr1 adsr2 gain v = record {
  in_range = run_envelope-InRange c st adsr1 adsr2 gain v.in_range;
  aligned = v.aligned;
  inside = v.inside;
  moved = v.moved;
  block = v.block;
}

sample-Gives :
    (regs : ℕ → ℕ) (i bit : ℕ) (st : VState)
    → IsSane st
    → Gives (λ _. Unit {0}) (voice_sample regs i bit st)
unfolding voice_sample
sample-Gives regs i bit st v = elim (Bool-cases (st.env ==ℤ pos 0)) [
  | inl z ↦ rw z tt
  | inr z ↦ rw z (elim (Bool-cases (test (regs 0x3d) bit)) [
    | inl n ↦ rw n tt
    | inr n ↦ rw n (
        Gives-then _ _ (interpolate st) _
          (interpolate-Gives st (omega (arith, v.aligned, v.inside))) (λ _ _. tt))
  ])
]

-- A step of voice `i`: the voice is sane, and of the rest of the state only registers have changed.
abbrev pub Steps : ℕ → Sound → Sample × Sound → Type 0
Steps i s (out, s') =
    (st : VState) × IsSane st × (s' ≡ record s { vstate = update s.vstate i st; regs = s'.regs })

block-IsSane :
    (regs : ℕ → ℕ) (bit : ℕ) (st : VState)
    → InRange st.env
    → st.buf_pos % 4 ≡ 0
    → st.buf_pos < 12
    → st.interp_pos < 0x8000
    → IsSane (next_block regs bit st).0
unfolding next_block
block-IsSane regs bit st e a b m = elim (Bool-cases (leb 9 st.brr_off)) [
  | inl l ↦ rw l (record { in_range = e; aligned = a; inside = b; moved = m; block = omega arith })
  | inr l ↦ rw l (record { in_range = e; aligned = a; inside = b; moved = m; block = ground arith })
]

decode-Gives :
    (aram regs : ℕ → ℕ) (bit : ℕ) (st : VState)
    → IsSane st
    → ReadsInside st
    → Gives (λ r. IsSane r.0) (voice_decode aram regs bit st)
unfolding voice_decode
decode-Gives aram regs bit st v h = elim (Bool-cases (leb 0x4000 st.interp_pos)) [
  | inl d ↦
      rw (d, voice_decode)
        (Gives-then _ _ (brr_sample4 aram st) _ (brr_sample4-Gives aram st v (h (ground arith)))
          (λ st' (e, a, b, m, o). block-IsSane regs bit st' e a b m))
  | inr d ↦ rw (d, voice_decode) v
]

step-IsSane : (regs : ℕ → ℕ) (bit : ℕ) (st : VState) → IsSane st → IsSane (voice_step regs bit st).0
unfolding voice_step
step-IsSane regs bit st v = record {
  in_range = v.in_range;
  aligned = v.aligned;
  inside = v.inside;
  moved = ground arith;
  block = v.block;
}

tail-Gives :
    (i bit : ℕ) (sample : ℤ) (st : VState) (s : Sound)
    → IsSane st
    → ReadsInside st
    → Gives (Steps i s) (voice_tail i bit sample (st, s))
unfolding voice_tail
tail-Gives i bit sample st s v h =
    Gives-then _ _ (voice_decode s.aram s.regs bit st) _ (decode-Gives s.aram s.regs bit st v h)
      (λ (st', regs') v'. ((voice_step regs' bit st').0, step-IsSane regs' bit st' v', refl))

envelope-Gives :
    (i bit : ℕ) (sample : ℤ) (st : VState) (s : Sound)
    → IsSane st
    → ReadsInside st
    → Gives (Steps i s) (voice_envelope i bit sample (st, s))
unfolding voice_envelope
envelope-Gives i bit sample st s v h =
    let next = run_envelope s.ctr st (vreg s.regs i 5) (vreg s.regs i 6) (vreg s.regs i 7) in
    let v' : IsSane next =
      envelope-IsSane s.ctr st (vreg s.regs i 5) (vreg s.regs i 6) (vreg s.regs i 7) v in
    elim (Bool-cases (st.attack_delay == 0)) [
      | inl z ↦
          rw (z, voice_envelope)
            (elim (Bool-cases (is_release next.env_mode && (next.env ==ℤ pos 0))) [
              | inl q ↦ rw q (next, v', refl)
              | inr q ↦ rw q (tail-Gives i bit sample next s v' h)
            ])
      | inr z ↦ rw (z, voice_envelope) (tail-Gives i bit sample st s v h)
    ]

-- A voice in a sane state, whose block lies inside of the memory, runs for a sample without a failed
-- assertion or an access outside of an array. Its state is sane again, and of the rest of the state
-- only registers have changed.
pub voice_run-Gives :
    (i : ℕ) (s : Sound)
    → IsSane (s.vstate i)
    → (s.vstate i).brr_addr + 9 < 0x10000
    → Gives (Steps i s) (voice_run i s)
unfolding voice_run
voice_run-Gives i s v h =
    let st : VState = voice_attack (voice_fetch s i (s.vstate i)) in
    let sane : IsSane st =
      attack-IsSane (voice_fetch s i (s.vstate i)) (fetch-IsSane s i (s.vstate i) v) in
    Gives-then _ _ (voice_sample s.regs i (1 <<< i) st) _ (sample-Gives s.regs i (1 <<< i) st sane)
      (λ (sample, regs') _.
        envelope-Gives i (1 <<< i) sample (voice_keys (record s { regs = regs' }) (1 <<< i) st)
          (record s { regs = regs' }) (keys-IsSane (record s { regs = regs' }) (1 <<< i) st sane)
          (attack-ReadsInside s i (s.vstate i) h))

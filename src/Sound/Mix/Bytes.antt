-- ===== src/Sound/Mix/Bytes.antt =====
-- A sample leaves bytes in the registers and in the memory.
use Prim.Native.Nat.{zero, suc}
use spu_kit.Base.{
  each-lt, ℕ, ◌+◌, ◌*◌, ◌-◌, ◌<◌, ◌==◌, ◌<<<◌, ◌>>>◌, ◌&&◌, arith, leb, test, u16, update, IsByte,
  Bool-cases, inl, inr, Option, none, some, if◌then◌else◌,
}
use spu_kit.Base.Bits.{or-lt, and-lt, and_mask}
use spu_kit.Base.Int.{ℤ, pos, negsuc, to_u8, to_u16, ◌==ℤ◌}
use spu_kit.Dsp.Counters.{ctr_run}
use spu_kit.Machine.Valid.{update-bytes}
use spu_kit.Sound.{Sound, Sample, VState}
use spu_kit.Sound.Samples.{silence, sample_blend}
use spu_kit.Sound.Brr.{and_then, interpolate, brr_sample4}
use spu_kit.Sound.Envelope.{is_release, run_envelope}
use spu_kit.Sound.Voice.{
  show, enveloped, voice_sample, next_block, voice_decode, voice_step, voice_tail, voice_envelope,
  voice_keys, voice_fetch, voice_attack, voice_run, vreg, write_aram_word,
}
use spu_kit.Sound.Echo.{echo_write_l, echo_write_r}
use spu_kit.Sound.Mix.{run_voices, mix, next_sample, poll_keys}

abbrev pub AllBytes : (ℕ → ℕ) → Type 0
AllBytes f = (j : ℕ) → IsByte (f j)

-- What holds of a result, where there is one.
abbrev pub If {ℓ} : {A : Type ℓ} → (A → Type 0) → Option A → Type 0
If P none = Unit
If P (some a) = P a

If-then {ℓ κ} :
    {A : Type ℓ} {B : Type κ} (P : A → Type 0) (Q : B → Type 0) (m : Option A) (f : A → Option B)
    → If P m
    → ((a : A) → P a → If Q (f a))
    → If Q (and_then m f)
If-then P Q none f g h = tt
If-then P Q (some a) f g h = h a g

If-any {ℓ} : {A : Type ℓ} (m : Option A) → If (λ _. Unit {0}) m
If-any none = tt
If-any (some a) = tt

pub record HoldsBytes (s : Sound) : Type 0 where
  pub regs_bytes : AllBytes s.regs
  pub aram_bytes : AllBytes s.aram

to_u8-IsByte : (v : ℤ) → IsByte (to_u8 v)
unfolding to_u8
to_u8-IsByte (pos n) = omega arith
to_u8-IsByte (negsuc n) = omega arith

to_u16-lt : (v : ℤ) → to_u16 v < 0x10000
unfolding to_u16
to_u16-lt (pos n) = omega arith
to_u16-lt (negsuc n) = omega arith

show-AllBytes :
    (regs : ℕ → ℕ) (i outx envx : ℕ)
    → AllBytes regs
    → IsByte outx
    → IsByte envx
    → AllBytes (show regs i outx envx)
unfolding show
show-AllBytes regs i outx envx h o e =
    update-bytes (update regs (i * 16 + 9) outx) (i * 16 + 8) envx
      (update-bytes regs (i * 16 + 9) outx h o) e

enveloped-AllBytes :
    (regs : ℕ → ℕ) (i : ℕ) (env sample : ℤ)
    → AllBytes regs
    → AllBytes (enveloped regs i env sample).1
unfolding enveloped
enveloped-AllBytes regs i env sample h =
    show-AllBytes regs i _ _ h (to_u8-IsByte _) (to_u8-IsByte _)

sample-AllBytes :
    (regs : ℕ → ℕ) (i bit : ℕ) (st : VState)
    → AllBytes regs
    → If (λ r. AllBytes r.1) (voice_sample regs i bit st)
unfolding voice_sample
sample-AllBytes regs i bit st h = elim (Bool-cases (st.env ==ℤ pos 0)) [
  | inl z ↦ rw z (show-AllBytes regs i 0 0 h (omega arith) (omega arith))
  | inr z ↦ rw z (elim (Bool-cases (test (regs 0x3d) bit)) [
    | inl n ↦ rw n (enveloped-AllBytes regs i st.env (pos 0) h)
    | inr n ↦ rw n (
        If-then (λ _. Unit {0}) _ (interpolate st) _ (If-any (interpolate st))
          (λ v _. enveloped-AllBytes regs i st.env _ h))
  ])
]

block-AllBytes :
    (regs : ℕ → ℕ) (bit : ℕ) (st : VState)
    → AllBytes regs
    → IsByte bit
    → AllBytes (next_block regs bit st).1
unfolding next_block
block-AllBytes regs bit st h b = elim (Bool-cases (leb 9 st.brr_off)) [
  | inl l ↦ rw l (elim (Bool-cases (test st.brr_hdr 1)) [
    | inl e ↦ rw e (update-bytes regs 0x7c _ h (or-lt 8 (regs 0x7c) bit (h 0x7c) b))
    | inr e ↦ rw e h
  ])
  | inr l ↦ rw l h
]

decode-AllBytes :
    (aram regs : ℕ → ℕ) (bit : ℕ) (st : VState)
    → AllBytes regs
    → IsByte bit
    → If (λ r. AllBytes r.1) (voice_decode aram regs bit st)
unfolding voice_decode
decode-AllBytes aram regs bit st h b = elim (Bool-cases (leb 0x4000 st.interp_pos)) [
  | inl d ↦
      rw (d, voice_decode)
        (If-then (λ _. Unit {0}) _ (brr_sample4 aram st) _ (If-any (brr_sample4 aram st))
          (λ st' _. block-AllBytes regs bit st' h b))
  | inr d ↦ rw (d, voice_decode) h
]

step-AllBytes :
    (regs : ℕ → ℕ) (bit : ℕ) (st : VState) → AllBytes regs → AllBytes (voice_step regs bit st).1
unfolding voice_step
step-AllBytes regs bit st h = elim (Bool-cases (st.attack_delay == 5)) [
  | inl e ↦ rw e (update-bytes regs 0x7c _ h (and-lt 8 (regs 0x7c) (255 - bit) (h 0x7c)))
  | inr e ↦ rw e h
]

tail-HoldsBytes :
    (i bit : ℕ) (sample : ℤ) (st : VState) (s : Sound)
    → HoldsBytes s
    → IsByte bit
    → If (λ r. HoldsBytes r.1) (voice_tail i bit sample (st, s))
unfolding voice_tail
tail-HoldsBytes i bit sample st s h b =
    If-then _ _ (voice_decode s.aram s.regs bit st) _
      (decode-AllBytes s.aram s.regs bit st h.regs_bytes b)
      (λ (st', regs') h'. record {
        regs_bytes = step-AllBytes regs' bit st' h';
        aram_bytes = h.aram_bytes;
      })

envelope-HoldsBytes :
    (i bit : ℕ) (sample : ℤ) (st : VState) (s : Sound)
    → HoldsBytes s
    → IsByte bit
    → If (λ r. HoldsBytes r.1) (voice_envelope i bit sample (st, s))
unfolding voice_envelope
envelope-HoldsBytes i bit sample st s h b =
    let next = run_envelope s.ctr st (vreg s.regs i 5) (vreg s.regs i 6) (vreg s.regs i 7) in
    elim (Bool-cases (st.attack_delay == 0)) [
      | inl z ↦
          rw (z, voice_envelope)
            (elim (Bool-cases (is_release next.env_mode && (next.env ==ℤ pos 0))) [
              | inl q ↦ rw q (record { regs_bytes = h.regs_bytes; aram_bytes = h.aram_bytes })
              | inr q ↦ rw q (tail-HoldsBytes i bit sample next s h b)
            ])
      | inr z ↦ rw (z, voice_envelope) (tail-HoldsBytes i bit sample st s h b)
    ]

voice_bit : (i : ℕ) → i < 8 → IsByte (1 <<< i)
voice_bit =
    each-lt (λ i. IsByte (1 <<< i)) 8
      (
        omega arith,
        (
          omega arith,
          (
            omega arith,
            (omega arith, (omega arith, (omega arith, (omega arith, (omega arith, tt))))),
          ),
        ),
      )

run-HoldsBytes :
    (i : ℕ) (s : Sound) → HoldsBytes s → i < 8 → If (λ r. HoldsBytes r.1) (voice_run i s)
unfolding voice_run
run-HoldsBytes i s h l =
    let st : VState = voice_attack (voice_fetch s i (s.vstate i)) in
    If-then _ _ (voice_sample s.regs i (1 <<< i) st) _
      (sample-AllBytes s.regs i (1 <<< i) st h.regs_bytes)
      (λ (sample, regs') h'.
        envelope-HoldsBytes i (1 <<< i) sample (voice_keys (record s { regs = regs' }) (1 <<< i) st)
          (record s { regs = regs' }) (record { regs_bytes = h'; aram_bytes = h.aram_bytes })
          (voice_bit i l))

voices-HoldsBytes :
    (n i : ℕ) (main_out echo_out : Sample) (s : Sound)
    → HoldsBytes s
    → i + n < 9
    → If (λ (m, e, s'). HoldsBytes s') (run_voices n i main_out echo_out s)
unfolding run_voices
voices-HoldsBytes zero i main_out echo_out s h l = h
voices-HoldsBytes (suc n) i main_out echo_out s h l =
    If-then _ _ (voice_run i s) _ (run-HoldsBytes i s h (omega arith)) (λ (vsample, s') h'.
      voices-HoldsBytes n (i + 1) (sample_blend main_out vsample)
        (if test s'.eon (1 <<< i) then sample_blend echo_out vsample else echo_out) s' h'
        (omega arith))

word-AllBytes :
    (aram : ℕ → ℕ) (addr : ℕ) (v : ℤ)
    → AllBytes aram
    → AllBytes (write_aram_word aram addr (to_u16 v))
unfolding write_aram_word
word-AllBytes aram addr v h =
    update-bytes (update aram (u16 (addr + 1)) (to_u16 v >>> 8)) (u16 (addr + 0)) _
      (update-bytes aram (u16 (addr + 1)) _ h (omega (arith, to_u16-lt v)))
      (omega (arith, and_mask 8 (to_u16 v)))

write_l-HoldsBytes : (v : ℤ) (s : Sound) → HoldsBytes s → HoldsBytes (echo_write_l v s)
unfolding echo_write_l
write_l-HoldsBytes v s h = elim (Bool-cases s.echo_enabled) [
  | inl e ↦ rw e (record {
    regs_bytes = h.regs_bytes;
    aram_bytes = word-AllBytes s.aram (u16 (s.echo_ptr + 0)) v h.aram_bytes;
  })
  | inr e ↦ rw e (record { regs_bytes = h.regs_bytes; aram_bytes = h.aram_bytes })
]

write_r-HoldsBytes : (v : ℤ) (s : Sound) → HoldsBytes s → HoldsBytes (echo_write_r v s)
unfolding echo_write_r
write_r-HoldsBytes v s h = elim (Bool-cases s.echo_enabled) [
  | inl e ↦ rw e (record {
    regs_bytes = h.regs_bytes;
    aram_bytes = word-AllBytes s.aram (u16 (s.echo_ptr + 2)) v h.aram_bytes;
  })
  | inr e ↦ rw e (record { regs_bytes = h.regs_bytes; aram_bytes = h.aram_bytes })
]

mix-HoldsBytes :
    (main_out echo_out : Sample) (s : Sound) → HoldsBytes s → HoldsBytes (mix main_out echo_out s).1
unfolding mix
mix-HoldsBytes main_out echo_out s h =
    write_r-HoldsBytes _ _
      (write_l-HoldsBytes _ _ (record { regs_bytes = h.regs_bytes; aram_bytes = h.aram_bytes }))

-- The registers of the DSP and the memory hold bytes again after a sample.
pub next_sample-HoldsBytes : (s : Sound) → HoldsBytes s → If (λ r. HoldsBytes r.1) (next_sample s)
unfolding next_sample poll_keys
next_sample-HoldsBytes s h =
    let s0 : Sound = poll_keys s in
    let s1 : Sound = record s0 { ctr = ctr_run s0.ctr } in
    If-then (λ (m, e, s'). HoldsBytes s') (λ r. HoldsBytes r.1) (run_voices 8 0 silence silence s1)
      _
      (voices-HoldsBytes 8 0 silence silence s1
        (record { regs_bytes = h.regs_bytes; aram_bytes = h.aram_bytes }) (omega arith))
      (λ (main_out, echo_out, s') h'. mix-HoldsBytes main_out echo_out s' h')

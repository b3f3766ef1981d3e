-- ===== src/Sound/Voice.antt =====
-- `voice_run`, by its parts in the order of the source.
pub mod Sane
use spu_kit.Base.{
  ℕ, ◌+◌, ◌-◌, ◌*◌, ◌<<<◌, ◌>>>◌, bit_and, bit_or, ltb, leb, ◌==◌, if◌then◌else◌, not, ◌&&◌, ◌||◌,
  Bool, true, false, Option, none, some, u8, u16, test, update,
}
use spu_kit.Base.Int.{ℤ, pos, ◌*ℤ◌, ◌>>ℤ◌, ◌==ℤ◌, to_i16, to_u8, of_u8, even_part}
use spu_kit.Sound.{EnvMode, env_release, env_attack, VState, Sample, Sound}
use spu_kit.Sound.Samples.{silence, pan}
use spu_kit.Sound.Envelope.{run_envelope, is_release}
use spu_kit.Sound.Brr.{and_then, brr_sample4, interpolate}

-- `read_aram_word`
unfoldable pub read_aram_word : (ℕ → ℕ) → ℕ → ℕ
read_aram_word aram addr = bit_or (aram (u16 (addr + 1)) <<< 8) (aram (u16 (addr + 0)))

-- `write_aram_word`
unfoldable pub write_aram_word : (ℕ → ℕ) → ℕ → ℕ → ℕ → ℕ
write_aram_word aram addr val =
    update (update aram (u16 (addr + 1)) (val >>> 8)) (u16 (addr + 0)) (bit_and val 0xff)

-- A field of `voice(i)` by its offset.
unfoldable pub vreg : (ℕ → ℕ) → ℕ → ℕ → ℕ
vreg regs i field = regs (i * 16 + field)

unfoldable pub srcn_effective_addr : (ℕ → ℕ) → ℕ → ℕ
srcn_effective_addr regs srcn = u16 (u16 (regs 0x5d <<< 8) + u16 (srcn <<< 2))

-- `voice_pitch`
unfoldable pub voice_pitch : (ℕ → ℕ) → ℕ → ℕ
unfolding vreg
voice_pitch regs i = bit_and (bit_or (vreg regs i 2) (vreg regs i 3 <<< 8)) 0x3fff

-- Cycles 1 to 3b.
unfoldable pub voice_fetch : Sound → ℕ → VState → VState
unfolding vreg srcn_effective_addr voice_pitch read_aram_word
voice_fetch s i st =
    let base = srcn_effective_addr s.regs (vreg s.regs i 4) in
    let ptr = if st.attack_delay == 0 then u16 (base + 2) else base in
    record st {
      srcn_ptr = ptr;
      next_brr_addr = read_aram_word s.aram ptr;
      pitch = voice_pitch s.regs i;
      brr_hdr = u8 (s.aram st.brr_addr);
    }

-- `if (st->attack_delay)` of cycle 3c.
unfoldable pub voice_attack : VState → VState
voice_attack st =
    if st.attack_delay == 0
    then st
    else (let first = st.attack_delay == 5 in
        let delay = st.attack_delay - 1 in
        record st {
          brr_addr = if first then st.next_brr_addr else st.brr_addr;
          brr_off = if first then 1 else st.brr_off;
          buf_pos = if first then 0 else st.buf_pos;
          brr_hdr = if first then 0 else st.brr_hdr;
          attack_delay = delay;
          interp_pos = if leb delay 3 then 0x4000 else 0;
          pitch = 0;
          env = pos 0;
        })

-- The two registers that show a voice.
unfoldable pub show : (ℕ → ℕ) → ℕ → ℕ → ℕ → ℕ → ℕ
show regs i outx envx = update (update regs (i * 16 + 9) outx) (i * 16 + 8) envx

-- From an interpolated sample on: the sample with the envelope applied, and the registers.
unfoldable pub enveloped : (ℕ → ℕ) → ℕ → ℤ → ℤ → ℤ × (ℕ → ℕ)
unfolding show
enveloped regs i env sample = (
  to_i16 (even_part ((sample *ℤ env) >>ℤ 11)),
  show regs i (to_u8 (sample >>ℤ 8)) (to_u8 (env >>ℤ 4)),
)

-- `if (st->env)`
unfoldable pub voice_sample : (ℕ → ℕ) → ℕ → ℕ → VState → Option (ℤ × (ℕ → ℕ))
unfolding enveloped interpolate show
voice_sample regs i bit st =
    if st.env ==ℤ pos 0
    then some (pos 0, show regs i 0 0)
    else if test (regs 0x3d) bit
    then some (enveloped regs i st.env (pos 0))
    else and_then (interpolate st) (λ v. some (enveloped regs i st.env (to_i16 v)))

-- The end of a sample or a reset, and the two key tests.
unfoldable pub voice_keys : Sound → ℕ → VState → VState
voice_keys s bit st =
    let ended = test (s.regs 0x6c) 0x80 || (bit_and st.brr_hdr 3 == 1) in
    let off = not s.toggle && test s.koff bit in
    let on = not s.toggle && test s.kon bit in
    record st {
      env_mode =
          if on
          then env_attack
          else if off
          then env_release
          else if ended
          then env_release
          else st.env_mode;
      env = if ended then pos 0 else st.env;
      attack_delay = if on then 5 else st.attack_delay;
    }

-- What follows `brr_sample4`: the next block.
unfoldable pub next_block : (ℕ → ℕ) → ℕ → VState → VState × (ℕ → ℕ)
next_block regs bit st =
    let ends = test st.brr_hdr 1 in
    if leb 9 st.brr_off
    then (
      record st {
        brr_addr = if ends then st.next_brr_addr else u16 (st.brr_addr + 9);
        brr_off = 1;
      },
      if ends then update regs 0x7c (bit_or (regs 0x7c) bit) else regs,
    )
    else (st, regs)

-- `if (st->interp_pos >= 0x4000)`
unfoldable pub voice_decode : (ℕ → ℕ) → (ℕ → ℕ) → ℕ → VState → Option (VState × (ℕ → ℕ))
unfolding brr_sample4 next_block
voice_decode aram regs bit st =
    if leb 0x4000 st.interp_pos
    then and_then (brr_sample4 aram st) (λ st'. some (next_block regs bit st'))
    else some (st, regs)

-- The new position by the pitch, and the register of ended voices.
unfoldable pub voice_step : (ℕ → ℕ) → ℕ → VState → VState × (ℕ → ℕ)
voice_step regs bit st =
    let moved = bit_and st.interp_pos 0x3fff + st.pitch in
    (
      record st { interp_pos = if ltb 0x7fff moved then 0x7fff else moved },
      if st.attack_delay == 5 then update regs 0x7c (bit_and (regs 0x7c) (255 - bit)) else regs,
    )

-- From cycle 4 on, given the sample.
unfoldable pub voice_tail : ℕ → ℕ → ℤ → VState × Sound → Option (Sample × Sound)
unfolding voice_decode voice_step pan vreg
voice_tail i bit sample (st, s) = and_then (voice_decode s.aram s.regs bit st) (λ (st', regs').
    let (st'', regs'') = voice_step regs' bit st' in
    some (
      pan sample (of_u8 (vreg regs'' i 0)) (of_u8 (vreg regs'' i 1)),
      record s { vstate = update s.vstate i st''; regs = regs'' },
    ))

-- The envelope, after which a voice that is silent returns.
unfoldable pub voice_envelope : ℕ → ℕ → ℤ → VState × Sound → Option (Sample × Sound)
unfolding run_envelope voice_tail silence vreg
voice_envelope i bit sample (st, s) =
    if st.attack_delay == 0
    then (let st' = run_envelope s.ctr st (vreg s.regs i 5) (vreg s.regs i 6) (vreg s.regs i 7) in
        if is_release st'.env_mode && (st'.env ==ℤ pos 0)
        then some (silence, record s { vstate = update s.vstate i st' })
        else voice_tail i bit sample (st', s))
    else voice_tail i bit sample (st, s)

unfoldable pub voice_run : ℕ → Sound → Option (Sample × Sound)
unfolding voice_fetch voice_attack voice_sample voice_keys voice_envelope
voice_run i s =
    let bit = 1 <<< i in
    let st = voice_attack (voice_fetch s i (s.vstate i)) in
    and_then (voice_sample s.regs i bit st) (λ (sample, regs').
      let s' = record s { regs = regs' } in voice_envelope i bit sample (voice_keys s' bit st, s'))

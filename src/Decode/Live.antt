-- ===== src/Decode/Live.antt =====
-- The decoder of the voices beside decode_brr.
use mathlib.Core.Path.{subst}
use spu_kit.Base.{
  ℕ, ◌+◌, ◌*◌, ◌/◌, ◌%◌, ◌<◌, ◌≤◌, ◌≡◌, ◌==◌, refl, arith, bit_and, leb, ltb, if◌then◌else◌, true,
  false, some, List, [], ◌∷◌, u8, u16, update,
}
use spu_kit.Base.Bits.{and_mask, and_half, and_odd}
use spu_kit.Base.Int.{ℤ, pos, negsuc, to_i16, to_u16, of_u16, IsShort, ◌==ℤ◌}
use spu_kit.Sound.{VState}
use spu_kit.Sound.Samples.{clamp16}
use spu_kit.Sound.Brr.{
  BrrFilterState, brr_byte, brr_filter, brr_sample4, filter4, put4, vfilter_state, brr_pair_extract,
  brr_pair_scale,
}
use spu_kit.Sound.Brr.Safe.{IsSane}
use spu_kit.Decode.{brr_pair_load}
use spu_kit.Decode.Stream.{stream, scaled, shift_in, filter_of, scale_of}

-- No sample of a stream needs more than 16 bits.
abbrev pub Fits : ℕ → BrrFilterState → List ℤ → Type 0
Fits filter st [] = Unit
Fits filter st (s ∷ ss) =
    let v = brr_filter (filter * 4) s st.old st.older in IsShort v × Fits filter (shift_in st v) ss

-- Samples stored one after the other.
pub store_samples : (ℕ → ℤ) → ℕ → List ℤ → ℕ → ℤ
store_samples buf at [] = buf
store_samples buf at (v ∷ vs) = store_samples (update buf at v) (at + 1) vs

to_i16_short : (v : ℤ) → IsShort v → to_i16 v ≡ v
unfolding to_i16 to_u16 of_u16
to_i16_short (pos n) h = ground arith
to_i16_short (negsuc n) h = ground arith

==ℤ_refl : (v : ℤ) → (v ==ℤ v) ≡ true
==ℤ_refl (pos n) = ground arith
==ℤ_refl (negsuc n) = ground arith

clamp16_short : (v : ℤ) → IsShort v → clamp16 v ≡ v
unfolding clamp16
clamp16_short v h = rw (to_i16_short v h, ==ℤ_refl v) refl

-- The field of the filter where it stands in the byte.
filter_field : (hdr : ℕ) → bit_and hdr 0xc ≡ filter_of hdr * 4
filter_field hdr = omega (
  arith,
  and_half hdr 12,
  and_odd hdr 12,
  and_half (hdr / 2) 6,
  and_odd (hdr / 2) 6,
  and_mask 2 (hdr / 2 / 2),
)

-- The values of four samples that fit.
stream_four :
    (filter : ℕ) (st : BrrFilterState) (a b c d : ℤ)
    → Fits filter st (a ∷ b ∷ c ∷ d ∷ [])
    → let F = filter * 4 in
      let p = brr_filter F a st.old st.older in
      let q = brr_filter F b p st.old in
      let r = brr_filter F c q p in
      stream filter st (a ∷ b ∷ c ∷ d ∷ []) ≡ p ∷ q ∷ r ∷ brr_filter F d r q ∷ []
unfolding stream
stream_four filter st a b c d (h0, (h1, (h2, (h3, t)))) =
    rw (to_i16_short _ h0, to_i16_short _ h1, to_i16_short _ h2, to_i16_short _ h3) refl

put4-store :
    (st : VState) (p q r s : ℤ)
    → st.buf_pos % 4 ≡ 0
    → st.buf_pos < 12
    → IsShort p
    → IsShort q
    → IsShort r
    → IsShort s
    → put4 st p q r s
      ≡ some (record st {
        buf = store_samples st.buf st.buf_pos (p ∷ q ∷ r ∷ s ∷ []);
        buf_pos = if st.buf_pos == 8 then 0 else st.buf_pos + 4;
      })
unfolding put4 store_samples
put4-store st p q r s al lt hp hq hr hs =
    let room : ltb (st.buf_pos + 3) 12 ≡ true = ground arith in
    let two : st.buf_pos + 1 + 1 ≡ st.buf_pos + 2 = omega arith in
    let three : st.buf_pos + 2 + 1 ≡ st.buf_pos + 3 = omega arith in
    let wraps : (if leb 12 (u8 (st.buf_pos + 4)) then 0 else u8 (st.buf_pos + 4))
        ≡ (if st.buf_pos == 8 then 0 else st.buf_pos + 4) =
      ground arith in
    rw
      (
        two,
        three,
        room,
        wraps,
        clamp16_short p hp,
        clamp16_short q hq,
        clamp16_short r hr,
        clamp16_short s hs,
      )
      refl

-- The samples of two bytes.
abbrev two_inputs : ℕ → ℕ → ℕ → List ℤ
two_inputs scale byte0 byte1 =
    let p = brr_pair_scale (brr_pair_extract byte0) scale in
    let q = brr_pair_scale (brr_pair_extract byte1) scale in p.s0 ∷ p.s1 ∷ q.s0 ∷ q.s1 ∷ []

-- A voice with four more samples.
abbrev pub with_four : VState → List ℤ → VState
with_four st vs = record st {
  buf = store_samples st.buf st.buf_pos vs;
  buf_pos = if st.buf_pos == 8 then 0 else st.buf_pos + 4;
}

filter4-stream :
    (hdr byte0 byte1 : ℕ) (prev : BrrFilterState) (st : VState)
    → scale_of hdr ≤ 12
    → st.buf_pos % 4 ≡ 0
    → st.buf_pos < 12
    → Fits (filter_of hdr) prev (two_inputs (scale_of hdr) byte0 byte1)
    → filter4 hdr prev byte0 byte1 st
      ≡ some (with_four st (stream (filter_of hdr) prev (two_inputs (scale_of hdr) byte0 byte1)))
unfolding filter4
filter4-stream hdr byte0 byte1 prev st low al lt (h0, (h1, (h2, (h3, t)))) =
    let small : ltb 12 (hdr / 16) ≡ false = ground arith in
    rw (filter_field hdr, small, stream_four (filter_of hdr) prev _ _ _ _ (h0, (h1, (h2, (h3, t)))))
      (put4-store st _ _ _ _ al lt h0 h1 h2 h3)

byte_read :
    (aram : ℕ → ℕ) (st : VState)
    → st.brr_addr + st.brr_off < 0x10000
    → st.brr_off < 255
    → brr_byte aram st
      ≡ some (aram (st.brr_addr + st.brr_off), record st { brr_off = st.brr_off + 1 })
unfolding brr_byte
byte_read aram st h l =
    let inside : ltb (st.brr_addr + st.brr_off) 0x10000 ≡ true = ground arith in
    let small : u8 (st.brr_off + 1) ≡ st.brr_off + 1 = omega arith in rw (inside, small) refl

scaled_two :
    (aram : ℕ → ℕ) (scale addr : ℕ)
    → addr + 1 < 0x10000
    → scaled aram scale 2 addr ≡ two_inputs scale (aram addr) (aram (addr + 1))
unfolding scaled brr_pair_load
scaled_two aram scale addr h = let next : u16 (addr + 1) ≡ addr + 1 = omega arith in rw next refl

-- The samples of the two bytes that are next.
abbrev pub next_input : (ℕ → ℕ) → VState → List ℤ
next_input aram st = scaled aram (scale_of st.brr_hdr) 2 (st.brr_addr + st.brr_off)

-- For a voice in a sane state, whose block lies inside of the memory and has a scale up to 12,
-- brr_sample4 decodes as decode_brr does where no sample needs more than 16 bits: it puts the next
-- four samples of the same recursion, from the two samples before in the buffer, behind these.
pub brr_sample4-stream :
    (aram : ℕ → ℕ) (st : VState)
    → IsSane st
    → st.brr_addr + 9 < 0x10000
    → scale_of st.brr_hdr ≤ 12
    → Fits (filter_of st.brr_hdr) (vfilter_state st) (next_input aram st)
    → brr_sample4 aram st
      ≡ some (
          with_four
            (record st { brr_off = st.brr_off + 2 })
            (stream (filter_of st.brr_hdr) (vfilter_state st) (next_input aram st)))
unfolding brr_sample4
brr_sample4-stream aram st v inside low h =
    let st' : VState = record st { brr_off = st.brr_off + 1 } in
    let after : st.brr_off + 1 + 1 ≡ st.brr_off + 2 = omega arith in
    let second : st.brr_addr + (st.brr_off + 1) ≡ st.brr_addr + st.brr_off + 1 = omega arith in
    let bytes : next_input aram st
        ≡ two_inputs (scale_of st.brr_hdr) (aram (st.brr_addr + st.brr_off))
            (aram (st.brr_addr + st.brr_off + 1)) =
      scaled_two aram (scale_of st.brr_hdr) (st.brr_addr + st.brr_off) (omega (arith, v.block)) in
    rw
      (
        byte_read aram st (omega (arith, v.block)) (omega (arith, v.block)),
        byte_read aram st' (omega (arith, v.block)) (omega (arith, v.block)),
        after,
        second,
        bytes,
      )
      (filter4-stream st.brr_hdr _ _ (vfilter_state st) (record st { brr_off = st.brr_off + 2 }) low
        v.aligned v.inside (subst (Fits (filter_of st.brr_hdr) (vfilter_state st)) bytes h))

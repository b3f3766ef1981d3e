-- ===== src/Sound/Brr.antt =====
-- Bit rate reduction, decoded four samples at a time, and the interpolation between samples.
pub mod Safe
use spu_kit.Base.{
  ℕ, ◌+◌, ◌-◌, ◌>>>◌, bit_and, ltb, leb, ◌==◌, if◌then◌else◌, Bool, Option, none, some, u8, update,
}
use spu_kit.Base.Int.{ℤ, pos, negsuc, ◌+ℤ◌, ◌-ℤ◌, ◌*ℤ◌, ◌>>ℤ◌, ◌<<ℤ◌, to_i16, even_part}
use spu_kit.Sound.{VState}
use spu_kit.Sound.Samples.{clamp16}
use spu_kit.Sound.Gauss.{gauss}

-- `none` stands for a failed `xassert` and for an access outside of an array.
abbrev pub needs {ℓ} : {A : Type ℓ} → Bool → Option A → Option A
needs b r = if b then r else none

abbrev pub and_then {ℓ κ} : {A : Type ℓ} {B : Type κ} → Option A → (A → Option B) → Option B
and_then none f = none
and_then (some a) f = f a

-- `struct brr_pair`
pub record BrrPair : Type 0 where
  pub s0 : ℤ
  pub s1 : ℤ

-- An `int8_t` bit field of four bits.
abbrev pub of_nybble : ℕ → ℤ
of_nybble n = if ltb n 8 then pos n else negsuc (15 - n)

unfoldable pub brr_pair_extract : ℕ → BrrPair
brr_pair_extract byte = record { s0 = of_nybble (byte >>> 4); s1 = of_nybble (bit_and byte 0xf) }

unfoldable pub brr_pair_scale : BrrPair → ℕ → BrrPair
unfolding to_i16 ◌>>ℤ◌ ◌<<ℤ◌
brr_pair_scale p shift = record {
  s0 = to_i16 (p.s0 <<ℤ shift >>ℤ 1);
  s1 = to_i16 (p.s1 <<ℤ shift >>ℤ 1);
}

unfoldable pub coeff1_mul : ℤ → ℤ
coeff1_mul p = p +ℤ ((pos 0 -ℤ p) >>ℤ 4)

unfoldable pub coeff2_mul : ℤ → ℤ
coeff2_mul p = p <<ℤ 1 +ℤ (((pos 0 -ℤ p) *ℤ pos 3) >>ℤ 5)

unfoldable pub coeff3_mul : ℤ → ℤ
coeff3_mul p = p <<ℤ 1 +ℤ (((pos 0 -ℤ p) *ℤ pos 13) >>ℤ 6)

unfoldable pub coeff4_mul : ℤ → ℤ
coeff4_mul p = p +ℤ (((pos 0 -ℤ p) *ℤ pos 3) >>ℤ 4)

unfoldable pub brr_filter1 : ℤ → ℤ → ℤ
unfolding coeff1_mul
brr_filter1 s p = s +ℤ coeff1_mul p

unfoldable pub brr_filter2 : ℤ → ℤ → ℤ → ℤ
unfolding coeff1_mul coeff2_mul
brr_filter2 s p pp = s +ℤ coeff2_mul p -ℤ coeff1_mul pp

unfoldable pub brr_filter3 : ℤ → ℤ → ℤ → ℤ
unfolding coeff3_mul coeff4_mul
brr_filter3 s p pp = s +ℤ coeff3_mul p -ℤ coeff4_mul pp

-- One line of a case of the switch: a sample from the input and the two samples before.
unfoldable pub brr_filter : ℕ → ℤ → ℤ → ℤ → ℤ
unfolding brr_filter1 brr_filter2 brr_filter3
brr_filter filter s p pp =
    if filter == 0
    then s
    else if filter == 0x4
    then brr_filter1 s p
    else if filter == 0x8
    then brr_filter2 s p pp
    else brr_filter3 s p pp

-- `struct brr_filter_state`
pub record BrrFilterState : Type 0 where
  pub older : ℤ
  pub old : ℤ

unfoldable pub vfilter_state : VState → BrrFilterState
vfilter_state st =
    if st.buf_pos == 0
    then record { older = st.buf 10; old = st.buf 11 }
    else record { older = st.buf (st.buf_pos - 2); old = st.buf (st.buf_pos - 1) }

-- The byte, and the state with the next offset.
unfoldable pub brr_byte : (ℕ → ℕ) → VState → Option (ℕ × VState)
brr_byte aram st =
    let at = st.brr_addr + st.brr_off in
    needs (ltb at 0x10000) (some (aram at, record st { brr_off = u8 (st.brr_off + 1) }))

-- The four writes of `buf`, and the next position.
unfoldable pub put4 : VState → ℤ → ℤ → ℤ → ℤ → Option VState
unfolding clamp16
put4 st a b c d =
    let at = st.buf_pos in
    needs (ltb (at + 3) 12) (
      some (record st {
        buf =
            update
              (update (update (update st.buf at (clamp16 a)) (at + 1) (clamp16 b)) (at + 2)
                (clamp16 c))
              (at + 3) (clamp16 d);
        buf_pos = if leb 12 (u8 (at + 4)) then 0 else u8 (at + 4);
      }))

-- From the switch on, given the samples before and the two bytes.
unfoldable pub filter4 : ℕ → BrrFilterState → ℕ → ℕ → VState → Option VState
unfolding brr_pair_extract brr_pair_scale brr_filter put4
filter4 hdr prev byte0 byte1 st =
    let filter = bit_and hdr 0xc in
    let scale = hdr >>> 4 in
    let shift = if ltb 12 scale then 12 else scale in
    let in0 = brr_pair_scale (brr_pair_extract byte0) shift in
    let in1 = brr_pair_scale (brr_pair_extract byte1) shift in
    let a = brr_filter filter in0.s0 prev.old prev.older in
    let b = brr_filter filter in0.s1 a prev.old in
    let c = brr_filter filter in1.s0 b a in let d = brr_filter filter in1.s1 c b in put4 st a b c d

unfoldable pub brr_sample4 : (ℕ → ℕ) → VState → Option VState
unfolding brr_byte vfilter_state filter4
brr_sample4 aram st = and_then (brr_byte aram st) (λ (byte0, st').
    and_then (brr_byte aram st')
      (λ (byte1, st''). filter4 st.brr_hdr (vfilter_state st) byte0 byte1 st''))

unfoldable pub wrap12 : ℕ → Option ℕ
wrap12 val = needs (leb val 18) (some (if leb 12 val then val - 12 else val))

-- `st->buf[wrap12(buf_pos + k)]`
unfoldable pub tap : VState → ℕ → ℕ → Option ℤ
unfolding wrap12
tap st buf_pos k = and_then (wrap12 (u8 (buf_pos + k))) (λ i. some (st.buf i))

unfoldable pub interpolate : VState → Option ℤ
unfolding tap even_part
interpolate st =
    let interp_hi = bit_and (st.interp_pos >>> 12) 0x7 in
    let interp_mid = u8 (st.interp_pos >>> 4) in
    let buf_pos = u8 (st.buf_pos + interp_hi) in
    let weight = λ (i : ℕ) (v : ℤ). (pos (gauss i) *ℤ v) >>ℤ 11 in
    and_then (tap st buf_pos 0) (λ in0. and_then (tap st buf_pos 1) (λ in1.
      and_then (tap st buf_pos 2) (λ in2. and_then (tap st buf_pos 3) (λ in3. some (
        even_part (
          weight (255 - interp_mid) in0
          +ℤ weight (511 - interp_mid) in1
          +ℤ weight (256 + interp_mid) in2
          +ℤ weight interp_mid in3))))))

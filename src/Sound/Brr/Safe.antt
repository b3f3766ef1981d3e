-- ===== src/Sound/Brr/Safe.antt =====
-- Where the decoder and the interpolation stay inside of their arrays.
use spu_kit.Base.Int.{ℤ}
use spu_kit.Wav.Header.{hdr}
use spu_kit.Sound.Brr.{
  vfilter_state, BrrFilterState, wrap12, tap, needs, interpolate, filter4, brr_sample4, brr_byte,
  and_then,
}
use spu_kit.Sound.{VState}
use spu_kit.Sound.Envelope.Ranges.{InRange}
use spu_kit.Base.Bits.{and_mask}
use spu_kit.Base.{
  ◌-◌, if◌then◌else◌, ◌>>>◌, ◌≡◌, ◌<◌, ◌+◌, ◌%◌, ℕ, u8, true, refl, ltb, leb, false, bit_and, arith,
  Option, Bool, none, some,
}

-- A result that is there, and meets a condition.
abbrev pub Gives {ℓ} : {A : Type ℓ} → (A → Type 0) → Option A → Type 0
Gives P none = ⊥
Gives P (some a) = P a

pub Gives-then {ℓ κ} :
    {A : Type ℓ} {B : Type κ} (P : A → Type 0) (Q : B → Type 0) (m : Option A) (f : A → Option B)
    → Gives P m
    → ((a : A) → P a → Gives Q (f a))
    → Gives Q (and_then m f)
Gives-then P Q none f g h = g
Gives-then P Q (some a) f g h = h a g

pub Gives-needs {ℓ} :
    {A : Type ℓ} (P : A → Type 0) (b : Bool) (a : A) → b ≡ true → P a → Gives P (needs b (some a))
Gives-needs P true a e p = p
Gives-needs P false a e p = cc

-- What holds of a voice between two calls: where the next four samples go, and which bytes are next.
pub record IsSane (st : VState) : Type 0 where
  pub in_range : InRange st.env
  pub aligned : st.buf_pos % 4 ≡ 0
  pub inside : st.buf_pos < 12
  pub moved : st.interp_pos < 0x8000
  pub block : st.brr_off < 9

-- A byte of a block: nothing changes but the offset.
byte-Gives :
    (aram : ℕ → ℕ) (st : VState) (k : ℕ)
    → k ≡ st.brr_off
    → k < 10
    → st.brr_addr + k < 0x10000
    → Gives (λ r. r.1 ≡ record st { brr_off = k + 1 }) (brr_byte aram st)
unfolding brr_byte
byte-Gives aram st k e l h =
    let inside : ltb (st.brr_addr + st.brr_off) 0x10000 ≡ true = ground arith in
    let small : u8 (st.brr_off + 1) ≡ k + 1 = omega arith in
    Gives-needs _ _ _ inside (rw small refl)

filter4-Gives :
    (hdr : ℕ) (prev : BrrFilterState) (byte0 byte1 : ℕ) (st : VState)
    → InRange st.env
    → st.buf_pos % 4 ≡ 0
    → st.buf_pos < 12
    → st.interp_pos < 0x8000
    → Gives
        (λ st'.
          InRange st'.env
          × (st'.buf_pos % 4 ≡ 0)
          × (st'.buf_pos < 12)
          × (st'.interp_pos < 0x8000)
          × (st'.brr_off ≡ st.brr_off))
        (filter4 hdr prev byte0 byte1 st)
unfolding filter4
filter4-Gives hdr prev byte0 byte1 st v al h m =
    let room : ltb (st.buf_pos + 3) 12 ≡ true = ground arith in
    Gives-needs _ _ _ room (v, ground arith, ground arith, m, refl)

-- brr_sample4 reads two bytes and writes four samples, all inside of the arrays, where the block lies
-- inside of the memory.
pub brr_sample4-Gives :
    (aram : ℕ → ℕ) (st : VState)
    → IsSane st
    → st.brr_addr + 9 < 0x10000
    → Gives
        (λ st'.
          InRange st'.env
          × (st'.buf_pos % 4 ≡ 0)
          × (st'.buf_pos < 12)
          × (st'.interp_pos < 0x8000)
          × (st'.brr_off ≡ st.brr_off + 1 + 1))
        (brr_sample4 aram st)
unfolding brr_sample4 filter4
brr_sample4-Gives aram st v h =
    Gives-then _ _ (brr_byte aram st) _
      (byte-Gives aram st st.brr_off refl (omega (arith, v.block)) (omega (arith, v.block)))
      (λ (byte0, st') e. rw e (
        Gives-then _ _ (brr_byte aram (record st { brr_off = st.brr_off + 1 })) _
          (byte-Gives aram (record st { brr_off = st.brr_off + 1 }) (st.brr_off + 1) refl
            (omega (arith, v.block)) (omega (arith, v.block)))
          (λ (byte1, st'') e'. rw e' (
            filter4-Gives st.brr_hdr (vfilter_state st) byte0 byte1
              (record st { brr_off = st.brr_off + 1 + 1 }) v.in_range v.aligned v.inside v.moved))))

tapped : (st : VState) (buf_pos k : ℕ) → buf_pos + k < 19 → (v : ℤ) × (tap st buf_pos k ≡ some v)
unfolding tap wrap12
tapped st buf_pos k h =
    let small : leb (u8 (buf_pos + k)) 18 ≡ true = ground arith in
    (
      st.buf (if leb 12 (u8 (buf_pos + k)) then u8 (buf_pos + k) - 12 else u8 (buf_pos + k)),
      rw small refl,
    )

-- The assertion of wrap12 holds at each of its four calls.
pub interpolate-Gives : (st : VState) → st.buf_pos < 9 → Gives (λ _. Unit {0}) (interpolate st)
unfolding interpolate
interpolate-Gives st h =
    let at : ℕ = u8 (st.buf_pos + bit_and (st.interp_pos >>> 12) 0x7) in
    let mask : bit_and (st.interp_pos >>> 12) 0x7 ≡ (st.interp_pos >>> 12) % 8 =
      and_mask 3 (st.interp_pos >>> 12) in
    let near : at < 16 = omega (arith, mask) in
    let tap0 = tapped st at 0 (omega (arith, near)) in
    let tap1 = tapped st at 1 (omega (arith, near)) in
    let tap2 = tapped st at 2 (omega (arith, near)) in
    let tap3 = tapped st at 3 (omega (arith, near)) in rw (tap0.1, tap1.1, tap2.1, tap3.1) tt

-- ===== src/Decode/Stream.antt =====
-- decode_brr as one recursion over the samples of a block.
use spu_kit.Base.{
  ◌/◌, none, inr, inl, Bool-cases, ℕ, suc, ◌+◌, ◌*◌, ◌%◌, ◌<◌, ◌≡◌, ◌>>>◌, refl, arith, bit_and,
  leb, ltb, if◌then◌else◌, false, some, List, [], ◌∷◌, u16, test,
}
use Prim.Native.Nat.{zero}
use spu_kit.Base.Bits.{and_mask}
use spu_kit.Base.Int.{ℤ, pos, negsuc, to_i16, to_u16, of_u16, ◌>>ℤ◌, ◌<<ℤ◌}
use spu_kit.Base.Lists.{length}
use spu_kit.Sound.Brr.{BrrPair, BrrFilterState, brr_pair_scale, brr_filter}
use spu_kit.Decode.{brr_pair_load, decode_pair, decode_pairs, decode_brr, last_samples}

-- The next sample by the two before, each of them cut to 16 bits.
abbrev pub shift_in : BrrFilterState → ℤ → BrrFilterState
shift_in st v = record { older = st.old; old = v }

abbrev pub next_value : ℕ → BrrFilterState → ℤ → ℤ
next_value filter st s = to_i16 (brr_filter (filter * 4) s st.old st.older)

unfoldable pub stream : ℕ → BrrFilterState → List ℤ → List ℤ
stream filter st [] = []
stream filter st (s ∷ ss) = let v = next_value filter st s in v ∷ stream filter (shift_in st v) ss

-- The state after the samples.
pub stream_end : ℕ → BrrFilterState → List ℤ → BrrFilterState
stream_end filter st [] = st
stream_end filter st (s ∷ ss) = stream_end filter (shift_in st (next_value filter st s)) ss

-- The nybbles of so many bytes, high before low, as scaled samples.
unfoldable pub scaled : (ℕ → ℕ) → ℕ → ℕ → ℕ → List ℤ
scaled aram shift zero addr = []
scaled aram shift (suc n) addr =
    let p = brr_pair_scale (brr_pair_load aram addr) shift in
    p.s0 ∷ p.s1 ∷ scaled aram shift n (u16 (addr + 1))

to_i16_twice : (v : ℤ) → to_i16 (to_i16 v) ≡ to_i16 v
unfolding to_i16 to_u16 of_u16
to_i16_twice (pos n) = ground arith
to_i16_twice (negsuc n) = ground arith

-- Without a filter the samples before do not count.
unfiltered :
    (aram : ℕ → ℕ) (shift n addr : ℕ) (cur st : BrrFilterState)
    → decode_pairs aram 0 shift n addr cur ≡ stream 0 st (scaled aram shift n addr)
unfolding decode_pairs stream scaled brr_filter
unfiltered aram shift zero addr cur st = refl
unfiltered aram shift (suc n) addr cur st =
    let p = brr_pair_load aram addr in
    rw
      (
        to_i16_twice (p.s0 <<ℤ shift >>ℤ 1),
        to_i16_twice (p.s1 <<ℤ shift >>ℤ 1),
        unfiltered aram shift n (u16 (addr + 1)) cur
            (record { older = (brr_pair_scale p shift).s0; old = (brr_pair_scale p shift).s1 }),
      )
      refl

-- What a turn of the loop does with a filter.
two_values : ℕ → BrrFilterState → BrrPair → BrrPair × BrrFilterState
two_values filter cur p =
    let a = next_value filter cur p.s0 in
    let b = next_value filter (shift_in cur a) p.s1 in
    (record { s0 = a; s1 = b }, record { older = a; old = b })

filtered :
    (filter : ℕ) (cur : BrrFilterState) (p : BrrPair)
    → 0 < filter
    → filter < 4
    → decode_pair filter cur p ≡ two_values filter cur p
unfolding decode_pair two_values brr_filter
filtered zero cur p l h = absurd (omega arith)
filtered (suc zero) cur p l h = refl
filtered (suc (suc zero)) cur p l h = refl
filtered (suc (suc (suc zero))) cur p l h = refl
filtered (suc (suc (suc (suc f)))) cur p l h = absurd (omega arith)

pairs-stream :
    (aram : ℕ → ℕ) (filter shift n addr : ℕ) (cur : BrrFilterState)
    → filter < 4
    → decode_pairs aram filter shift n addr cur ≡ stream filter cur (scaled aram shift n addr)
unfolding decode_pairs stream scaled two_values
pairs-stream aram zero shift n addr cur h = unfiltered aram shift n addr cur cur
pairs-stream aram (suc f) shift zero addr cur h = refl
pairs-stream aram (suc f) shift (suc n) addr cur h =
    let p = brr_pair_scale (brr_pair_load aram addr) shift in
    rw
      (
        filtered (suc f) cur p (omega arith) h,
        pairs-stream aram (suc f) shift n (u16 (addr + 1)) (two_values (suc f) cur p).1 h,
      )
      refl

-- What the control byte of a block says.
abbrev pub scale_of : ℕ → ℕ
scale_of ctrl = ctrl / 16

abbrev pub filter_of : ℕ → ℕ
filter_of ctrl = ctrl / 4 % 4

-- The samples of the block at an address, and the last two.
pub block_input : (ℕ → ℕ) → ℕ → List ℤ
block_input aram aptr = scaled aram (scale_of (aram aptr)) 8 (u16 (aptr + 1))

abbrev pub block_stream : (ℕ → ℕ) → ℕ → BrrFilterState → List ℤ
block_stream aram aptr st = stream (filter_of (aram aptr)) st (block_input aram aptr)

abbrev pub block_end : (ℕ → ℕ) → ℕ → BrrFilterState → BrrFilterState
block_end aram aptr st = stream_end (filter_of (aram aptr)) st (block_input aram aptr)

pub length-block_stream :
    (aram : ℕ → ℕ) (aptr : ℕ) (st : BrrFilterState) → length (block_stream aram aptr st) ≡ 16
unfolding stream scaled block_input
length-block_stream aram aptr st = refl

-- The state that decode_brr_list keeps.
pub last-block_stream :
    (aram : ℕ → ℕ) (aptr : ℕ) (st : BrrFilterState)
    → last_samples (block_stream aram aptr st) ≡ block_end aram aptr st
unfolding stream stream_end scaled block_input last_samples
last-block_stream aram aptr st = refl

-- decode_brr gives the samples of a block with a scale up to 12, by one recursion over its sixteen
-- nybbles, in which each sample is filtered by the two before it and cut to 16 bits, with the two
-- flags of its control byte. On a larger scale its assertion fails.
pub decode_brr-stream :
    (aram : ℕ → ℕ) (aptr : ℕ) (st : BrrFilterState)
    → decode_brr aram aptr st ≡ (
        if leb (scale_of (aram aptr)) 12
        then some (record {
          samples = block_stream aram aptr st;
          ends = test (aram aptr) 0x01;
          loops = test (aram aptr) 0x02;
        })
        else none)
unfolding decode_brr block_input
decode_brr-stream aram aptr st =
    let ctrl = aram aptr in
    let field : bit_and (ctrl >>> 2) 3 ≡ filter_of ctrl = and_mask 2 (ctrl / 4) in
    elim (Bool-cases (leb (scale_of ctrl) 12)) [
      | inl e ↦
          let fits : ltb 12 (ctrl >>> 4) ≡ false = ground arith in
          rw
            (
              field,
              fits,
              e,
              pairs-stream aram (filter_of ctrl) (scale_of ctrl) 8 (u16 (aptr + 1)) st
                  (omega arith),
            )
            refl
      | inr e ↦ rw e refl
    ]

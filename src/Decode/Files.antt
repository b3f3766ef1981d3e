-- ===== src/Decode/Files.antt =====
-- What decode_brr_list and dump_srcn write.
use spu_kit.Base.{
  ◌*◌, ℕ, suc, ◌+◌, ◌<◌, ◌≤◌, ◌≡◌, ◌∙◌, ◌++◌, refl, sym, ap, arith, leb, true, false, Bool, some,
  List, [], u16, test,
}
use Prim.Native.Nat.{zero}
use mathlib.Core.Path.{subst}
use mathlib.Core.List.{append_assoc, append-nil, map}
use spu_kit.Base.Int.{ℤ, to_u16}
use spu_kit.Base.Lists.{length-append, length, length-map}
use spu_kit.Io.{Result, Os, done, spins, asserted, overrun, after}
use spu_kit.Io.Laws.{Documented}
use spu_kit.Sound.Brr.{BrrFilterState}
use spu_kit.Wav.{Wav, wav_write_samples16}
use spu_kit.Wav.Contents.{write_samples-Extends, Holds, Extends}
use spu_kit.Decode.{
  Ended, returned, aborts, crashes, Listed, block_written, block_result, decode_brr_list,
  decode_brr,
}
use spu_kit.Decode.Stream.{
  block_stream, block_end, scale_of, decode_brr-stream, last-block_stream, length-block_stream,
}

module _ (aram : ℕ → ℕ) where
  -- The address of a block, counted from an address.
  abbrev pub block_at : ℕ → ℕ → ℕ
  block_at zero aptr = aptr
  block_at (suc n) aptr = block_at n (u16 (aptr + 9))

  -- So many blocks without the end flag, and one with it; their scales are up to 12.
  abbrev pub EndsAfter : ℕ → ℕ → Type 0
  EndsAfter zero aptr = (scale_of (aram aptr) ≤ 12) × (test (aram aptr) 0x01 ≡ true)
  EndsAfter (suc n) aptr =
      (scale_of (aram aptr) ≤ 12) × (test (aram aptr) 0x01 ≡ false) × EndsAfter n (u16 (aptr + 9))

  -- The samples of so many blocks in a row, by their bit patterns, and the state behind them.
  pub block_words : ℕ → ℕ → BrrFilterState → List ℕ
  block_words zero aptr st = []
  block_words (suc n) aptr st =
      map to_u16 (block_stream aram aptr st)
      ++ block_words n (u16 (aptr + 9)) (block_end aram aptr st)

  pub length-block_words :
      (n aptr : ℕ) (st : BrrFilterState) → length (block_words n aptr st) ≡ 16 * n
  unfolding block_words
  length-block_words zero aptr st = refl
  length-block_words (suc n) aptr st =
      let block = block_stream aram aptr st in
      let whole : length (map to_u16 block) ≡ 16 =
        length-map to_u16 block ∙ length-block_stream aram aptr st in
      let rest = block_words n (u16 (aptr + 9)) (block_end aram aptr st) in
      omega (
        arith,
        length-append {0} (map to_u16 block) rest,
        whole,
        length-block_words n (u16 (aptr + 9)) (block_end aram aptr st),
      )

  pub state_behind : ℕ → ℕ → BrrFilterState → BrrFilterState
  state_behind zero aptr st = st
  state_behind (suc n) aptr st = state_behind n (u16 (aptr + 9)) (block_end aram aptr st)

module _ {W : Type 0} (os : Os W) (file : ℤ → W → List ℕ) (patience : W → ℕ) where
  -- A call has ended. Unless it has called `abort()`, it returns this flag and leaves this state, and
  -- the file holds these samples.
  abbrev pub Lists : Bool → BrrFilterState → List ℕ → W → Result W (Ended Listed) → Type 0
  Lists loop st samples w (done (returned l) w') =
      (l.loop ≡ loop)
      × (l.st ≡ st)
      × Holds os file patience l.wav samples w'
      × (patience w' ≤ patience w)
  Lists loop st samples w (done aborts w') = Unit {0}
  Lists loop st samples w _ = ⊥

  Lists-from :
      (loop : Bool) (st : BrrFilterState) (samples : List ℕ) (w w' : W)
      (r : Result W (Ended Listed))
      → patience w' ≤ patience w
      → Lists loop st samples w' r
      → Lists loop st samples w r
  Lists-from loop st samples w w' (done (returned l) w'') q (a, b, h, p) = (a, b, h, omega arith)
  Lists-from loop st samples w w' (done aborts w'') q v = v
  Lists-from loop st samples w w' (done crashes w'') q v = v
  Lists-from loop st samples w w' spins q v = v
  Lists-from loop st samples w w' asserted q v = v
  Lists-from loop st samples w w' overrun q v = v

  module _ (doc : Documented os file patience) (fuel : ℕ) (aram : ℕ → ℕ) where
    -- What a block is that has been decoded.
    block_lem :
        (aptr : ℕ) (st : BrrFilterState)
        → scale_of (aram aptr) ≤ 12
        → (again : BrrFilterState → Wav → W → Result W (Ended Listed)) (wav : Wav) (w : W)
        → block_result os fuel again wav (decode_brr aram aptr st) w
          ≡ block_result os fuel again wav
              (some (record {
                samples = block_stream aram aptr st;
                ends = test (aram aptr) 0x01;
                loops = test (aram aptr) 0x02;
              }))
              w
    block_lem aptr st h again wav w =
        let low : leb (scale_of (aram aptr)) 12 ≡ true = ground arith in
        ap (λ b. block_result os fuel again wav b w) (decode_brr-stream aram aptr st ∙ rw low refl)

    -- The turns after a block, where the write succeeds.
    written_cases :
        (block rest samples : List ℕ) (loop : Bool) (st : BrrFilterState) (w : W)
        (again : Wav → W → Result W (Ended Listed))
        → ((wav' : Wav) (w' : W)
            → Holds os file patience wav' (samples ++ block) w'
            → patience w' ≤ patience w
            → Lists loop st ((samples ++ block) ++ rest) w' (again wav' w'))
        → (r : Result W (Bool × Wav)) → Extends os file patience (samples ++ block) w r
        → Lists loop st (samples ++ (block ++ rest)) w (after r (block_written again))
    unfolding block_written
    written_cases block rest samples loop st w again f (done (true, wav') w') (h, q) =
        Lists-from loop st _ w w' (again wav' w') q (
          subst (λ t. Lists loop st t w' (again wav' w')) (append_assoc samples block rest)
            (f wav' w' h q))
    written_cases block rest samples loop st w again f (done (false, wav') w') v = tt
    written_cases block rest samples loop st w again f spins v = absurd v
    written_cases block rest samples loop st w again f asserted v = absurd v
    written_cases block rest samples loop st w again f overrun v = absurd v

    -- On a system that behaves as documented, decode_brr_list ends where some block from the address
    -- on has the end flag and no scale up to it is above 12, with a turn for each block and fuel for
    -- the writes. Unless it aborts, it returns the loop flag of that block, and the samples of the
    -- blocks before it, 16 for each, are in the file behind those that were there; its own are not.
    pub decode_brr_list-Lists :
        (n turns aptr : ℕ) (st : BrrFilterState) (wav : Wav) (samples : List ℕ) (w : W)
        → Holds os file patience wav samples w
        → EndsAfter aram n aptr
        → n < turns
        → patience w + 8224 < fuel
        → Lists
            (test (aram (block_at aram n aptr)) 0x02)
            (state_behind aram (suc n) aptr st)
            (samples ++ block_words aram n aptr st)
            w
            (decode_brr_list os fuel aram turns aptr st wav w)
    unfolding decode_brr_list block_words state_behind
    decode_brr_list-Lists n zero aptr st wav samples w h e l p = absurd (omega arith)
    decode_brr_list-Lists zero (suc turns) aptr st wav samples w h (low, stop) l p =
        rw (block_lem aptr st low (decode_brr_list os fuel aram turns (u16 (aptr + 9))) wav w) (
          rw stop (
            refl,
            last-block_stream aram aptr st,
            subst (λ t. Holds os file patience wav t w) (sym (append-nil samples)) h,
            omega arith,
          ))
    decode_brr_list-Lists (suc n) (suc turns) aptr st wav samples w h (low, go, e) l p =
        rw (block_lem aptr st low (decode_brr_list os fuel aram turns (u16 (aptr + 9))) wav w) (
          let block = map to_u16 (block_stream aram aptr st) in
          let size : length block ≡ 16 =
            length-map to_u16 (block_stream aram aptr st) ∙ length-block_stream aram aptr st in
          rw (go, last-block_stream aram aptr st)
            (written_cases block (block_words aram n (u16 (aptr + 9)) (block_end aram aptr st))
              samples _ _ w
              (decode_brr_list os fuel aram turns (u16 (aptr + 9)) (block_end aram aptr st))
              (λ wav' w' h' q.
                decode_brr_list-Lists n turns (u16 (aptr + 9)) (block_end aram aptr st) wav'
                  (samples ++ block) w' h' e (omega arith) (omega arith))
              (wav_write_samples16 os fuel wav block w)
              (write_samples-Extends os file patience doc fuel wav samples block w h
                (omega (arith, size)) (omega (arith, size)))))

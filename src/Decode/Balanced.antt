-- ===== src/Decode/Balanced.antt =====
-- The memory and the files that dump_srcn holds.
use spu_kit.Wav.Create.{wav_create-Starts}
use spu_kit.Base.Int.{ℤ, to_u16}
use spu_kit.Wav.Header.{sample_bytes}
use spu_kit.Base.Lists.{length}
use spu_kit.Bufwr.Held.{bufwr_write-Keeps}
use spu_kit.Wav.{
  live, null, dangling, wav_write_samples16, wav_create, samples_result, _wav_close, WavPtr, Wav,
}
use spu_kit.Wav.Settled.{wav_close-Settles, Settles}
use spu_kit.Wav.Held.{wav_create-Made, Made}
use spu_kit.Wav.Contents.{Starts, Holds}
use spu_kit.Decode.Files.{decode_brr_list-Lists, block_words, Lists, EndsAfter}
use spu_kit.Io.Laws.{Documented}
use spu_kit.Io.Held.{Same, Keeps-after, Keeps, Holding, Counting}
use spu_kit.Bufwr.{bufwr_write, Bufwr}
use spu_kit.Sound.Brr.{BrrFilterState}
use spu_kit.Decode.{
  returned, aborts, crashes, last_samples, dump_srcn, decode_brr_list, decode_brr, created_result,
  continued, close_result, close_listed, block_written, block_result, base_result, Listed, Ended,
  DirEntry, BrrBlock,
}
use spu_kit.Base.{
  false, false, false, false, false, false, false, false, false, false, false, false, false, false,
  false, false, false, false, false, false, false, false, false, false, false, IsByte, ◌≡◌, ℕ, suc,
  ◌+◌, ◌<◌, ◌==◌, ◌&&◌, not, if◌then◌else◌, refl, arith, Bool, true, false, Bool-cases, inl, inr,
  Option, none, some, List, [], ◌++◌, u16,
}
use Prim.Native.Nat.{zero}
use mathlib.Core.List.{map}
use spu_kit.Io.{Result, Os, done, spins, asserted, overrun, after}
use spu_kit.Decode.Dumped.{at_rest, named_entry, dir_entry-named}

module _ {W : Type 0} (os : Os W) (blocks files : W → ℕ) (count : Counting os blocks files)
    (fuel : ℕ) where
  wav_write_samples16-Keeps :
      (wav : Wav) (sample : List ℕ) (w : W)
      → Keeps blocks files w (wav_write_samples16 os fuel wav sample w)
  unfolding wav_write_samples16 samples_result
  wav_write_samples16-Keeps wav sample w =
      Keeps-after blocks files w (bufwr_write os fuel wav.buf (sample_bytes sample) w) _
        (bufwr_write-Keeps os blocks files count fuel wav.buf (sample_bytes sample) w) ended
    where
      ended :
          (p : Bool × Bufwr) (w' : W)
          → Keeps blocks files w' (samples_result os wav (length sample) p w')
      ended (true, f) w' = (refl, refl)
      ended (false, f) w' = (refl, refl)

  block_result-Keeps :
      (again : BrrFilterState → Wav → W → Result W (Ended Listed)) (wav : Wav)
      (block : Option BrrBlock) (w : W)
      → ((st : BrrFilterState) (wav' : Wav) (w' : W) → Keeps blocks files w' (again st wav' w'))
      → Keeps blocks files w (block_result os fuel again wav block w)
  unfolding block_result block_written
  block_result-Keeps again wav none w h = tt
  block_result-Keeps again wav (some blk) w h = elim (Bool-cases blk.ends) [
    | inl e ↦ rw (e, block_result) (refl, refl)
    | inr e ↦
        rw (e, block_result)
          (Keeps-after blocks files w (wav_write_samples16 os fuel wav (map to_u16 blk.samples) w)
            (block_written (again (last_samples blk.samples)))
            (wav_write_samples16-Keeps wav (map to_u16 blk.samples) w) written)
  ]
    where
      written :
          (p : Bool × Wav) (w' : W)
          → Keeps blocks files w' (block_written (again (last_samples blk.samples)) p w')
      written (true, wav') w' = h (last_samples blk.samples) wav' w'
      written (false, wav') w' = (refl, refl)

  decode_brr_list-Keeps :
      (aram : ℕ → ℕ) (turns aptr : ℕ) (st : BrrFilterState) (wav : Wav) (w : W)
      → Keeps blocks files w (decode_brr_list os fuel aram turns aptr st wav w)
  unfolding decode_brr_list
  decode_brr_list-Keeps aram zero aptr st wav w = tt
  decode_brr_list-Keeps aram (suc turns) aptr st wav w =
      block_result-Keeps (decode_brr_list os fuel aram turns (u16 (aptr + 9))) wav
        (decode_brr aram aptr st) w (decode_brr_list-Keeps aram turns (u16 (aptr + 9)))

  -- A call returns, and holds what was held at the start; or the program stops, or goes on with the
  -- freed structure that wav_create has given, which is how `made` has ended.
  abbrev pub Balances : Result W WavPtr → W → Result W (Ended (Unit {0})) → Type 0
  Balances made w (done (returned _) w') = Same blocks files w w'
  Balances made w (done aborts w') = Unit {0}
  Balances made w (done crashes w') = made ≡ done dangling w'
  Balances made w asserted = Unit {0}
  Balances made w _ = ⊥

  module _ (file : ℤ → W → List ℕ) (patience : W → ℕ) (doc : Documented os file patience) (w0 : W)
      (made : Result W WavPtr) where
    closed_cases :
        (w : W) (r : Result W Bool)
        → Holding blocks files w0 w 2 1
        → Settles os blocks files count file patience doc w r
        → Balances made w0 (after r close_result)
    unfolding close_result
    closed_cases w (done true w') h v = omega (arith, h, v)
    closed_cases w (done false w') h v = tt
    closed_cases w spins h v = absurd v
    closed_cases w asserted h v = absurd v
    closed_cases w overrun h v = absurd v

    close-Balances :
        (l : Listed) (samples : List ℕ) (w : W)
        → Holds os file patience l.wav samples w
        → Holding blocks files w0 w 2 1
        → patience w + 8236 < fuel
        → Balances made w0 (close_listed os fuel l w)
    unfolding close_listed
    close-Balances l samples w h two enough = closed_cases w (_wav_close os fuel l.wav w) two (
        wav_close-Settles os blocks files count file patience doc fuel l.wav w h.is_open
          (omega (arith, h.sound, h.size)) (omega (arith, h.sound, h.size)))

    last_cases :
        (loop : Bool) (st : BrrFilterState) (samples : List ℕ) (w : W) (r : Result W (Ended Listed))
        → Holding blocks files w0 w 2 1
        → patience w + 8236 < fuel
        → Lists os file patience loop st samples w r
        → Keeps blocks files w r
        → Balances made w0 (after r (continued (close_listed os fuel)))
    last_cases loop st samples w (done (returned l) w') two enough (a, b, h, p) k =
        close-Balances l samples w' h (omega (arith, two, k)) (omega arith)
    last_cases loop st samples w (done aborts w') two enough v k = tt
    last_cases loop st samples w (done crashes w') two enough v k = absurd v
    last_cases loop st samples w spins two enough v k = absurd v
    last_cases loop st samples w asserted two enough v k = absurd v
    last_cases loop st samples w overrun two enough v k = absurd v

    module _ (aram : ℕ → ℕ) (turns : ℕ) (ent : DirEntry) (n m : ℕ)
        (base_ends : EndsAfter aram n ent.base) (loop_ends : EndsAfter aram m ent.loop)
        (base_turns : n < turns) (loop_turns : m < turns) where
      either_list :
          (looped : Bool) (st : BrrFilterState) (l : Listed) (samples : List ℕ) (w : W)
          → Holds os file patience l.wav samples w
          → Holding blocks files w0 w 2 1
          → patience w + 8236 < fuel
          → Balances made w0 (
              if looped
              then after
                  (decode_brr_list os fuel aram turns ent.loop st l.wav w)
                  (continued (close_listed os fuel))
              else close_listed os fuel l w)
      either_list true st l samples w h two enough =
          last_cases _ _ (samples ++ block_words aram m ent.loop st) w
            (decode_brr_list os fuel aram turns ent.loop st l.wav w) two enough
            (decode_brr_list-Lists os file patience doc fuel aram m turns ent.loop st l.wav samples
              w h loop_ends loop_turns (omega arith))
            (decode_brr_list-Keeps aram turns ent.loop st l.wav w)
      either_list false st l samples w h two enough = close-Balances l samples w h two enough

      base_cases :
          (loop : Bool) (st : BrrFilterState) (samples : List ℕ) (w : W)
          (r : Result W (Ended Listed))
          → Holding blocks files w0 w 2 1
          → patience w + 8236 < fuel
          → Lists os file patience loop st samples w r
          → Keeps blocks files w r
          → Balances made w0 (after r (continued (base_result os fuel aram turns ent)))
      unfolding base_result
      base_cases loop st samples w (done (returned l) w') two enough (a, b, h, p) k =
          either_list (l.loop && not (ent.loop == ent.base)) l.st l samples w' h
            (omega (arith, two, k)) (omega arith)
      base_cases loop st samples w (done aborts w') two enough v k = tt
      base_cases loop st samples w (done crashes w') two enough v k = absurd v
      base_cases loop st samples w spins two enough v k = absurd v
      base_cases loop st samples w asserted two enough v k = absurd v
      base_cases loop st samples w overrun two enough v k = absurd v

      created_cases :
          (r : Result W WavPtr)
          → made ≡ r
          → patience w0 + 8236 < fuel
          → Starts os file patience w0 r
          → Made os blocks files count w0 r
          → Balances made w0 (after r (created_result os fuel aram turns ent))
      unfolding created_result
      created_cases (done (live wav) w) same enough (h, p) two =
          base_cases _ _ (block_words aram n ent.base at_rest) w
            (decode_brr_list os fuel aram turns ent.base at_rest wav w) two (omega arith)
            (decode_brr_list-Lists os file patience doc fuel aram n turns ent.base at_rest wav [] w
              h base_ends base_turns (omega arith))
            (decode_brr_list-Keeps aram turns ent.base at_rest wav w)
      created_cases (done null w) same enough v k = tt
      created_cases (done dangling w) same enough v k = same
      created_cases spins same enough v k = absurd v
      created_cases asserted same enough v k = absurd v
      created_cases overrun same enough v k = absurd v

  -- On a system that behaves as documented, with fuel for the writes, let the blocks from the two words
  -- of the source's entry in the directory on come to one with the end flag, with no scale above 12 up
  -- to it and a turn for each. Then dump_srcn returns and holds as many blocks of memory and open
  -- files as before; or it calls `abort()`, fails its assertion, or goes on with the freed structure
  -- that a failed wav_create gives.
  pub dump_srcn-Balances :
      (file : ℤ → W → List ℕ) (patience : W → ℕ)
      → Documented os file patience
      → (aram regs : ℕ → ℕ) (wavname : ℕ → List ℕ) (turns srcn n m : ℕ) (w : W)
      → ((i : ℕ) → IsByte (aram i))
      → EndsAfter aram n (named_entry aram regs srcn).base
      → EndsAfter aram m (named_entry aram regs srcn).loop
      → n < turns
      → m < turns
      → patience w + 8236 < fuel
      → Balances
          (wav_create os fuel (wavname srcn) w)
          w
          (dump_srcn os fuel aram wavname regs turns srcn w)
  unfolding dump_srcn
  dump_srcn-Balances file patience doc aram regs wavname turns srcn n m w bytes e f l k enough =
      let made = wav_create os fuel (wavname srcn) w in
      rw (dir_entry-named aram regs srcn bytes) (
        created_cases file patience doc w made aram turns (named_entry aram regs srcn) n m e f l k
          made refl enough
          (wav_create-Starts os file patience doc fuel (wavname srcn) w (omega arith))
          (wav_create-Made os blocks files count file patience doc fuel (wavname srcn) w
            (omega arith)))

-- ===== src/Decode/Dumped.antt =====
-- The file of dump_srcn.
use spu_kit.Base.{
  ◌%◌, ◌<<<◌, refl, u16, IsByte, inl, inr, Bool-cases, ◌≤◌, ℕ, suc, ◌+◌, ◌*◌, ◌^◌, ◌<◌, ◌≡◌, ◌++◌,
  ◌==◌, ◌&&◌, not, arith, true, false, Bool, List, [], test, if◌then◌else◌,
}
use spu_kit.Base.Int.{ℤ, pos}
use spu_kit.Base.Lists.{length-append, length}
use spu_kit.Fd.Whole.{TakesAll}
use spu_kit.Io.{Result, Os, done, spins, asserted, overrun, after}
use spu_kit.Io.Laws.{Documented}
use spu_kit.Sound.Brr.{BrrFilterState}
use spu_kit.Base.Bits.{or_field}
use spu_kit.Sound.Voice.{srcn_effective_addr, read_aram_word}
use spu_kit.Wav.{wav_create, WavPtr, null, live, dangling, _wav_close, fixed_hdr}
use spu_kit.Wav.Header.{WaveHdr, hdr_bytes, sample_bytes}
use spu_kit.Wav.Contents.{Holds, Starts}
use spu_kit.Wav.Create.{wav_create-Starts}
use spu_kit.Wav.Close.{wav_close-Closes, sized_hdr, Closes}
use spu_kit.Decode.{
  Ended, returned, aborts, crashes, Listed, DirEntry, dir_entry, load_dir_entry, close_result,
  close_listed, base_result, continued, created_result, decode_brr_list, dump_srcn,
}
use spu_kit.Decode.Files.{
  length-block_words, Lists, EndsAfter, block_at, block_words, state_behind, decode_brr_list-Lists,
}

-- A word in the memory, and where the directory has the entry of a source.
abbrev pub word : (ℕ → ℕ) → ℕ → ℕ
word aram addr = aram ((addr + 1) % 2 ^ 16) * 256 + aram (addr % 2 ^ 16)

abbrev pub entry_addr : (ℕ → ℕ) → ℕ → ℕ
entry_addr regs srcn = (regs 0x5d * 256 + srcn * 4) % 2 ^ 16

-- The two words of an entry.
abbrev pub named_entry : (ℕ → ℕ) → (ℕ → ℕ) → ℕ → DirEntry
named_entry aram regs srcn = record {
  base = word aram (entry_addr regs srcn);
  loop = word aram (entry_addr regs srcn + 2);
}

pub dir_entry-named :
    (aram regs : ℕ → ℕ) (srcn : ℕ)
    → ((i : ℕ) → IsByte (aram i))
    → dir_entry aram regs srcn ≡ named_entry aram regs srcn
unfolding dir_entry load_dir_entry srcn_effective_addr read_aram_word
dir_entry-named aram regs srcn h =
    let e = entry_addr regs srcn in
    let at : u16 (u16 (regs 0x5d <<< 8) + u16 (srcn <<< 2)) ≡ e = omega arith in
    let a : u16 (e + 0) ≡ e % 2 ^ 16 = omega arith in
    let b : u16 (u16 (e + 2) + 0) ≡ (e + 2) % 2 ^ 16 = omega arith in
    let c : u16 (u16 (e + 2) + 1) ≡ (e + 2 + 1) % 2 ^ 16 = omega arith in
    rw (at, a, b, c)
      (rw
        (
          or_field 8 (aram ((e + 1) % 2 ^ 16)) (aram (e % 2 ^ 16)) (h (e % 2 ^ 16)),
          or_field 8 (aram ((e + 2 + 1) % 2 ^ 16)) (aram ((e + 2) % 2 ^ 16)) (h ((e + 2) % 2 ^ 16)),
        )
        refl)

-- The state from which decode_brr_list starts.
abbrev pub at_rest : BrrFilterState
at_rest = record { older = pos 0; old = pos 0 }

module _ (aram : ℕ → ℕ) (ent : DirEntry) (n m : ℕ) where
  -- The sample has a loop of its own: its last block says so, and it starts elsewhere.
  abbrev pub has_loop : Bool
  has_loop = test (aram (block_at aram n ent.base)) 0x02 && not (ent.loop == ent.base)

  -- What is decoded, where the end flags are `n` blocks behind the start and `m` behind the loop.
  abbrev pub dumped_words : List ℕ
  dumped_words =
      if has_loop
      then block_words aram n ent.base at_rest
        ++ block_words aram m ent.loop (state_behind aram (suc n) ent.base at_rest)
      else block_words aram n ent.base at_rest

dumped_words-le :
    (aram : ℕ → ℕ) (ent : DirEntry) (n m : ℕ) → length (dumped_words aram ent n m) ≤ 16 * (n + m)
dumped_words-le aram ent n m =
    let st = state_behind aram (suc n) ent.base at_rest in
    let a = length-block_words aram n ent.base at_rest in
    let b = length-block_words aram m ent.loop st in
    let c =
      length-append {0} (block_words aram n ent.base at_rest) (block_words aram m ent.loop st) in
    elim (Bool-cases (has_loop aram ent n m)) [
      | inl y ↦ rw y (omega (arith, a, b, c))
      | inr y ↦ rw y (omega (arith, a))
    ]

module _ {W : Type 0} (os : Os W) (file : ℤ → W → List ℕ) (patience : W → ℕ) where
  -- A call returns, and some file has a header and these samples; or the program stops, or goes on
  -- with the freed structure that wav_create has given, which is how `made` has ended.
  abbrev pub Dumps : Result W WavPtr → List ℕ → Result W (Ended (Unit {0})) → Type 0
  Dumps made samples (done (returned _) w') =
      (fd : ℤ) × (file fd w' ≡ hdr_bytes (sized_hdr (length samples)) ++ sample_bytes samples)
  Dumps made samples (done aborts w') = Unit {0}
  Dumps made samples (done crashes w') = made ≡ done dangling w'
  Dumps made samples asserted = Unit {0}
  Dumps made samples _ = ⊥

  module _ (doc : Documented os file patience)
      (whole : (fd : ℤ) (h : WaveHdr) (w : W)
        → TakesAll (hdr_bytes h) (os.pwrite fd (hdr_bytes h) 0 w))
      (fuel : ℕ) (made : Result W WavPtr) where
    close_cases :
        (fd : ℤ) (samples : List ℕ) (r : Result W Bool)
        → Closes os file patience fd samples r
        → Dumps made samples (after r close_result)
    unfolding close_result
    close_cases fd samples (done true w') e = (fd, e)
    close_cases fd samples (done false w') e = tt
    close_cases fd samples spins v = absurd v
    close_cases fd samples asserted v = absurd v
    close_cases fd samples overrun v = absurd v

    close-Dumps :
        (l : Listed) (samples : List ℕ) (w : W)
        → Holds os file patience l.wav samples w
        → 36 + 2 * length samples < 2 ^ 32
        → patience w + 8192 < fuel
        → Dumps made samples (close_listed os fuel l w)
    unfolding close_listed
    close-Dumps l samples w h short enough =
        close_cases l.wav.buf.fd samples (_wav_close os fuel l.wav w) (
          wav_close-Closes os file patience doc fuel l.wav samples w h short
            (whole l.wav.buf.fd (fixed_hdr l.wav.nr_samples)) enough)

    -- After the last of the two lists.
    last_cases :
        (loop : Bool) (st : BrrFilterState) (samples : List ℕ) (w : W) (r : Result W (Ended Listed))
        → 36 + 2 * length samples < 2 ^ 32
        → patience w + 8192 < fuel
        → Lists os file patience loop st samples w r
        → Dumps made samples (after r (continued (close_listed os fuel)))
    last_cases loop st samples w (done (returned l) w') short enough (a, b, h, p) =
        close-Dumps l samples w' h short (omega arith)
    last_cases loop st samples w (done aborts w') short enough v = tt
    last_cases loop st samples w (done crashes w') short enough v = absurd v
    last_cases loop st samples w spins short enough v = absurd v
    last_cases loop st samples w asserted short enough v = absurd v
    last_cases loop st samples w overrun short enough v = absurd v

    module _ (aram : ℕ → ℕ) (turns : ℕ) (ent : DirEntry) (n m : ℕ)
        (base_ends : EndsAfter aram n ent.base) (loop_ends : EndsAfter aram m ent.loop)
        (base_turns : n < turns) (loop_turns : m < turns)
        (short : 36 + 2 * length (dumped_words aram ent n m) < 2 ^ 32) where
      abbrev first : List ℕ
      first = block_words aram n ent.base at_rest

      abbrev second : List ℕ
      second = block_words aram m ent.loop (state_behind aram (suc n) ent.base at_rest)

      either_list :
          (looped : Bool) (l : Listed) (w : W)
          → 36 + 2 * length (if looped then first ++ second else first) < 2 ^ 32
          → Holds os file patience l.wav first w
          → patience w + 8224 < fuel
          → Dumps made (if looped then first ++ second else first) (
              if looped
              then after
                  (decode_brr_list os fuel aram turns ent.loop
                    (state_behind aram (suc n) ent.base at_rest)
                    l.wav
                    w)
                  (continued (close_listed os fuel))
              else close_listed os fuel l w)
      either_list true l w fits h enough = last_cases _ _ (first ++ second) w _ fits (omega arith) (
          decode_brr_list-Lists os file patience doc fuel aram m turns ent.loop
            (state_behind aram (suc n) ent.base at_rest) l.wav first w h loop_ends loop_turns
            enough)
      either_list false l w fits h enough = close-Dumps l first w h fits (omega arith)

      base_cases :
          (w0 : W) (r : Result W (Ended Listed))
          → patience w0 + 8224 < fuel
          → Lists os file patience
              (test (aram (block_at aram n ent.base)) 0x02)
              (state_behind aram (suc n) ent.base at_rest)
              first
              w0
              r
          → Dumps made
              (dumped_words aram ent n m)
              (after r (continued (base_result os fuel aram turns ent)))
      unfolding base_result
      base_cases w0 (done (returned l) w) enough (e, f, h, p) =
          rw (e, f, base_result) (either_list (has_loop aram ent n m) l w short h (omega arith))
      base_cases w0 (done aborts w) enough v = tt
      base_cases w0 (done crashes w) enough v = absurd v
      base_cases w0 spins enough v = absurd v
      base_cases w0 asserted enough v = absurd v
      base_cases w0 overrun enough v = absurd v

      created_cases :
          (w0 : W) (r : Result W WavPtr)
          → made ≡ r
          → patience w0 + 8236 < fuel
          → Starts os file patience w0 r
          → Dumps made (dumped_words aram ent n m) (after r (created_result os fuel aram turns ent))
      unfolding created_result
      created_cases w0 (done (live wav) w) same enough (h, p) = base_cases w _ (omega arith) (
          decode_brr_list-Lists os file patience doc fuel aram n turns ent.base at_rest wav [] w h
            base_ends base_turns (omega arith))
      created_cases w0 (done null w) same enough v = tt
      created_cases w0 (done dangling w) same enough v = same
      created_cases w0 spins same enough v = absurd v
      created_cases w0 asserted same enough v = absurd v
      created_cases w0 overrun same enough v = absurd v

  -- On a system that behaves as documented, with fuel for the writes and where pwrite(2) takes a
  -- header in one piece or fails, let a source have an entry in the directory, two words at four
  -- times its number from the page in DIR on, such that the blocks from the first and from the second
  -- word on come to one with the end flag, with no scale above 12 up to it and a turn for each. Then
  -- dump_srcn returns, calls `abort()`, fails its assertion, or goes on with the freed structure that
  -- a failed wav_create gives. If it returns, a file consists of a header with the right sizes, the
  -- samples of the blocks from the first word up to the one with the end flag, without it, and if
  -- this one has the loop flag and the second word differs, those of the blocks from there on.
  pub dump_srcn-Dumps :
      Documented os file patience
      → ((fd : ℤ) (h : WaveHdr) (w : W) → TakesAll (hdr_bytes h) (os.pwrite fd (hdr_bytes h) 0 w))
      → (fuel : ℕ) (aram regs : ℕ → ℕ) (wavname : ℕ → List ℕ) (turns srcn n m : ℕ) (w : W)
      → ((i : ℕ) → IsByte (aram i))
      → EndsAfter aram n (named_entry aram regs srcn).base
      → EndsAfter aram m (named_entry aram regs srcn).loop
      → n < turns
      → m < turns
      → 36 + 32 * (n + m) < 2 ^ 32
      → patience w + 8236 < fuel
      → Dumps
          (wav_create os fuel (wavname srcn) w)
          (dumped_words aram (named_entry aram regs srcn) n m)
          (dump_srcn os fuel aram wavname regs turns srcn w)
  unfolding dump_srcn
  dump_srcn-Dumps doc whole fuel aram regs wavname turns srcn n m w bytes e f l k short enough =
      let ent = named_entry aram regs srcn in
      let made = wav_create os fuel (wavname srcn) w in
      rw (dir_entry-named aram regs srcn bytes) (
        created_cases doc whole fuel made aram turns ent n m e f l k
          (omega (arith, dumped_words-le aram ent n m)) w made refl enough
          (wav_create-Starts os file patience doc fuel (wavname srcn) w (omega arith)))

-- ===== src/Decode.antt =====
-- The decoding of samples to WAV files of dsp.c: `decode_brr`, `decode_brr_list` and `dump_samples`
-- with what is between them.
pub mod Stream
pub mod Live
pub mod Files
pub mod Dumped
pub mod Balanced
use spu_kit.Base.{
  ℕ, suc, ◌+◌, ◌<<<◌, ◌>>>◌, bit_and, ltb, leb, ◌==◌, if◌then◌else◌, not, ◌&&◌, Bool, true, false,
  Option, none, some, List, [], ◌∷◌, u16, test,
}
use Prim.Native.Nat.{zero}
use mathlib.Core.List.{map}
use spu_kit.Base.Int.{ℤ, pos, to_i16, to_u16}
use spu_kit.Base.Lists.{get_or}
use spu_kit.Io.{Result, done, spins, asserted, Os, after}
use spu_kit.Wav.{Wav, WavPtr, null, dangling, live, wav_create, wav_write_samples16, _wav_close}
use spu_kit.Sound.Brr.{
  needs, BrrPair, BrrFilterState, brr_pair_extract, brr_pair_scale, brr_filter1, brr_filter2,
  brr_filter3,
}
use spu_kit.Sound.Voice.{read_aram_word, srcn_effective_addr, vreg}

-- The body of the loop of a case of the switch: the two samples, and `cur`.
unfoldable pub decode_pair : ℕ → BrrFilterState → BrrPair → BrrPair × BrrFilterState
unfolding to_i16 brr_filter1 brr_filter2 brr_filter3
decode_pair filter cur s =
    if filter == 0
    then (s, cur)
    else if filter == 1
    then (let a = to_i16 (brr_filter1 s.s0 cur.old) in
        let b = to_i16 (brr_filter1 s.s1 a) in
        (record { s0 = a; s1 = b }, record { older = a; old = b }))
    else if filter == 2
    then (let a = to_i16 (brr_filter2 s.s0 cur.old cur.older) in
        let b = to_i16 (brr_filter2 s.s1 a cur.old) in
        (record { s0 = a; s1 = b }, record { older = a; old = b }))
    else (let a = to_i16 (brr_filter3 s.s0 cur.old cur.older) in
        let b = to_i16 (brr_filter3 s.s1 a cur.old) in
        (record { s0 = a; s1 = b }, record { older = a; old = b }))

module _ (aram : ℕ → ℕ) where
  unfoldable pub brr_pair_load : ℕ → BrrPair
  unfolding brr_pair_extract
  brr_pair_load addr = brr_pair_extract (aram addr)

  -- The loop, with so many turns to go.
  unfoldable pub decode_pairs : ℕ → ℕ → ℕ → ℕ → BrrFilterState → List ℤ
  unfolding decode_pair brr_pair_load brr_pair_scale
  decode_pairs filter shift zero aptr cur = []
  decode_pairs filter shift (suc n) aptr cur =
      let (s, cur') = decode_pair filter cur (brr_pair_scale (brr_pair_load aptr) shift) in
      s.s0 ∷ s.s1 ∷ decode_pairs filter shift n (u16 (aptr + 1)) cur'

-- `struct brr_block`, with `*end` and `*loop`.
pub record BrrBlock : Type 0 where
  pub samples : List ℤ
  pub ends : Bool
  pub loops : Bool

-- `none` is a failed `xassert`.
unfoldable pub decode_brr : (ℕ → ℕ) → ℕ → BrrFilterState → Option BrrBlock
decode_brr aram aptr st =
    let ctrl = aram aptr in
    let filter = bit_and (ctrl >>> 2) 3 in
    let scale = ctrl >>> 4 in
    let shift = if ltb 12 scale then 12 else scale in
    needs (leb scale 12) (
      some (record {
        samples = decode_pairs aram filter shift 8 (u16 (aptr + 1)) st;
        ends = test ctrl 0x01;
        loops = test ctrl 0x02;
      }))

-- How a call ends, unless an `xassert` fails: it returns, it calls `abort()`, or it goes on with a
-- structure that is freed.
pub data Ended (A : Type 0) : Type 0 where
  returned : A → Ended A
  aborts crashes : Ended A

-- What decode_brr_list returns, with the state that `st` points to and the structure.
pub record Listed : Type 0 where
  pub loop : Bool
  pub st : BrrFilterState
  pub wav : Wav

unfoldable pub last_samples : List ℤ → BrrFilterState
last_samples s = record { older = get_or s 14 (pos 0); old = get_or s 15 (pos 0) }

-- `struct dir_entry`
pub record DirEntry : Type 0 where
  pub base : ℕ
  pub loop : ℕ

unfoldable pub load_dir_entry : (ℕ → ℕ) → ℕ → DirEntry
unfolding read_aram_word
load_dir_entry aram addr = record {
  base = read_aram_word aram addr;
  loop = read_aram_word aram (u16 (addr + 2));
}

unfoldable pub dir_entry : (ℕ → ℕ) → (ℕ → ℕ) → ℕ → DirEntry
unfolding load_dir_entry srcn_effective_addr
dir_entry aram regs srcn = load_dir_entry aram (srcn_effective_addr regs srcn)

module _ {W : Type 0} where
  -- What follows the write of a block.
  unfoldable pub block_written :
      (Wav → W → Result W (Ended Listed)) → Bool × Wav → W → Result W (Ended Listed)
  block_written again (true, wav) w = again wav w
  block_written again (false, wav) w = done aborts w

  -- What follows a call that returns.
  abbrev pub continued :
      {A B : Type 0} → (A → W → Result W (Ended B)) → Ended A → W → Result W (Ended B)
  continued f (returned a) w = f a w
  continued f aborts w = done aborts w
  continued f crashes w = done crashes w

  -- `if (!wav_close(wav)) abort()`
  unfoldable pub close_result : Bool → W → Result W (Ended (Unit {0}))
  close_result true w = done (returned tt) w
  close_result false w = done aborts w

module _ {W : Type 0} (os : Os W) (fuel : ℕ) where
  -- What follows decode_brr; `again` is the next turn of the loop.
  unfoldable pub block_result :
      (BrrFilterState → Wav → W → Result W (Ended Listed))
      → Wav
      → Option BrrBlock
      → W
      → Result W (Ended Listed)
  unfolding last_samples block_written
  block_result again wav none w = asserted
  block_result again wav (some blk) w =
      let st = last_samples blk.samples in
      if blk.ends
      then done (returned (record { loop = blk.loops; st = st; wav = wav })) w
      else after (wav_write_samples16 os fuel wav (map to_u16 blk.samples) w)
          (block_written (again st))

  unfoldable pub close_listed : Listed → W → Result W (Ended (Unit {0}))
  unfolding close_result
  close_listed l w = after (_wav_close os fuel l.wav w) close_result

  module _ (aram : ℕ → ℕ) where
    -- The loop, with so many turns at most; `fuel` is for the writes.
    unfoldable pub decode_brr_list : ℕ → ℕ → BrrFilterState → Wav → W → Result W (Ended Listed)
    unfolding block_result decode_brr
    decode_brr_list zero aptr st wav w = spins
    decode_brr_list (suc turns) aptr st wav w =
        block_result (decode_brr_list turns (u16 (aptr + 9))) wav (decode_brr aram aptr st) w

    -- What follows the first decode_brr_list.
    unfoldable pub base_result : ℕ → DirEntry → Listed → W → Result W (Ended (Unit {0}))
    unfolding decode_brr_list close_listed
    base_result turns ent l w =
        if l.loop && not (ent.loop == ent.base)
        then after (decode_brr_list turns ent.loop l.st l.wav w) (continued close_listed)
        else close_listed l w

    -- What follows wav_create.
    unfoldable pub created_result : ℕ → DirEntry → WavPtr → W → Result W (Ended (Unit {0}))
    unfolding decode_brr_list base_result
    created_result turns ent null w = asserted
    created_result turns ent dangling w = done crashes w
    created_result turns ent (live wav) w =
        after (decode_brr_list turns ent.base (record { older = pos 0; old = pos 0 }) wav w)
          (continued (base_result turns ent))

    -- `wavname` is what snprintf(3) makes of a number by "src-%u.wav".
    module _ (wavname : ℕ → List ℕ) (regs : ℕ → ℕ) where
      unfoldable pub dump_srcn : ℕ → ℕ → W → Result W (Ended (Unit {0}))
      unfolding created_result dir_entry
      dump_srcn turns srcn w =
          after (wav_create os fuel (wavname srcn) w)
            (created_result turns (dir_entry aram regs srcn))

      -- The loop, with so many voices to go, from voice `i`.
      unfoldable pub dump_voices : ℕ → ℕ → ℕ → W → Result W (Ended (Unit {0}))
      unfolding dump_srcn vreg
      dump_voices turns zero i w = done (returned tt) w
      dump_voices turns (suc n) i w =
          let rest = dump_voices turns n (i + 1) in
          if test (regs 0x4c) (1 <<< i)
          then after (dump_srcn turns (vreg regs i 4) w) (continued (λ _. rest))
          else rest w

      unfoldable pub dump_samples : ℕ → W → Result W (Ended (Unit {0}))
      unfolding dump_voices
      dump_samples turns w = dump_voices turns 8 0 w

-- ===== src/Tests/Decoding.antt =====
-- A memory with a directory entry and two blocks, and the theorems about the decoding on it.
use spu_kit.Decode.{dump_srcn, dir_entry, decode_pairs, decode_brr_list, decode_brr, brr_pair_load}
use spu_kit.Decode.Stream.{stream, scaled, decode_brr-stream, block_stream}
use spu_kit.Decode.Live.{with_four, next_input, brr_sample4-stream, Fits}
use spu_kit.Decode.Files.{state_behind, decode_brr_list-Lists, block_words, Lists}
use spu_kit.Decode.Dumped.{named_entry, dumped_words, dump_srcn-Dumps, Dumps}
use spu_kit.Sound.Brr.{vfilter_state, brr_sample4, brr_pair_scale, brr_filter, BrrFilterState}
use spu_kit.Base.{ℕ, ◌-◌, ◌≡◌, refl, arith, [], ◌∷◌, true, some, table, table-lt, IsByte, List}
use spu_kit.Base.Int.{◌+ℤ◌, ◌-ℤ◌, pos}
use spu_kit.Wav.{wav_create}
use spu_kit.Sound.{VState}
use spu_kit.Sound.Brr.Safe.{IsSane}
use spu_kit.Tests.Playing.{still}
use spu_kit.Tests.Output.{
  disk, content, idle, disk-Documented, header-TakesAll, playing, played, playing-Holds,
}

-- The entry at 0x100 names the blocks at 0x104 and 0x10d, of which the second has both flags.
abbrev stored : List ℕ
stored =
    0x04 ∷ 0x01 ∷ 0x0d ∷ 0x01 ∷ 0x20 ∷ 0x12 ∷ 0x34 ∷ 0x56 ∷ 0x78 ∷ 0x9a ∷ 0xbc ∷ 0xde ∷ 0xf0 ∷ 0x17
    ∷ 0x12 ∷ 0x34 ∷ 0x56 ∷ 0x78 ∷ 0x9a ∷ 0xbc ∷ 0xde ∷ 0xf0 ∷ []

abbrev pub memory : ℕ → ℕ
memory i = table stored (i - 0x100)

pub memory-bytes : (i : ℕ) → IsByte (memory i)
memory-bytes i = table-lt 256 stored (i - 0x100) (omega arith) refl

abbrev some_state : BrrFilterState
some_state = record { older = pos 100; old = pos 160 }

-- One byte with the first filter: 1 + 160 - 10, and 2 + 151 - 10.
decode_pairs_runs : decode_pairs memory 1 1 1 0x10e some_state ≡ pos 151 ∷ pos 143 ∷ []
unfolding decode_pairs ◌+ℤ◌ ◌-ℤ◌
decode_pairs_runs = refl

decode_brr-stream_example :
    decode_brr memory 0x10d some_state
    ≡ some (record { samples = block_stream memory 0x10d some_state; ends = true; loops = true })
decode_brr-stream_example = decode_brr-stream memory 0x10d some_state

-- A voice before the first two bytes of the first block.
abbrev at_block : VState
at_block = record still { brr_hdr = 0x20; brr_addr = 0x104; brr_off = 1 }

at_block-IsSane : IsSane at_block
at_block-IsSane = record {
  in_range = omega arith;
  aligned = refl;
  inside = omega arith;
  moved = omega arith;
  block = omega arith;
}

at_block-Fits : Fits 0 (vfilter_state at_block) (next_input memory at_block)
unfolding scaled brr_filter vfilter_state brr_pair_scale brr_pair_load
at_block-Fits = omega arith

brr_sample4-stream_example :
    brr_sample4 memory at_block
    ≡ some (
        with_four
          (record at_block { brr_off = 3 })
          (stream 0 (vfilter_state at_block) (next_input memory at_block)))
brr_sample4-stream_example =
    brr_sample4-stream memory at_block at_block-IsSane (omega arith) (omega arith) at_block-Fits

decode_brr_list-Lists_example :
    Lists
      (disk 99)
      content
      (λ d. d.quota)
      true
      (state_behind memory 2 0x104 some_state)
      (0x102 ∷ 0 ∷ block_words memory 1 0x104 some_state)
      played
      (decode_brr_list (disk 99) 9000 memory 2 0x104 some_state playing played)
decode_brr_list-Lists_example =
    decode_brr_list-Lists (disk 99) content (λ d. d.quota) (disk-Documented 99) 9000 memory 1 2
      0x104 some_state playing (0x102 ∷ 0 ∷ []) played playing-Holds
      (omega arith, refl, (omega arith, refl)) (omega arith) (omega arith)

abbrev pub one_dir : ℕ → ℕ
one_dir i = 1

dump_srcn-Dumps_example :
    Dumps
      (disk 99)
      content
      (λ d. d.quota)
      (wav_create (disk 99) 9000 (0 ∷ []) idle)
      (dumped_words memory (named_entry memory one_dir 0) 1 0)
      (dump_srcn (disk 99) 9000 memory (λ n. n ∷ []) one_dir 2 0 idle)
unfolding dir_entry
dump_srcn-Dumps_example =
    dump_srcn-Dumps (disk 99) content (λ d. d.quota) (disk-Documented 99) header-TakesAll 9000
      memory one_dir (λ n. n ∷ []) 2 0 1 0 idle memory-bytes
      (omega arith, refl, (omega arith, refl)) (omega arith, refl) (omega arith) (omega arith)
      (omega arith) (omega arith)

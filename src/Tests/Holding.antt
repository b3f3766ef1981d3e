-- ===== src/Tests/Holding.antt =====
-- A system that counts what a program holds, and on which a write works or fails, and the theorems
-- about what is held on it.
use spu_kit.Tests.Decoding.{memory-bytes, one_dir, memory}
use spu_kit.Decode.{dump_srcn, dir_entry}
use spu_kit.Wav.Settled.{wav_close-Settles, Settles}
use spu_kit.Decode.Balanced.{dump_srcn-Balances, Balances}
use spu_kit.Base.{
  false, false, false, false, false, false, false, false, false, false, false, false, false, false,
  false, false, false, false, false, false, false, false, false, false, false, ℕ, ◌+◌, ◌-◌, ◌++◌,
  refl, arith, Bool, true, false, some, List, [], ◌∷◌,
}
use spu_kit.Base.Int.{ℤ, pos}
use spu_kit.Base.Lists.{length, take}
use spu_kit.Io.{Ret, ok, error, erofs, Os}
use spu_kit.Io.Laws.{Documented, Writes, splice}
use spu_kit.Io.Held.{Counting, Same}
use spu_kit.Bufwr.{Bufwr, bufwr_close}
use spu_kit.Bufwr.Held.{bufwr_close-Releases, Releases}
use spu_kit.Wav.{Wav, wav_create, _wav_close}

record Shelf : Type 0 where
  blocks : ℕ
  files : ℕ
  written : List ℕ

abbrev content : ℤ → Shelf → List ℕ
content fd s = s.written

abbrev put : Bool → List ℕ → Shelf → Ret × Shelf
put true bs s = (ok (length bs), record s { written = s.written ++ take (length bs) bs })
put false bs s = (error erofs, s)

abbrev shelf : Bool → Os Shelf
shelf works = record {
  write = λ fd bs s. put works bs s;
  pwrite = λ fd bs off s.
      (ok (length bs), record s { written = splice off (take (length bs) bs) s.written });
  poll = λ fd s. (ok 1, s);
  fsync = λ fd s. (ok 0, s);
  close = λ fd s. (ok 0, record s { files = s.files - 1 });
  open_file = λ name s. (pos 3, record s { files = s.files + 1; written = [] });
  malloc = λ n s. (some (λ i. 0), record s { blocks = s.blocks + 1 });
  free = λ s. record s { blocks = s.blocks - 1 };
}

put-Writes :
    (works : Bool) (fd : ℤ) (bs : List ℕ) (s : Shelf)
    → Writes content (λ _. 0) fd bs s (put works bs s)
put-Writes true fd bs s = (omega arith, refl, omega arith)
put-Writes false fd bs s = ((refl, omega arith), (λ e. absurd (cc e)), (λ e. absurd (cc e)))

shelf-Documented : (works : Bool) → Documented (shelf works) content (λ _. 0)
shelf-Documented works = record {
  write_lem = λ fd bs s. put-Writes works fd bs s;
  pwrite_lem = λ fd bs off s. (omega arith, refl, omega arith);
  poll_lem = λ fd s. (refl, omega arith);
  fsync_lem = λ fd s. refl;
  close_lem = λ fd s. refl;
  malloc_lem = λ fd n s. (refl, omega arith);
  free_lem = λ fd s. refl;
  open_lem = λ name s. (refl, omega arith);
}

put-Same :
    (works : Bool) (bs : List ℕ) (s : Shelf)
    → Same (λ t. t.blocks) (λ t. t.files) s (put works bs s).1
put-Same true bs s = (refl, refl)
put-Same false bs s = (refl, refl)

shelf-Counting : (works : Bool) → Counting (shelf works) (λ s. s.blocks) (λ s. s.files)
shelf-Counting works = record {
  write_held = λ fd bs s. put-Same works bs s;
  pwrite_held = λ fd bs off s. (refl, refl);
  poll_held = λ fd s. (refl, refl);
  fsync_held = λ fd s. (refl, refl);
  close_held = λ fd s _. omega arith;
  malloc_held = λ n s. omega arith;
  free_held = λ s. omega arith;
  open_held = λ name s. omega arith;
}

abbrev holding : Shelf
holding = record { blocks = 2; files = 1; written = [] }

abbrev half_full : Bufwr
half_full = record { buf = λ i. 7; cur = 2; max = 4; fd = pos 3; corrupted = false }

bufwr_close-Releases_example :
    Releases
      (shelf false)
      (λ s. s.blocks)
      (λ s. s.files)
      (shelf-Counting false)
      2
      (pos 3)
      holding
      (bufwr_close (shelf false) 20 (some half_full) true holding)
bufwr_close-Releases_example =
    bufwr_close-Releases (shelf false) (λ s. s.blocks) (λ s. s.files) (shelf-Counting false) content
      (λ _. 0) (shelf-Documented false) 20 half_full true holding (omega arith) (omega arith)

-- A WAV file whose buffer cannot be flushed.
abbrev stuck : Wav
stuck = record { buf = half_full; nr_samples = 1 }

wav_close-Settles_example :
    Settles
      (shelf false)
      (λ s. s.blocks)
      (λ s. s.files)
      (shelf-Counting false)
      content
      (λ _. 0)
      (shelf-Documented false)
      holding
      (_wav_close (shelf false) 60 stuck holding)
wav_close-Settles_example =
    wav_close-Settles (shelf false) (λ s. s.blocks) (λ s. s.files) (shelf-Counting false) content
      (λ _. 0) (shelf-Documented false) 60 stuck holding refl (omega arith) (omega arith)

-- Source 0 has two blocks, and its loop is the second one.
dump_srcn-Balances_example :
    Balances
      (shelf true)
      (λ s. s.blocks)
      (λ s. s.files)
      (shelf-Counting true)
      9000
      (wav_create (shelf true) 9000 (0 ∷ []) holding)
      holding
      (dump_srcn (shelf true) 9000 memory (λ n. n ∷ []) one_dir 2 0 holding)
unfolding dir_entry
dump_srcn-Balances_example =
    dump_srcn-Balances (shelf true) (λ s. s.blocks) (λ s. s.files) (shelf-Counting true) 9000
      content (λ _. 0) (shelf-Documented true) memory one_dir (λ n. n ∷ []) 2 0 1 0 holding
      memory-bytes (omega arith, refl, (omega arith, refl)) (omega arith, refl) (omega arith)
      (omega arith) (omega arith)

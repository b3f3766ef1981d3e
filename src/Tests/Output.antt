-- ===== src/Tests/Output.antt =====
-- A disk that takes so many bytes at a time and interrupts so many calls, and the theorems about the
-- output files on it.
use spu_kit.Tests.{machine, machine-IsValid}
use spu_kit.Machine.Ensures.{Any}
use spu_kit.Play.{run}
use spu_kit.Play.Action.{Device}
use spu_kit.Play.Ensures.{Fine}
use spu_kit.Play.Safe.{run-Fine, Crash, Recording, Complete}
use spu_kit.Base.{some}
use spu_kit.Tests.Playing.{starting}
use spu_kit.Sound.Mix.{next_sample}
use spu_kit.Render.{dsp_run32, Render}
use spu_kit.Render.Recorded.{dsp_run32-Records, Records}
use spu_kit.Bufwr.Bytes.{load_bytes}
use spu_kit.Wav.Header.{WaveHdr, sample_bytes, length-hdr_bytes, hdr_bytes, hdr}
use spu_kit.Bufwr.Write.{bufwr_write-Accepts}
use spu_kit.Wav.{fixed_hdr, _wav_close, Wav}
use spu_kit.Bufwr.Empty.{bufwr_write-Refuses, Refuses}
use spu_kit.Fd.Whole.{fd_pwrite-Places, TakesAll, Places}
use spu_kit.Fd.Pwrite.{fd_pwrite-short}
use spu_kit.Wav.Contents.{Holds}
use spu_kit.Wav.Close.{wav_close-Closes, Closes}
use spu_kit.Bufwr.{bufwr_write, Bufwr}
use spu_kit.Fd.Write.{fd_write-Appends, Appends}
use spu_kit.Bufwr.Keeps.{Accepts}
use Prim.Native.Nat.{zero, suc, min}
use spu_kit.Io.{ok, done}
use spu_kit.Fd.{fd_write, fd_pwrite, success}
use spu_kit.Base.{◌≡◌, ◌∷◌, false, ℕ, suc, refl, arith, some, List, [], ◌++◌}
use spu_kit.Base.Int.{ℤ, pos}
use spu_kit.Base.Lists.{length, take}
use spu_kit.Io.{Ret, ok, error, eintr, Os}
use spu_kit.Io.Laws.{Documented, Writes, Pwrites, splice}

pub record Disk : Type 0 where
  pub quota : ℕ
  pub bytes : List ℕ

abbrev pub content : ℤ → Disk → List ℕ
content fd d = d.bytes

abbrev take_some : ℕ → ℕ → (List ℕ → List ℕ) → List ℕ → ℕ → Disk → Ret × Disk
take_some c zero f bs n d = (ok (min c n), record d { bytes = f (take (min c n) bs) })
take_some c (suc q) f bs n d = (error eintr, record d { quota = q })

abbrev pub disk : ℕ → Os Disk
disk c = record {
  write = λ fd bs d. take_some c d.quota (λ part. d.bytes ++ part) bs (length bs) d;
  pwrite = λ fd bs off d. take_some c d.quota (λ part. splice off part d.bytes) bs (length bs) d;
  poll = λ fd d. (ok 1, d);
  fsync = λ fd d. (ok 0, d);
  close = λ fd d. (ok 0, d);
  open_file = λ name d. (pos 3, record d { bytes = [] });
  malloc = λ n d. (some (λ i. 0), d);
  free = λ d. d;
}

write_law :
    (c : ℕ) (fd : ℤ) (bs : List ℕ) (q : ℕ) (xs : List ℕ)
    → Writes content
        (λ d. d.quota)
        fd
        bs
        (record { quota = q; bytes = xs })
        ((disk c).write fd bs (record { quota = q; bytes = xs }))
write_law c fd bs zero xs = (omega arith, refl, omega arith)
write_law c fd bs (suc q) xs = ((refl, omega arith), (λ _. omega arith), (λ e. absurd (cc e)))

pwrite_law :
    (c : ℕ) (fd : ℤ) (bs : List ℕ) (off q : ℕ) (xs : List ℕ)
    → Pwrites content
        (λ d. d.quota)
        fd
        bs
        off
        (record { quota = q; bytes = xs })
        ((disk c).pwrite fd bs off (record { quota = q; bytes = xs }))
pwrite_law c fd bs off zero xs = (omega arith, refl, omega arith)
pwrite_law c fd bs off (suc q) xs = ((refl, omega arith), (λ _. omega arith), (λ e. absurd (cc e)))

pub disk-Documented : (c : ℕ) → Documented (disk c) content (λ d. d.quota)
disk-Documented c = record {
  write_lem = λ fd bs d. write_law c fd bs d.quota d.bytes;
  pwrite_lem = λ fd bs off d. pwrite_law c fd bs off d.quota d.bytes;
  poll_lem = λ fd d. (refl, omega arith);
  fsync_lem = λ fd d. refl;
  close_lem = λ fd d. refl;
  malloc_lem = λ fd n d. (refl, omega arith);
  free_lem = λ fd d. refl;
  open_lem = λ name d. (refl, omega arith);
}

abbrev pub busy : Disk
busy = record { quota = 2; bytes = 9 ∷ [] }

abbrev five : List ℕ
five = 1 ∷ 2 ∷ 3 ∷ 4 ∷ 5 ∷ []

fd_write_runs :
    fd_write (disk 2) 20 (pos 3) five busy
    ≡ done success (record { quota = 0; bytes = 9 ∷ 1 ∷ 2 ∷ 3 ∷ 4 ∷ 5 ∷ [] })
unfolding fd_write
fd_write_runs = refl

fd_write-Appends_example :
    Appends
      (disk 2)
      content
      (λ d. d.quota)
      (pos 3)
      five
      busy
      (fd_write (disk 2) 20 (pos 3) five busy)
fd_write-Appends_example =
    fd_write-Appends (disk 2) content (λ d. d.quota) (pos 3) (disk-Documented 2) 20 five busy
      (omega arith) (omega arith)

abbrev pub idle : Disk
idle = record { quota = 0; bytes = [] }

fd_pwrite-short_example :
    (fd_pwrite (disk 3) 2 (pos 3) 0 five idle
      ≡ done success (record { quota = 0; bytes = 1 ∷ 2 ∷ 3 ∷ 1 ∷ 2 ∷ [] }))
    × ((1 ∷ 2 ∷ 3 ∷ 1 ∷ 2 ∷ []) ≡ splice 3 (take 2 five) (splice 0 (take 3 five) []))
unfolding splice
fd_pwrite-short_example =
    fd_pwrite-short (disk 3) content (λ d. d.quota) (pos 3) five 0 0 3 idle
      (record { quota = 0; bytes = 1 ∷ 2 ∷ 3 ∷ [] })
      (record { quota = 0; bytes = 1 ∷ 2 ∷ 3 ∷ 1 ∷ 2 ∷ [] }) (omega arith) (omega arith)
      (omega arith) (disk-Documented 3) first second
  where
    first :
        (disk 3).pwrite (pos 3) five 0 idle ≡ (ok 3, record { quota = 0; bytes = 1 ∷ 2 ∷ 3 ∷ [] })
    first = refl

    second :
        (disk 3).pwrite (pos 3) (take 2 five) 3 (record { quota = 0; bytes = 1 ∷ 2 ∷ 3 ∷ [] })
        ≡ (ok 2, record { quota = 0; bytes = 1 ∷ 2 ∷ 3 ∷ 1 ∷ 2 ∷ [] })
    second = refl

fd_pwrite-Places_example :
    Places
      (disk 9)
      content
      (λ d. d.quota)
      (pos 3)
      0
      five
      busy
      (fd_pwrite (disk 9) 20 (pos 3) 0 five busy)
fd_pwrite-Places_example =
    fd_pwrite-Places (disk 9) content (λ d. d.quota) (pos 3) 0 five (disk-Documented 9) takes_all
      (omega arith) (omega arith) 20 busy (omega arith)
  where
    by_quota :
        (q : ℕ) (xs : List ℕ)
        → TakesAll five ((disk 9).pwrite (pos 3) five 0 (record { quota = q; bytes = xs }))
    by_quota zero xs = refl
    by_quota (suc q) xs = tt

    takes_all : (d : Disk) → TakesAll five ((disk 9).pwrite (pos 3) five 0 d)
    takes_all d = by_quota d.quota d.bytes

-- A buffer of four bytes with one in it.
abbrev small : Bufwr
small = record { buf = λ i. 7; cur = 1; max = 4; fd = pos 3; corrupted = false }

bufwr_write-Accepts_example :
    Accepts
      (disk 2)
      content
      (λ d. d.quota)
      small
      five
      busy
      (bufwr_write (disk 2) 20 small five busy)
bufwr_write-Accepts_example =
    bufwr_write-Accepts (disk 2) content (λ d. d.quota) (disk-Documented 2) 20 small five busy
      (omega arith) refl (omega arith) (omega arith)

-- A buffer of two bytes with none in it.
abbrev tiny : Bufwr
tiny = record { buf = λ i. 7; cur = 0; max = 2; fd = pos 3; corrupted = false }

bufwr_write-Refuses_example :
    Refuses (disk 2) content (λ d. d.quota) (pos 3) busy (bufwr_write (disk 2) 20 tiny five busy)
bufwr_write-Refuses_example =
    bufwr_write-Refuses (disk 2) content (λ d. d.quota) (disk-Documented 2) 20 tiny five busy
      (omega arith) refl refl (omega arith) (omega arith)

-- A WAV file of two samples, of which one is still in the buffer.
abbrev pub playing : Wav
playing = record {
  buf = record { buf = λ i. 0; cur = 2; max = 8192; fd = pos 3; corrupted = false };
  nr_samples = 2;
}

abbrev pub played : Disk
played = record { quota = 1; bytes = hdr_bytes hdr ++ sample_bytes (0x102 ∷ []) }

pub playing-Holds : Holds (disk 99) content (λ d. d.quota) playing (0x102 ∷ 0 ∷ []) played
unfolding hdr_bytes sample_bytes hdr load_bytes
playing-Holds = record {
  sound = omega arith;
  is_open = refl;
  size = refl;
  content = refl;
  counted = refl;
}

-- The disk takes every header in one piece.
pub header-TakesAll :
    (fd : ℤ) (h : WaveHdr) (d : Disk)
    → TakesAll (hdr_bytes h) ((disk 99).pwrite fd (hdr_bytes h) 0 d)
header-TakesAll fd h d = by_quota d.quota d.bytes
  where
    by_quota :
        (q : ℕ) (xs : List ℕ)
        → TakesAll
            (hdr_bytes h)
            ((disk 99).pwrite fd (hdr_bytes h) 0 (record { quota = q; bytes = xs }))
    by_quota zero xs = omega (arith, length-hdr_bytes h)
    by_quota (suc q) xs = tt

wav_close-Closes_example :
    Closes
      (disk 99)
      content
      (λ d. d.quota)
      (pos 3)
      (0x102 ∷ 0 ∷ [])
      (_wav_close (disk 99) 9000 playing played)
wav_close-Closes_example =
    wav_close-Closes (disk 99) content (λ d. d.quota) (disk-Documented 99) 9000 playing
      (0x102 ∷ 0 ∷ []) played playing-Holds (omega arith) (header-TakesAll (pos 3) (fixed_hdr 2))
      (omega arith)

-- One sample of the DSP is in the file and the buffer.
abbrev recording : Render
recording = record { sound = starting; wav = some playing; nr_samples = 1 }

dsp_run32-Records_example :
    Records
      (disk 99)
      content
      (λ d. d.quota)
      (next_sample starting)
      (0x102 ∷ 0 ∷ [])
      played
      (dsp_run32 (disk 99) 9000 recording played)
dsp_run32-Records_example =
    dsp_run32-Records (disk 99) content (λ d. d.quota) (disk-Documented 99) header-TakesAll 9000
      recording (0x102 ∷ 0 ∷ []) played playing-Holds refl (omega arith) (omega arith)

-- A machine whose DSP has made a sample.
abbrev pub playing_device : Device
playing_device = record { machine = machine; render = recording }

-- Nine rounds, with the DSP in the eighth.
run-Fine_example :
    Fine
      (Recording (disk 99) content (λ d. d.quota) 9000)
      (Complete (disk 99) content (λ d. d.quota) 9000)
      (Crash (disk 99) content (λ d. d.quota) 9000)
      Any
      (run (disk 99) 9000 9 0 playing_device played)
run-Fine_example =
    run-Fine (disk 99) content (λ d. d.quota) 9000 (disk-Documented 99) header-TakesAll 9 0
      playing_device played machine-IsValid
      (0x102 ∷ 0 ∷ [], playing-Holds, refl, omega arith, omega arith)

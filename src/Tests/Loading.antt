-- ===== src/Tests/Loading.antt =====
-- A file of zeros that is read 4096 bytes at a time, and the theorems about loading on it.
use spu_kit.Cpu.Run.{spc700_reset}
use spu_kit.Apu.{apu_reset}
use spu_kit.Cpu.Run.Reset.{reset-Rebooted, Rebooted}
use spu_kit.Io.{ok, Os}
use spu_kit.Main.{handle_file}
use spu_kit.Main.First.{handle_file-Handles, Handles}
use spu_kit.Fd.Whole.{TakesAll}
use spu_kit.Wav.Header.{WaveHdr, hdr_bytes}
use spu_kit.Play.Action.{Device}
use spu_kit.Tests.Output.{playing_device}
use spu_kit.Base.{none}
use spu_kit.Base.Int.{ℤ}
use spu_kit.Io.Laws.{splice, Documented}
use spu_kit.Load.Restore.{setup-IsRestored, IsRestored}
use spu_kit.Load.{setup_spc700}
use spu_kit.Machine.{Machine}
use spu_kit.Machine.Action.{◌>>◌, done}
use spu_kit.Tests.{machine-IsValid, machine}
use spu_kit.Base.Lists.{take, length}
use spu_kit.Load.Fill.{fill_buf-Fills, Reading, Fills, AllBytes}
use Prim.Native.Nat.{zero, suc, min}
use spu_kit.Base.{true, some, ◌∙◌, ◌++◌, ◌≡◌, ◌∷◌, ◌-◌, ◌+◌, ℕ, refl, arith, ap, [], List}
use spu_kit.Base.Int.{pos}
use spu_kit.Load.{fill_buf, bytes, Reader}

-- The state is the number of bytes that are left.
abbrev zeros : ℕ → List ℕ
zeros zero = []
zeros (suc n) = 0 ∷ zeros n

length-zeros : (n : ℕ) → length (zeros n) ≡ n
length-zeros zero = refl
length-zeros (suc n) = ap suc (length-zeros n)

zeros-AllBytes : (n : ℕ) → AllBytes (zeros n)
zeros-AllBytes zero = tt
zeros-AllBytes (suc n) = (omega arith, zeros-AllBytes n)

zeros-append : (m n : ℕ) → zeros (m + n) ≡ zeros m ++ zeros n
zeros-append zero n = let e : 0 + n ≡ n = omega arith in rw e refl
zeros-append (suc m) n =
    let e : suc m + n ≡ suc (m + n) = omega arith in rw e (ap (λ t. 0 ∷ t) (zeros-append m n))

abbrev chunk : ℕ → ℕ → ℕ
chunk n left = min (min 4096 n) left

abbrev tape : Reader ℕ
tape = record {
  read = λ fd n left. (bytes (zeros (chunk n left)), left - chunk n left);
  open_read = λ name left. (pos 3, left);
  close_read = λ fd left. left;
}

tape-Reading : Reading tape (λ fd left. zeros left)
tape-Reading = record {
  read_lem = λ fd n left.
      (omega (arith, length-zeros (chunk n left)), zeros-AllBytes (chunk n left), rest n left);
}
  where
    rest : (n left : ℕ) → zeros left ≡ zeros (chunk n left) ++ zeros (left - chunk n left)
    rest n left =
        let e : left ≡ chunk n left + (left - chunk n left) = omega arith in
        ap zeros e ∙ zeros-append (chunk n left) (left - chunk n left)

fill_buf-Fills_example :
    Fills tape (λ fd left. zeros left) (pos 3) 5000 [] 6000 (fill_buf tape 5001 (pos 3) 5000 6000)
fill_buf-Fills_example =
    fill_buf-Fills tape (λ fd left. zeros left) tape-Reading 5001 (pos 3) 5000 6000 (omega arith)

-- A tape beside a file that takes everything.
record Desk : Type 0 where
  left : ℕ
  written : List ℕ

abbrev desk : Os Desk
desk = record {
  write = λ fd bs d. (ok (length bs), record d { written = d.written ++ take (length bs) bs });
  pwrite = λ fd bs off d.
      (ok (length bs), record d { written = splice off (take (length bs) bs) d.written });
  poll = λ fd d. (ok 1, d);
  fsync = λ fd d. (ok 0, d);
  close = λ fd d. (ok 0, d);
  open_file = λ name d. (pos 4, record d { written = [] });
  malloc = λ n d. (some (λ i. 0), d);
  free = λ d. d;
}

desk-Documented : Documented desk (λ fd d. d.written) (λ d. 0)
desk-Documented = record {
  write_lem = λ fd bs d. (omega arith, refl, omega arith);
  pwrite_lem = λ fd bs off d. (omega arith, refl, omega arith);
  poll_lem = λ fd d. (refl, omega arith);
  fsync_lem = λ fd d. refl;
  close_lem = λ fd d. refl;
  malloc_lem = λ fd n d. (refl, omega arith);
  free_lem = λ fd d. refl;
  open_lem = λ name d. (refl, omega arith);
}

abbrev desk_tape : Reader Desk
desk_tape = record {
  read = λ fd n d. (bytes (zeros (chunk n d.left)), record d { left = d.left - chunk n d.left });
  open_read = λ name d. (pos 3, d);
  close_read = λ fd d. d;
}

desk_tape-Reading : Reading desk_tape (λ fd d. zeros d.left)
desk_tape-Reading = record { read_lem = λ fd n d. tape-Reading.read_lem fd n d.left }

desk-TakesAll :
    (fd : ℤ) (h : WaveHdr) (d : Desk) → TakesAll (hdr_bytes h) (desk.pwrite fd (hdr_bytes h) 0 d)
desk-TakesAll fd h d = refl

-- A machine that has played nothing.
abbrev silent_device : Device
silent_device = record {
  machine = machine;
  render = record playing_device.render { wav = none; nr_samples = 0 };
}

handle_file-Handles_example :
    Handles desk
      (λ fd d. d.written)
      (λ d. 0)
      70000
      (handle_file desk_tape desk 70000 9
        (0x61 ∷ [])
        silent_device
        (record { left = 66048; written = [] }))
handle_file-Handles_example =
    handle_file-Handles desk (λ fd d. d.written) (λ d. 0) 70000 desk-Documented desk-TakesAll
      desk_tape (λ fd d. zeros d.left) desk_tape-Reading 9 (λ d. omega arith) (0x61 ∷ [])
      silent_device (record { left = 66048; written = [] }) machine-IsValid refl refl

-- A file of sevens, which hides the boot ROM, after one that has shown it.
abbrev rom_shown : Machine
rom_shown = record machine { show_rom = true }

setup-IsRestored_example :
    (s : Machine) × (setup_spc700 (λ _. 7) rom_shown ≡ done tt s) × IsRestored (λ _. 7) true s
setup-IsRestored_example = setup-IsRestored (λ _. 7) rom_shown (omega arith)

reset-Rebooted_example :
    (s' : Machine) × ((apu_reset >> spc700_reset) machine ≡ done tt s') × Rebooted machine s'
reset-Rebooted_example = reset-Rebooted machine refl

-- ===== src/Load.antt =====
-- main.c: the loading of an SPC file, and the start of the emulation from it.
pub mod Fill
pub mod Start
pub mod Restore
use spu_kit.Base.{
  ℕ, suc, ◌+◌, ◌-◌, leb, ◌==◌, if◌then◌else◌, Bool, true, false, List, [], ◌∷◌, ◌++◌, ◌<<<◌, bit_or,
  copy, table,
}
use Prim.Native.Nat.{zero}
use spu_kit.Base.Int.{ℤ, is_negative}
use spu_kit.Base.Lists.{length}
use spu_kit.Io.{Errno, Result, done, spins, asserted, Os, after}
use spu_kit.Fd.{Status, success, failure, fd_write}
use spu_kit.Bufwr.{closed}
use spu_kit.Machine.Action.{M, modify_dsp, ◌>>=◌, ◌>>◌}
use spu_kit.Apu.{apu_state_from_aram, apu_restore}
use spu_kit.Cpu.Run.{Spc700Regs, spc700_restore}

-- What read(2) returns, with the bytes that it has put into the buffer.
pub data Got : Type 0 where
  bytes : List ℕ → Got
  no_bytes : Errno → Got

-- The calls of the operating system for a file that is read.
pub record Reader (W : Type 0) : Type 0 where
  pub read : ℤ → ℕ → W → Got × W
  pub open_read : List ℕ → W → ℤ × W
  pub close_read : ℤ → W → W

-- `sizeof(struct spc_file)`
abbrev pub spc_size : ℕ
spc_size = 0x10200

module _ {W : Type 0} (reader : Reader W) where
  -- What follows read(2). `again` is the loop with what is left of `len` and the buffer so far.
  unfoldable pub read_result :
      (ℕ → List ℕ → W → Result W (Bool × List ℕ)) → ℕ → List ℕ → Got × W → Result W (Bool × List ℕ)
  read_result again len buf (no_bytes e, w) = done (false, buf) w
  read_result again len buf (bytes got, w) =
      if length got == 0
      then done (false, buf) w
      else if leb (length got) len
      then again (len - length got) (buf ++ got) w
      else asserted

  -- `while (len)`
  unfoldable pub fill_buf_loop : ℕ → ℤ → ℕ → List ℕ → W → Result W (Bool × List ℕ)
  unfolding read_result
  fill_buf_loop zero fd len buf w = spins
  fill_buf_loop (suc fuel) fd len buf w = elim (len == 0) [
    | true ↦ done (true, buf) w
    | false ↦ read_result (fill_buf_loop fuel fd) len buf (reader.read fd len w)
  ]

  unfoldable pub fill_buf : ℕ → ℤ → ℕ → W → Result W (Bool × List ℕ)
  unfolding fill_buf_loop
  fill_buf fuel fd len w = fill_buf_loop fuel fd len [] w

  -- What follows open(2).
  unfoldable pub load_result : ℕ → ℤ × W → Result W (Bool × List ℕ)
  unfolding fill_buf
  load_result fuel (fd, w) =
      if is_negative fd
      then done (false, []) w
      else after (fill_buf fuel fd spc_size w) (λ r w'. done r (reader.close_read fd w'))

  -- Whether the file is loaded, and `spc` by its bytes.
  unfoldable pub load : ℕ → List ℕ → W → Result W (Bool × List ℕ)
  unfolding load_result
  load fuel name w = load_result fuel (reader.open_read name w)

-- `convert_regs(spc.regs)` on a little-endian machine, where `le32toh` changes nothing.
unfoldable pub convert_regs : (ℕ → ℕ) → Spc700Regs
convert_regs spc = record {
  pc = spc 37 + (spc 38 <<< 8);
  a = spc 39;
  x = spc 40;
  y = spc 41;
  psw = spc 42;
  sp = spc 43;
}

-- `spc.ram`, `spc.dsp_regs` and `spc.extra_ram`
abbrev pub part : (ℕ → ℕ) → ℕ → ℕ → ℕ
part spc off i = spc (off + i)

-- The register file of `dsp_restore`, as the APU sees it.
unfoldable pub restore_regs : (ℕ → ℕ) → M (Unit {0})
restore_regs saved = modify_dsp (λ d. record d { regs = copy d.regs 0 saved 0 0x80 })

-- `setup_spc700` after `dump_ram`, whose result it does not use.
unfoldable pub setup_spc700 : (ℕ → ℕ) → M (Unit {0})
unfolding convert_regs restore_regs
setup_spc700 spc = do
  spc700_restore (convert_regs spc) (part spc 0x100) (part spc 0x101c0)
  apu_restore (apu_state_from_aram (part spc 0x100))
  restore_regs (part spc 0x10100)

module _ {W : Type 0} (os : Os W) where
  -- What follows open(2), the file being closed on either way.
  unfoldable pub dump_result : ℕ → List ℕ → ℤ × W → Result W Bool
  dump_result fuel ram (fd, w) =
      if is_negative fd
      then done false w
      else after (fd_write os fuel fd ram w) (λ s w'.
        let (r, w'') = os.close fd w' in
        done (if closed os r then (elim s [ success ↦ true | failure e ↦ false ]) else false) w'')

  unfoldable pub dump_ram : ℕ → List ℕ → List ℕ → W → Result W Bool
  unfolding dump_result
  dump_ram fuel ram name w = dump_result fuel ram (os.open_file name w)

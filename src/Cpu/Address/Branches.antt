-- ===== src/Cpu/Address/Branches.antt =====
-- Relative branches of spc700.c.
use spu_kit.Machine.Action.{pure, done, ◌>>=◌}
use spu_kit.Machine.Action.{◌>>=◌}
use spu_kit.Cpu.Insn.Branch.{branch_if}
use spu_kit.Cpu.Address.{set_pc, relative, fetch_insn, displace, branch}
use spu_kit.Base.{true, refl, false, if◌then◌else◌, ◌^◌, ◌≡◌, ◌%◌, ◌+◌, ℕ, u16, arith, IsByte, Bool}
use spu_kit.Machine.{Machine, Cpu}

-- A branch adds the displacement as an `int8_t`, modulo 2 ^ 16: with 128 added to both sides, the
-- displacement plus 128 is a natural number.
pub displace-signed :
    (pc disp : ℕ)
    → IsByte disp
    → (displace pc disp + 128) % 2 ^ 16 ≡ (pc + (disp + 128) % 256) % 2 ^ 16
unfolding displace
displace-signed pc disp h = ground arith

-- The machine with another program counter.
abbrev jumped : ℕ → Machine → Machine
jumped pc s = record s { cpu = record s.cpu { pc = pc } }

either :
    (b : Bool) (s : Machine) (disp : ℕ)
    → (if b then branch disp else pure tt) s
      ≡ done tt (jumped (if b then displace s.cpu.pc disp else s.cpu.pc) s)
unfolding branch set_pc ◌>>=◌
either true s disp = refl
either false s disp = refl

-- A conditional branch reads its displacement at the program counter, and goes to the displaced
-- address after it if its condition holds of the registers, to the next instruction if not; it
-- changes nothing else.
branch_if-pc :
    (cond : Cpu → Bool) (s : Machine)
    → let next = u16 (s.cpu.pc + 1) in
      let disp = s.aram s.cpu.pc in
      branch_if cond s
      ≡ done tt (jumped (if cond (record s.cpu { pc = next }) then displace next disp else next) s)
unfolding branch_if branch relative fetch_insn set_pc ◌>>=◌
branch_if-pc cond s =
    either (cond (record s.cpu { pc = u16 (s.cpu.pc + 1) })) (jumped (u16 (s.cpu.pc + 1)) s) _

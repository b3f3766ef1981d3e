-- ===== src/Load/Start.antt =====
-- The start of the emulation from a file.
use mathlib.Core.Path.{subst}
use spu_kit.Base.{◌∙◌, ◌<◌, ◌+◌, ◌≡◌, true, false}
use spu_kit.Base.Lists.{length}
use spu_kit.Base.Int.{ℤ, is_negative}
use spu_kit.Cpu.Safe.Restore.{state-bytes, spc700_restore-Ensures, apu_restore-Ensures, IsValidRegs}
use spu_kit.Machine.Valid.{copy-bytes}
use spu_kit.Base.{
  ℕ, true, table, sym, inr, inl, false, arith, ap, [], List, IsByte, Bool-cases, Bool,
}
use spu_kit.Machine.Ensures.{Ensures-then, Ensures-modify_dsp, Ensures, Any}
use spu_kit.Load.Fill.{table-IsByte, fill_buf-Fills, Reading, Fills, AllBytes}
use spu_kit.Io.{Result, done, spins, asserted, overrun, after}
use spu_kit.Load.{
  restore_regs, part, convert_regs, Reader, load, load_result, setup_spc700, fill_buf, spc_size,
}

restore_regs-Ensures :
    (saved : ℕ → ℕ) → ((i : ℕ) → IsByte (saved i)) → Ensures Any (restore_regs saved)
unfolding restore_regs
restore_regs-Ensures saved h =
    Ensures-modify_dsp _
      (λ d v. record { regs_fit = copy-bytes d.regs 0 saved 0 0x80 v.regs_fit h })

convert_regs-IsValidRegs :
    (spc : ℕ → ℕ) → ((i : ℕ) → IsByte (spc i)) → IsValidRegs (convert_regs spc)
unfolding convert_regs
convert_regs-IsValidRegs spc h = record {
  pc_fits = omega (arith, h 37, h 38);
  a_fits = h 39;
  x_fits = h 40;
  y_fits = h 41;
  sp_fits = h 43;
}

pub setup-Ensures : (spc : ℕ → ℕ) → ((i : ℕ) → IsByte (spc i)) → Ensures Any (setup_spc700 spc)
unfolding setup_spc700
setup-Ensures spc h =
    Ensures-then _ _
      (spc700_restore-Ensures (convert_regs spc) (part spc 0x100) (part spc 0x101c0)
        (convert_regs-IsValidRegs spc h) (λ i. h (0x100 + i)) (λ i. h (0x101c0 + i)))
      (Ensures-then _ _ (apu_restore-Ensures _ (state-bytes (part spc 0x100) (λ i. h (0x100 + i))))
        (restore_regs-Ensures (part spc 0x10100) (λ i. h (0x10100 + i))))

module _ {W : Type 0} (reader : Reader W) (input : ℤ → W → List ℕ) where
  -- A load has ended, and what it has loaded is of the size of a file and of bytes.
  abbrev pub Loads : Result W (Bool × List ℕ) → Type 0
  Loads (done (true, spc) w) = (length spc ≡ spc_size) × ((i : ℕ) → IsByte (table spc i))
  Loads (done (false, spc) w) = Unit {0}
  Loads _ = ⊥

  load_cases :
      (fd : ℤ) (w : W) (r : Result W (Bool × List ℕ))
      → Fills reader input fd spc_size [] w r
      → Loads (after r (λ q w'. done q (reader.close_read fd w')))
  load_cases fd w (done (true, out) w') (got, o, l, b, e) =
      (ap length o ∙ l, λ i. table-IsByte out i (subst AllBytes (sym o) b))
  load_cases fd w (done (false, out) w') f = tt
  load_cases fd w spins f = absurd f
  load_cases fd w asserted f = absurd f
  load_cases fd w overrun f = absurd f

  result-Loads :
      Reading reader input
      → (fuel : ℕ) (r : ℤ × W) → spc_size < fuel
      → Loads (load_result reader fuel r)
  unfolding load_result
  result-Loads law fuel (fd, w) enough = elim (Bool-cases (is_negative fd)) [
    | inl e ↦ rw (e, load_result) tt
    | inr e ↦
        rw (e, load_result)
          (load_cases fd w (fill_buf reader fuel fd spc_size w)
            (fill_buf-Fills reader input law fuel fd spc_size w enough))
  ]

  -- Where read(2) gives at most the bytes asked for, load ends, and a file that it accepts is one of
  -- 0x10200 bytes.
  pub load-Loads :
      Reading reader input
      → (fuel : ℕ) (name : List ℕ) (w : W) → spc_size < fuel
      → Loads (load reader fuel name w)
  unfolding load
  load-Loads law fuel name w enough = result-Loads law fuel (reader.open_read name w) enough

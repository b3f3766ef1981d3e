-- ===== src/Dsp/Safe.antt =====
-- The invariant of the machine through accesses to the DSP registers.
use spu_kit.Base.{ℕ, bit_and, arith, IsByte, test}
use spu_kit.Machine.{Dsp}
use spu_kit.Machine.Valid.{IsValidDsp}
use spu_kit.Machine.Ensures.{
  Ensures, Any, Ensures-if, Ensures-abort, Ensures-gets, Ensures-modify_dsp,
}
use spu_kit.Dsp.{store, dsp_store, dsp_load}

store-IsValidDsp :
    (addr byte : ℕ) → IsByte byte → (d : Dsp) → IsValidDsp d → IsValidDsp (store addr byte d)
unfolding store
store-IsValidDsp addr byte h d v = record { regs_fit = λ i. ground (arith, v.regs_fit i) }

pub dsp_store-Ensures : (addr byte : ℕ) → IsByte byte → Ensures Any (dsp_store addr byte)
unfolding dsp_store
dsp_store-Ensures addr byte h =
    Ensures-if (test addr 0x80) _ _ (λ _. Ensures-abort)
      (λ _. Ensures-modify_dsp _ (store-IsValidDsp (bit_and addr 0x7f) byte h))

pub dsp_load-Ensures : (addr : ℕ) → Ensures IsByte (dsp_load addr)
unfolding dsp_load
dsp_load-Ensures addr =
    Ensures-if (test addr 0x80) _ _ (λ _. Ensures-abort)
      (λ _. Ensures-gets _ (λ s v. v.dsp_valid.regs_fit (bit_and addr 0x7f)))

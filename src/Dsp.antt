-- ===== src/Dsp.antt =====
-- dsp.c: the register file as the APU sees it.
pub mod Safe
pub mod RoundTrip
pub mod Counters
pub mod Rates
use spu_kit.Base.{ℕ, bit_and, ◌==◌, if◌then◌else◌, test, update}
use spu_kit.Machine.{Dsp}
use spu_kit.Machine.Action.{M, abort, gets, modify_dsp}

abbrev pub reg_endx : ℕ
reg_endx = 0x7c

-- `store`: any write to ENDX clears it.
unfoldable pub store : ℕ → ℕ → Dsp → Dsp
store addr byte d =
    if addr == reg_endx
    then record d { regs = update d.regs reg_endx 0 }
    else record d { regs = update d.regs addr byte }

-- `bad_store` and `open_bus` end in `abort()`.
unfoldable pub dsp_store : ℕ → ℕ → M (Unit {0})
dsp_store addr byte = if test addr 0x80 then abort else modify_dsp (store (bit_and addr 0x7f) byte)

unfoldable pub dsp_load : ℕ → M ℕ
dsp_load addr = if test addr 0x80 then abort else gets (λ s. s.dsp.regs (bit_and addr 0x7f))

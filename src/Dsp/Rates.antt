-- ===== src/Dsp/Rates.antt =====
-- `ctr_read` of dsp.c, which says whether an event of a rate falls on this sample.
pub mod Periods
use spu_kit.Base.{ℕ, bit_and, ◌==◌, if◌then◌else◌, Bool, false, [], ◌∷◌, table}
use spu_kit.Dsp.Counters.{RateCounters}

unfoldable pub ctr_number : ℕ → ℕ
ctr_number = table (
    0xff ∷ 0 ∷ 1 ∷ 2 ∷ 0 ∷ 1 ∷ 2 ∷ 0 ∷ 1 ∷ 2 ∷ 0 ∷ 1 ∷ 2 ∷ 0 ∷ 1 ∷ 2 ∷ 0 ∷ 1 ∷ 2 ∷ 0 ∷ 1 ∷ 2 ∷ 0 ∷ 1
    ∷ 2 ∷ 0 ∷ 1 ∷ 2 ∷ 0 ∷ 1 ∷ 0 ∷ 0 ∷ [])

unfoldable pub ctr_mask : ℕ → ℕ
ctr_mask = table (
    0 ∷ 0x7ff ∷ 0x1ff ∷ 0x0ff ∷ 0x3ff ∷ 0x0ff ∷ 0x07f ∷ 0x1ff ∷ 0x07f ∷ 0x03f ∷ 0x0ff ∷ 0x03f
    ∷ 0x01f ∷ 0x07f ∷ 0x01f ∷ 0x00f ∷ 0x03f ∷ 0x00f ∷ 0x007 ∷ 0x01f ∷ 0x007 ∷ 0x003 ∷ 0x00f ∷ 0x003
    ∷ 0x001 ∷ 0x007 ∷ 0x001 ∷ 0x000 ∷ 0x003 ∷ 0x000 ∷ 0x001 ∷ 0x000 ∷ [])

unfoldable pub ctr_rate : ℕ → ℕ
ctr_rate = table (1 ∷ 3 ∷ 5 ∷ [])

unfoldable pub ctr_read : ℕ → RateCounters → Bool
unfolding ctr_number ctr_mask ctr_rate
ctr_read rate c =
    let ctr_nr = ctr_number rate in
    if rate == 0
    then false
    else if bit_and (c.out ctr_nr) (ctr_mask rate) == 0
    then c.internal ctr_nr == ctr_rate ctr_nr
    else false

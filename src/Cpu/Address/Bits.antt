-- ===== src/Cpu/Address/Bits.antt =====
-- Single bits of memory in spc700.c: `bitaddr_load` and `bitaddr_store`.
use spu_kit.Memory.RoundTrip.{mem_store_lem, mem_load_lem}
use spu_kit.Machine.Action.{done, ◌>>=◌}
use spu_kit.Machine.Action.{◌>>=◌}
use spu_kit.Base.Bits.{test_single, digit-or, digit-lt, digit-and, digit}
use spu_kit.Memory.{apu_mmio_address}
use spu_kit.Base.{
  ==_refl, ◌^◌, ◌*◌, ◌∙◌, ◌==◌, arith, ◌≡◌, if◌then◌else◌, ◌<<<◌, ◌<◌, ℕ, update, true, test, refl,
  not8, false, each-lt, bit_or, bit_and, Bool,
}
use spu_kit.Cpu.Address.{bitaddr_store, bitaddr_load, Bitaddr}
use spu_kit.Machine.{Machine}

-- The masks of a bit, digit by digit.
abbrev Masks : ℕ → Type 0
Masks k = (digit k (1 <<< k) ≡ 1) × (digit k (not8 (1 <<< k)) ≡ 0)

masks : (k : ℕ) → k < 8 → Masks k
masks k h =
    each-lt Masks 8
      (
        (refl, refl),
        (
          (refl, refl),
          (
            (refl, refl),
            ((refl, refl), ((refl, refl), ((refl, refl), ((refl, refl), ((refl, refl), tt))))),
          ),
        ),
      )
      k h

test_bit : (k n : ℕ) → test n (1 <<< k) ≡ (digit k n == 1)
test_bit k n = let e : 1 * 2 ^ k ≡ 2 ^ k = omega arith in rw e (test_single k n)

written-test :
    (val : Bool) (byte k : ℕ)
    → k < 8
    → test (if val then bit_or byte (1 <<< k) else bit_and byte (not8 (1 <<< k))) (1 <<< k) ≡ val
written-test true byte k h =
    test_bit k _ ∙ rw (digit-or k byte (1 <<< k), (masks k h).0) (ground (arith, digit-lt k byte))
written-test false byte k h =
    test_bit k _
    ∙ rw (digit-and k byte (not8 (1 <<< k)), (masks k h).1) (ground (arith, digit-lt k byte))

-- A bit stored in a byte that is not of an APU register is loaded again.
bitaddr_store-load :
    (m : Bitaddr) (val : Bool) (s : Machine)
    → m.bit < 8
    → apu_mmio_address m.addr ≡ false
    → (bitaddr_store m val >>= λ _. bitaddr_load m) s
      ≡ done val (record s {
        aram = update s.aram m.addr (
            if val
            then bit_or (s.aram m.addr) (1 <<< m.bit)
            else bit_and (s.aram m.addr) (not8 (1 <<< m.bit)));
      })
unfolding bitaddr_store bitaddr_load ◌>>=◌
bitaddr_store-load m val s h k =
    let old = s.aram m.addr in
    let new = if val then bit_or old (1 <<< m.bit) else bit_and old (not8 (1 <<< m.bit)) in
    rw (mem_load_lem m.addr s k) (
      rw (mem_store_lem m.addr new s k) (
        rw (mem_load_lem m.addr (record s { aram = update s.aram m.addr new }) k)
          (rw (==_refl m.addr) (rw (written-test val old m.bit h) refl))))

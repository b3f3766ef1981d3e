-- ===== src/Dsp/RoundTrip.antt =====
-- The register file of dsp.c behind `dsp_store` and `dsp_load`.
use spu_kit.Base.Bits.{and_mask, test_single}
use spu_kit.Dsp.{store, dsp_store, dsp_load}
use spu_kit.Base.{
  ==_refl, ==_iff, ◌==◌, refl, inr, inl, false, bit_and, Bool-cases, if◌then◌else◌, ◌≡◌, ℕ, update,
  test, leb, arith, IsByte,
}
use spu_kit.Machine.Action.{gets, modify_dsp, aborted, done, ◌>>=◌}
use spu_kit.Machine.{Machine}

high_bit : (addr : ℕ) → IsByte addr → test addr 0x80 ≡ leb 128 addr
high_bit addr h = ground (arith, test_single 7 addr)

stored :
    (addr byte : ℕ) (s : Machine)
    → (gets (λ t. t.dsp.regs addr)) (record s { dsp = store addr byte s.dsp })
      ≡ done (if addr == 0x7c then 0 else byte) (record s {
        dsp = record s.dsp { regs = update s.dsp.regs addr (if addr == 0x7c then 0 else byte) };
      })
unfolding store ◌>>=◌
stored addr byte s = elim (Bool-cases (addr == 0x7c)) [
  | inl e ↦ (let a : addr ≡ 0x7c = (==_iff addr 0x7c).0 e in rw a refl)
  | inr e ↦ rw (e, ==_refl addr) refl
]

put :
    (addr byte : ℕ) (s : Machine)
    → modify_dsp (store addr byte) s
      ≡ done tt (record s {
        dsp = record s.dsp { regs = update s.dsp.regs addr (if addr == 0x7c then 0 else byte) };
      })
unfolding store ◌>>=◌
put addr byte s = elim (Bool-cases (addr == 0x7c)) [
  | inl e ↦ (let a : addr ≡ 0x7c = (==_iff addr 0x7c).0 e in rw a refl)
  | inr e ↦ rw e refl
]

-- A register of the DSP reads back what was stored, and ENDX reads 0 whatever was stored; the other
-- registers are as before. A load changes nothing and gives the register. An address from 0x80 on
-- ends the program, in a store and in a load.
pub dsp_store-load :
    (addr byte : ℕ) (s : Machine)
    → IsByte addr
    → ((dsp_store addr byte >>= λ _. dsp_load addr) s ≡ (
        if leb 128 addr
        then aborted
        else done (if addr == 0x7c then 0 else byte) (record s {
          dsp = record s.dsp { regs = update s.dsp.regs addr (if addr == 0x7c then 0 else byte) };
        })))
      × (dsp_store addr byte s ≡ (
          if leb 128 addr
          then aborted
          else done tt (record s {
            dsp = record s.dsp { regs = update s.dsp.regs addr (if addr == 0x7c then 0 else byte) };
          })))
      × (dsp_load addr s ≡ (if leb 128 addr then aborted else done (s.dsp.regs addr) s))
unfolding ◌>>=◌ dsp_store dsp_load store
dsp_store-load addr byte s h =
    let masked : leb 128 addr ≡ false → bit_and addr 0x7f ≡ addr =
      λ e. ground (arith, and_mask 7 addr) in
    rw (high_bit addr h) (elim (Bool-cases (leb 128 addr)) [
      | inl e ↦ rw e (refl, refl, refl)
      | inr e ↦ rw e (rw (masked e) (stored addr byte s, put addr byte s, refl))
    ])

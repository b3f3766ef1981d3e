-- ===== src/Memory/Safe.antt =====
-- The invariant of the machine through loads and stores, and the addresses of the APU registers.
use spu_kit.Base.Bits.Digit.{and_digit}
use spu_kit.Base.{◌>>>◌, ◌<<<◌, bit_or, ℕ, ◌*◌, ◌/◌, ◌≡◌, bit_and, true, arith, u16, IsByte, IsWord}
use spu_kit.Base.Bits.{and_mask, or_field}
use spu_kit.Machine.Valid.{update-bytes}
use spu_kit.Machine.Ensures.{
  Ensures-then, Ensures-bind, Ensures, Any, Ensures-gets, Ensures-modify, Ensures-if, Ensures-pure,
  ensures_rules,
}
use spu_kit.Apu.Safe.{IsMmio, apu_mmio_store-Ensures, apu_mmio_load-Ensures}
use spu_kit.Memory.{apu_mmio_address, poke, mem_store, mem_load, mem_load_word, mem_store_word}

-- `addr & 0xfff0` clears the lowest hexadecimal digit.
pub and_fff0 : (addr : ℕ) → IsWord addr → bit_and addr 0xfff0 ≡ addr / 16 * 16
and_fff0 a h = omega (
  arith,
  and_digit a 0xfff0,
  and_digit (a / 2) 0x7ff8,
  and_digit (a / 2 / 2) 0x3ffc,
  and_digit (a / 2 / 2 / 2) 0x1ffe,
  and_mask 12 (a / 2 / 2 / 2 / 2),
)

pub address-IsMmio : (addr : ℕ) → IsWord addr → apu_mmio_address addr ≡ true → IsMmio addr
unfolding apu_mmio_address
address-IsMmio addr h e = ground (arith, and_fff0 addr h)

poke-Ensures : (addr byte : ℕ) → IsByte byte → Ensures Any (poke addr byte)
unfolding poke
poke-Ensures addr byte h = Ensures-modify _ (λ s v. record {
  cpu_valid = v.cpu_valid;
  aram_fits = update-bytes s.aram addr byte v.aram_fits h;
  extra_fits = v.extra_fits;
  apu_valid = v.apu_valid;
  dsp_valid = v.dsp_valid;
})

pub mem_store-Ensures :
    (addr byte : ℕ) → IsWord addr → IsByte byte → Ensures Any (mem_store addr byte)
unfolding mem_store
mem_store-Ensures addr byte ha hb =
    Ensures-then _ _
      (Ensures-if (apu_mmio_address addr) _ _
        (λ e. apu_mmio_store-Ensures addr byte (address-IsMmio addr ha e) hb)
        (λ _. Ensures-pure tt tt))
      (poke-Ensures addr byte hb)

pub mem_load-Ensures : (addr : ℕ) → IsWord addr → Ensures IsByte (mem_load addr)
unfolding mem_load
mem_load-Ensures addr ha =
    Ensures-if (apu_mmio_address addr) _ _
      (λ e. apu_mmio_load-Ensures addr (address-IsMmio addr ha e))
      (λ _. Ensures-gets _ (λ s v. v.aram_fits addr))

pub joined-IsWord : (hi lo : ℕ) → IsByte hi → IsByte lo → IsWord (bit_or (hi <<< 8) lo)
joined-IsWord hi lo hh hl = omega (arith, or_field 8 hi lo hl)

pub u16-IsWord : (n : ℕ) → IsWord (u16 n)
u16-IsWord n = omega arith

pub mem_load_word-Ensures : (addr : ℕ) → Ensures IsWord (mem_load_word addr)
unfolding mem_load_word
mem_load_word-Ensures addr = Ensures-bind _ _ (mem_load-Ensures _ (u16-IsWord _)) (λ lo hl.
    Ensures-bind _ _ (mem_load-Ensures _ (u16-IsWord _))
      (λ hi hh. Ensures-pure _ (joined-IsWord hi lo hh hl)))

pub low-IsByte : (n : ℕ) → IsByte (bit_and n 0xff)
low-IsByte n = omega (arith, and_mask 8 n)

pub high-IsByte : (n : ℕ) → IsWord n → IsByte (n >>> 8)
high-IsByte n h = omega arith

pub mem_store_word-Ensures : (addr word : ℕ) → IsWord word → Ensures Any (mem_store_word addr word)
unfolding mem_store_word
mem_store_word-Ensures addr word h =
    search (mem_store-Ensures, u16-IsWord, low-IsByte, high-IsByte, ensures_rules)

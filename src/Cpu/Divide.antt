-- ===== src/Cpu/Divide.antt =====
-- `div`, `mul` and `xcn` of spc700.c against arithmetic.
use spu_kit.Base.Bits.{or_field}
use native.Mathlib.Nat.{mod-lt, div-lt_iff_lt-mul}
use native.Mathlib.Omega.{div_any}
use spu_kit.Cpu.Flags.{set_zn}
use spu_kit.Cpu.Address.{get_ya}
use spu_kit.Cpu.Insn.Word.{exchange, divide}
use spu_kit.Machine.Valid.{IsValidCpu}
use spu_kit.Base.{
  ◌∙◌, ◌^◌, ◌<<<◌, ◌%◌, true, refl, ltb, bit_or, arith, ◌==◌, ◌/◌, ◌+◌, ◌*◌, ◌≡◌, ◌<◌, ℕ, false,
  IsByte,
}
use spu_kit.Machine.{Cpu}

quotient_fits : (ya x : ℕ) → ya < 256 * x → 0 < x → ya / x < 256
quotient_fits ya x h p = (div-lt_iff_lt-mul p).1 h

-- `div YA,X` from registers in range with Y below X, which is when the quotient fits in a byte: A
-- becomes the quotient and Y the remainder of YA by X, the overflow is clear, and Z says that A is 0.
pub divide-quotient :
    (c : Cpu)
    → IsValidCpu c
    → c.y < c.x
    → (c.x * (divide c).a + (divide c).y ≡ c.y * 256 + c.a)
      × ((divide c).y < c.x)
      × ((divide c).overflow ≡ false)
      × ((divide c).zero ≡ ((divide c).a == 0))
unfolding divide set_zn get_ya
divide-quotient c v h =
    let ya = c.y * 256 + c.a in
    let joined : bit_or (c.y <<< 8) c.a ≡ ya = or_field 8 c.y c.a v.a_fits in
    let takes : ltb c.y (c.x <<< 1) ≡ true = ground arith in
    let positive : 0 < c.x = omega arith in
    let quotient = quotient_fits ya c.x (omega arith) positive in
    let small = mod-lt ya positive in
    let whole : ya / c.x % 2 ^ 8 ≡ ya / c.x = omega arith in
    let rest : ya % c.x % 2 ^ 8 ≡ ya % c.x = omega arith in
    rw (takes, joined, whole, rest) (div_any ya c.x, small, ground arith, refl)

exchange_value : (a : ℕ) → IsByte a → exchange a ≡ a % 16 * 16 + a / 16
unfolding exchange
exchange_value a h = omega (arith, or_field 4 a (a / 16) (omega arith))

-- `xcn` of the exchange of a byte is the byte.
pub exchange-exchange : (a : ℕ) → IsByte a → exchange (exchange a) ≡ a
exchange-exchange a h =
    let once : exchange a ≡ a % 16 * 16 + a / 16 = exchange_value a h in
    let twice = exchange_value (exchange a) (omega arith) in twice ∙ omega arith

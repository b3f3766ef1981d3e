-- ===== src/Cpu/Alu/Sums.antt =====
-- `adc` and `sbc` of spc700.c against sums of integers.
use Prim.Native.Nat.{min}
use spu_kit.Base.Bits.{digit-xor, test_single, digit-and, digit, and_mask}
use spu_kit.Base.Bits.Digit.{and_digit}
use spu_kit.Cpu.Alu.{sbc, adc}
use spu_kit.Base.{
  of_bool-lt, ◌||◌, not8, u8, u16, ◌∙◌, refl, ◌&&◌, ◌/◌, ◌*◌, ◌%◌, ◌≡◌, ◌<◌, ◌+◌, ℕ, test, of_bool,
  not, ltb, leb, bit_xor, bit_and, arith, IsByte,
}
use spu_kit.Machine.{Cpu}

-- The tests of single bits and of the high byte that the ALU makes, as comparisons.
pub msb : (n : ℕ) → IsByte n → test n 0x80 ≡ leb 128 n
msb n h = ground (arith, test_single 7 n)

and_even : (a m : ℕ) → bit_and a (m * 2) ≡ bit_and (a / 2) m * 2
and_even a m =
    let e : m * 2 / 2 ≡ m = omega arith in
    let d : bit_and a (m * 2) ≡ bit_and (a / 2) m * 2 + min (a % 2) (m * 2 % 2) =
      rw e at (and_digit a (m * 2)) in
    omega arith

and_16 : (a m : ℕ) → bit_and a (m * 2 * 2 * 2 * 2) ≡ bit_and (a / 2 / 2 / 2 / 2) m * 16
and_16 a m = omega (
  arith,
  and_even a (m * 2 * 2 * 2),
  and_even (a / 2) (m * 2 * 2),
  and_even (a / 2 / 2) (m * 2),
  and_even (a / 2 / 2 / 2) m,
)

and_high : (n : ℕ) → n < 512 → bit_and n 0xff00 ≡ n / 256 * 256
and_high n h = omega (
  arith,
  and_16 n 0xff0,
  and_16 (n / 2 / 2 / 2 / 2) 0xff,
  and_mask 8 (n / 2 / 2 / 2 / 2 / 2 / 2 / 2 / 2),
)

high_byte : (n : ℕ) → n < 512 → test n 0xff00 ≡ leb 256 n
high_byte n h = ground (arith, and_high n h)

-- An `int8_t` given by its bits, plus 128.
abbrev pub biased : ℕ → ℕ
biased n = (n + 128) % 256

-- Digit 7 of a byte is its sign.
sign_digit : (n : ℕ) → IsByte n → digit 7 n ≡ n / 128
sign_digit n h = omega arith

overflow_digit :
    (a b r : ℕ)
    → digit 7 (bit_and (bit_xor a r) (bit_xor b r))
      ≡ min ((digit 7 a + digit 7 r) % 2) ((digit 7 b + digit 7 r) % 2)
overflow_digit a b r =
    rw (digit-and 7 (bit_xor a r) (bit_xor b r), digit-xor 7 a r, digit-xor 7 b r) refl

-- The overflow of a sum `r` of `a`, `b` and a carry `k`.
overflow_test :
    (a b k : ℕ)
    → IsByte a
    → IsByte b
    → k < 2
    → test (bit_and (bit_xor a ((a + b + k) % 256)) (bit_xor b ((a + b + k) % 256))) 0x80
      ≡ not (leb 128 (biased a + biased b + k) && ltb (biased a + biased b + k) 384)
overflow_test a b k ha hb hk =
    let r = (a + b + k) % 256 in
    test_single 7 (bit_and (bit_xor a r) (bit_xor b r)) ∙ rw (overflow_digit a b r) (ground arith)

half_digit :
    (a b r : ℕ) → digit 4 (bit_xor (bit_xor a b) r) ≡ ((digit 4 a + digit 4 b) % 2 + digit 4 r) % 2
half_digit a b r = rw (digit-xor 4 (bit_xor a b) r, digit-xor 4 a b) refl

half_test :
    (a b k : ℕ)
    → IsByte a
    → IsByte b
    → k < 2
    → test (bit_xor (bit_xor a b) ((a + b + k) % 256)) 0x10 ≡ leb 16 (a % 16 + b % 16 + k)
half_test a b k ha hb hk =
    let r = (a + b + k) % 256 in
    test_single 4 (bit_xor (bit_xor a b) r) ∙ rw (half_digit a b r) (ground arith)

split_sum : (n : ℕ) → n < 512 → u8 n + 256 * of_bool (test n 0xff00) ≡ n
split_sum n h = rw (high_byte n h) (ground arith)

-- The sum of two bytes and the carry: the byte returned with the new carry is the sum; the half
-- carry is the carry out of the low four bits; the overflow says that the sum of the operands as
-- `int8_t` and the carry is not an `int8_t`.
pub adc-sum :
    (a b : ℕ) (c : Cpu)
    → IsByte a
    → IsByte b
    → ((adc a b c).0 + 256 * of_bool (adc a b c).1.carry ≡ a + b + of_bool c.carry)
      × ((adc a b c).1.half_carry ≡ leb 16 (a % 16 + b % 16 + of_bool c.carry))
      × ((adc a b c).1.overflow
          ≡ not (
              leb 128 (biased a + biased b + of_bool c.carry)
              && ltb (biased a + biased b + of_bool c.carry) 384))
unfolding adc
adc-sum a b c ha hb =
    let k = of_bool c.carry in
    let small = of_bool-lt c.carry in
    let e : u16 (a + b + k) ≡ a + b + k = omega arith in
    rw e (
      split_sum (a + b + k) (omega arith),
      half_test a b k ha hb small,
      overflow_test a b k ha hb small,
    )

-- The difference of two bytes with a borrow, the carry inverted, in and out; the overflow says that
-- the difference of the operands as `int8_t` less the borrow is not an `int8_t`.
pub sbc-difference :
    (a b : ℕ) (c : Cpu)
    → IsByte a
    → IsByte b
    → ((sbc a b c).0 + b + of_bool (not c.carry) ≡ a + 256 * of_bool (not (sbc a b c).1.carry))
      × ((sbc a b c).1.overflow ≡ (
          ltb (biased a + 128) (biased b + of_bool (not c.carry))
          || ltb (biased b + of_bool (not c.carry) + 127) (biased a)))
unfolding sbc
sbc-difference a b c ha hb =
    let (sum, half, over) = adc-sum a (not8 b) c ha (omega arith) in
    (ground arith, over ∙ ground arith)

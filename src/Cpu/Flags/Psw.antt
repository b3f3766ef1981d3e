-- ===== src/Cpu/Flags/Psw.antt =====
-- The processor status word of spc700.c: packing and unpacking the flags in turn.
use spu_kit.Cpu.Flags.{psw_decompose, psw_compose}
use spu_kit.Base.Bits.{test_single, or_field, or_comm, digit-lt, digit}
use spu_kit.Base.{
  of_bool-lt, ◌∙◌, ◌<<<◌, ◌*◌, ◌≡◌, ◌^◌, ◌<◌, ◌+◌, ℕ, true, test, refl, of_bool, false, bit_or,
  arith, IsByte, Bool,
}
use spu_kit.Machine.{Cpu}

with_flag : (k q r : ℕ) → r < 2 ^ k → bit_or r (q <<< k) ≡ q * 2 ^ k + r
with_flag k q r h = or_comm r (q <<< k) ∙ or_field k q r h

-- Eight digits put in one byte.
abbrev weigh : (a b c d e f g h : ℕ) → ℕ
weigh a b c d e f g h = a + b * 2 + c * 4 + d * 8 + e * 16 + f * 32 + g * 64 + h * 128

join_digits :
    (a b c d e f g h : ℕ)
    → a < 2
    → b < 2
    → c < 2
    → d < 2
    → e < 2
    → f < 2
    → g < 2
    → h < 2
    → bit_or
        (bit_or
          (bit_or
            (bit_or (bit_or (bit_or (bit_or a (b <<< 1)) (c <<< 2)) (d <<< 3)) (e <<< 4))
            (f <<< 5))
          (g <<< 6))
        (h <<< 7)
      ≡ weigh a b c d e f g h
join_digits a b c d e f g h ha hb hc hd he hf hg hh = rw (with_flag 1 b a (omega arith)) (
    rw (with_flag 2 c (b * 2 + a) (omega arith)) (
      rw (with_flag 3 d (c * 4 + (b * 2 + a)) (omega arith)) (
        rw (with_flag 4 e (d * 8 + (c * 4 + (b * 2 + a))) (omega arith)) (
          rw (with_flag 5 f (e * 16 + (d * 8 + (c * 4 + (b * 2 + a)))) (omega arith)) (
            rw (with_flag 6 g (f * 32 + (e * 16 + (d * 8 + (c * 4 + (b * 2 + a))))) (omega arith)) (
              rw
                (with_flag 7 h (g * 64 + (f * 32 + (e * 16 + (d * 8 + (c * 4 + (b * 2 + a))))))
                  (omega arith))
                (omega arith)))))))

compose_value :
    (c : Cpu)
    → psw_compose c
      ≡ weigh
          (of_bool c.carry)
          (of_bool c.zero)
          (of_bool c.psw_i)
          (of_bool c.half_carry)
          (of_bool c.psw_b)
          (of_bool c.psw_p)
          (of_bool c.overflow)
          (of_bool c.negative)
unfolding psw_compose
compose_value c =
    join_digits _ _ _ _ _ _ _ _ (of_bool-lt c.carry) (of_bool-lt c.zero) (of_bool-lt c.psw_i)
      (of_bool-lt c.half_carry) (of_bool-lt c.psw_b) (of_bool-lt c.psw_p) (of_bool-lt c.overflow)
      (of_bool-lt c.negative)

one_digit : (n k : ℕ) (b : Bool) → digit k n ≡ of_bool b → test n (2 ^ k) ≡ b
one_digit n k true h = test_single k n ∙ rw h refl
one_digit n k false h = test_single k n ∙ rw h refl

of_test : (k n : ℕ) → of_bool (test n (2 ^ k)) ≡ digit k n
of_test k n = rw (test_single k n) (ground (arith, digit-lt k n))

digits_of :
    (n : ℕ)
    → IsByte n
    → weigh
        (digit 0 n)
        (digit 1 n)
        (digit 2 n)
        (digit 3 n)
        (digit 4 n)
        (digit 5 n)
        (digit 6 n)
        (digit 7 n)
      ≡ n
digits_of n h = omega arith

-- Unpacking a byte into the flags and packing them again gives the byte.
pub compose-decompose : (psw : ℕ) (c : Cpu) → IsByte psw → psw_compose (psw_decompose psw c) ≡ psw
unfolding psw_decompose
compose-decompose psw c h =
    compose_value (psw_decompose psw c)
    ∙ rw
        (
          of_test 0 psw,
          of_test 1 psw,
          of_test 2 psw,
          of_test 3 psw,
          of_test 4 psw,
          of_test 5 psw,
          of_test 6 psw,
          of_test 7 psw,
        )
        (digits_of psw h)

weigh_digits :
    (a b c d e f g h : ℕ)
    → a < 2
    → b < 2
    → c < 2
    → d < 2
    → e < 2
    → f < 2
    → g < 2
    → h < 2
    → let n = weigh a b c d e f g h in
      (digit 0 n ≡ a)
      × (digit 1 n ≡ b)
      × (digit 2 n ≡ c)
      × (digit 3 n ≡ d)
      × (digit 4 n ≡ e)
      × (digit 5 n ≡ f)
      × (digit 6 n ≡ g)
      × (digit 7 n ≡ h)
weigh_digits a b c d e f g h ha hb hc hd he hf hg hh = (
  omega arith,
  omega arith,
  omega arith,
  omega arith,
  omega arith,
  omega arith,
  omega arith,
  omega arith,
)

-- Packing the flags and unpacking the byte over any registers gives back every flag; the registers
-- are not touched.
decompose-compose :
    (c d : Cpu)
    → psw_decompose (psw_compose c) d ≡ record c { pc = d.pc; a = d.a; x = d.x; y = d.y; sp = d.sp }
unfolding psw_decompose
decompose-compose c d =
    let (d0, d1, d2, d3, d4, d5, d6, d7) =
      weigh_digits _ _ _ _ _ _ _ _ (of_bool-lt c.carry) (of_bool-lt c.zero) (of_bool-lt c.psw_i)
        (of_bool-lt c.half_carry) (of_bool-lt c.psw_b) (of_bool-lt c.psw_p) (of_bool-lt c.overflow)
        (of_bool-lt c.negative) in
    rw (compose_value c) (
      rw
        (
          one_digit _ 0 c.carry d0,
          one_digit _ 1 c.zero d1,
          one_digit _ 2 c.psw_i d2,
          one_digit _ 3 c.half_carry d3,
          one_digit _ 4 c.psw_b d4,
          one_digit _ 5 c.psw_p d5,
          one_digit _ 6 c.overflow d6,
          one_digit _ 7 c.negative d7,
        )
        refl)

-- ===== src/Base/Bits/Digit.antt =====
-- The native bit operations mean a recursion on binary digits with fuel. Without the fuel, it is one
-- equation for the lowest digit.
use mathlib.Core.Path.{◌≡◌, refl, ap}
use mathlib.Core.WellFounded.{Acc, WellFounded}
use Prim.Native.Nat.{
  ℕ, zero, suc, ◌+◌, ◌*◌, ◌/◌, ◌%◌, ◌≤◌, ◌<◌, min, max, differ, bit_and, bit_or, bit_xor, digits,
  bitwise, bit_and-bitwise, bit_or-bitwise, bit_xor-bitwise,
}
use native.Mathlib.Omega.{arith}

module _ (left : ℕ → ℕ) (op : ℕ → ℕ → ℕ) where
  -- Any two amounts of fuel that reach the end give one result.
  enough : (k l a b : ℕ) → a ≤ k → a ≤ l → digits left op k a b ≡ digits left op l a b
  enough zero zero a b p q = refl
  enough zero (suc l) zero b p q = refl
  enough zero (suc l) (suc a) b p q = absurd (omega arith)
  enough (suc k) zero zero b p q = refl
  enough (suc k) zero (suc a) b p q = absurd (omega arith)
  enough (suc k) (suc l) zero b p q = refl
  enough (suc k) (suc l) (suc a) b p q =
      ap (λ t. t * 2 + op (suc a % 2) (b % 2))
        (enough k l (suc a / 2) (b / 2) (omega arith) (omega arith))

  -- `left b` is the result at 0, and has to follow the digits too.
  by_digit :
      ((b : ℕ) → left b ≡ left (b / 2) * 2 + op 0 (b % 2))
      → (a b : ℕ) → bitwise left op a b ≡ bitwise left op (a / 2) (b / 2) * 2 + op (a % 2) (b % 2)
  by_digit base zero b = base b
  by_digit base (suc a) b =
      ap (λ t. t * 2 + op (suc a % 2) (b % 2))
        (enough a (suc a / 2) (suc a / 2) (b / 2) (omega arith) (omega arith))

pub and_digit : (a b : ℕ) → bit_and a b ≡ bit_and (a / 2) (b / 2) * 2 + min (a % 2) (b % 2)
and_digit a b = simp bit_and-bitwise (by_digit (λ b. 0) min (λ b. omega arith) a b)

pub or_digit : (a b : ℕ) → bit_or a b ≡ bit_or (a / 2) (b / 2) * 2 + max (a % 2) (b % 2)
or_digit a b = simp bit_or-bitwise (by_digit (λ b. b) max (λ b. omega arith) a b)

differ-zero : (b : ℕ) → b ≡ b / 2 * 2 + differ 0 (b % 2)
differ-zero b = ground arith

pub xor_digit : (a b : ℕ) → bit_xor a b ≡ bit_xor (a / 2) (b / 2) * 2 + differ (a % 2) (b % 2)
xor_digit a b = simp bit_xor-bitwise (by_digit (λ b. b) differ differ-zero a b)

below : (k n : ℕ) → n < k → Acc ◌<◌ n
below zero n h = absurd (omega arith)
below (suc k) n h = Acc.intro n (λ m hm. below k m (omega arith))

pub lt_wf : WellFounded ◌<◌
lt_wf = record { apply = λ n. below (suc n) n (omega arith) }

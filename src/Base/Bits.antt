-- ===== src/Base/Bits.antt =====
-- `&`, `|` and `^` of C at variables: a recursion on the lowest digit, and what follows from it for
-- masks, single bits, fields and ranges.
pub mod Digit
use mathlib.Core.Path.{◌≡◌, refl, ◌∙◌, ap}
use mathlib.Core.WellFounded
use Prim.Native.Nat.{
  ℕ, zero, suc, ◌+◌, ◌-◌, ◌*◌, ◌/◌, ◌%◌, ◌^◌, ◌≤◌, ◌<◌, min, max, differ, bit_and, bit_or, bit_xor,
  bit_and-bitwise, bit_or-bitwise,
}
use native.Mathlib.Nat.{pow-suc, one-le-pow}
use native.Mathlib.Omega.{arith}
use spu_kit.Base.Tests.{◌==◌}
pub use Digit.{lt_wf, and_digit, or_digit, xor_digit}
use spu_kit.Base.Word.{test, not8}

pub bit_and-zero : (a : ℕ) → bit_and a 0 ≡ 0
bit_and-zero a =
    WellFounded.induction lt_wf {C = λ n. bit_and n 0 ≡ 0} a
      λ n ih. ground (arith, and_digit n 0, ih (n / 2))

-- The values of C's boolean tests of one digit, as arithmetic.
differ_digit : (p q : ℕ) → p < 2 → q < 2 → differ p q ≡ (p + q) % 2
differ_digit zero q hp hq = omega arith
differ_digit (suc zero) zero hp hq = refl
differ_digit (suc zero) (suc zero) hp hq = refl
differ_digit (suc zero) (suc (suc q)) hp hq = absurd (omega arith)
differ_digit (suc (suc p)) q hp hq = absurd (omega arith)

-- Shifting right commutes with the three operations.
pub and_half : (a b : ℕ) → bit_and a b / 2 ≡ bit_and (a / 2) (b / 2)
and_half a b = omega (arith, and_digit a b)

pub or_half : (a b : ℕ) → bit_or a b / 2 ≡ bit_or (a / 2) (b / 2)
or_half a b = omega (arith, or_digit a b)

pub xor_half : (a b : ℕ) → bit_xor a b / 2 ≡ bit_xor (a / 2) (b / 2)
xor_half a b =
    omega (arith, xor_digit a b, differ_digit (a % 2) (b % 2) (omega arith) (omega arith))

pub and_odd : (a b : ℕ) → bit_and a b % 2 ≡ min (a % 2) (b % 2)
and_odd a b = omega (arith, and_digit a b)

pub or_odd : (a b : ℕ) → bit_or a b % 2 ≡ max (a % 2) (b % 2)
or_odd a b = omega (arith, or_digit a b)

pub xor_odd : (a b : ℕ) → bit_xor a b % 2 ≡ (a + b) % 2
xor_odd a b = omega (arith, xor_digit a b, differ_digit (a % 2) (b % 2) (omega arith) (omega arith))

-- Digit `k` of `a`.
abbrev pub digit : ℕ → ℕ → ℕ
digit zero a = a % 2
digit (suc k) a = digit k (a / 2)

pub digit-and : (k a b : ℕ) → digit k (bit_and a b) ≡ min (digit k a) (digit k b)
digit-and zero a b = and_odd a b
digit-and (suc k) a b = rw and_half (digit-and k (a / 2) (b / 2))

pub digit-or : (k a b : ℕ) → digit k (bit_or a b) ≡ max (digit k a) (digit k b)
digit-or zero a b = or_odd a b
digit-or (suc k) a b = rw or_half (digit-or k (a / 2) (b / 2))

pub digit-lt : (k a : ℕ) → digit k a < 2
digit-lt zero a = omega arith
digit-lt (suc k) a = digit-lt k (a / 2)

pub digit-xor : (k a b : ℕ) → digit k (bit_xor a b) ≡ (digit k a + digit k b) % 2
digit-xor zero a b = omega (arith, xor_odd a b)
digit-xor (suc k) a b = rw xor_half (digit-xor k (a / 2) (b / 2))

-- A range of `k` digits is kept.
pub and-lt : (k a b : ℕ) → a < 2 ^ k → bit_and a b < 2 ^ k
and-lt zero a b h = let e : a ≡ 0 = omega arith in rw e (omega (arith, bit_and-bitwise 0 b))
and-lt (suc k) a b h =
    omega (arith, pow-suc 2 k, and_digit a b, and-lt k (a / 2) (b / 2) (omega (arith, pow-suc 2 k)))

pub or-lt : (k a b : ℕ) → a < 2 ^ k → b < 2 ^ k → bit_or a b < 2 ^ k
or-lt zero a b h g =
    let e : a ≡ 0 = omega arith in let f : b ≡ 0 = omega arith in rw (e, f) (omega arith)
or-lt (suc k) a b h g = omega (
  arith,
  pow-suc 2 k,
  or_digit a b,
  or-lt k (a / 2) (b / 2) (omega (arith, pow-suc 2 k)) (omega (arith, pow-suc 2 k)),
)

pub xor-lt : (k a b : ℕ) → a < 2 ^ k → b < 2 ^ k → bit_xor a b < 2 ^ k
xor-lt zero a b h g =
    let e : a ≡ 0 = omega arith in let f : b ≡ 0 = omega arith in rw (e, f) (omega arith)
xor-lt (suc k) a b h g = omega (
  arith,
  pow-suc 2 k,
  xor_half a b,
  xor-lt k (a / 2) (b / 2) (omega (arith, pow-suc 2 k)) (omega (arith, pow-suc 2 k)),
)

and_mask_low : (k q r : ℕ) → r < 2 ^ k → bit_and (q * 2 ^ k + r) (2 ^ k - 1) ≡ r
and_mask_low zero q r h = omega (arith, bit_and-zero (q * 1 + r))
and_mask_low (suc k) q r h = ground (
  arith,
  pow-suc 2 k,
  one-le-pow k 2,
  ap (λ (t : ℕ). q * t) (pow-suc 2 k),
  and_digit (q * 2 ^ suc k + r) (2 ^ suc k - 1),
  and_mask_low k q (r / 2) (omega (arith, pow-suc 2 k)),
)

-- `n & (2^k - 1)` is the remainder by 2^k.
pub and_mask : (k n : ℕ) → bit_and n (2 ^ k - 1) ≡ n % 2 ^ k
and_mask k n = ground (arith, one-le-pow k 2, and_mask_low k (n / 2 ^ k) (n % 2 ^ k))

pub or-zero : (a : ℕ) → bit_or a 0 ≡ a
or-zero a =
    WellFounded.induction lt_wf {C = λ n. bit_or n 0 ≡ n} a
      λ n ih. ground (arith, or_digit n 0, ih (n / 2))

-- `(q << k) | r` is a sum where `r` has `k` digits.
pub or_field : (k q r : ℕ) → r < 2 ^ k → bit_or (q * 2 ^ k) r ≡ q * 2 ^ k + r
or_field zero q r h = ground (arith, or-zero q)
or_field (suc k) q r h = ground (
  arith,
  pow-suc 2 k,
  or_digit (q * 2 ^ suc k) r,
  ap (λ (t : ℕ). q * t) (pow-suc 2 k),
  or_field k q (r / 2) (omega (arith, pow-suc 2 k)),
)

or_comm_step :
    (n : ℕ)
    → ((i : ℕ) → i < n → (m : ℕ) → bit_or i m ≡ bit_or m i)
    → (m : ℕ) → bit_or n m ≡ bit_or m n
or_comm_step zero ih m = omega (arith, bit_or-bitwise 0 m, or-zero m)
or_comm_step (suc n) ih m =
    omega (arith, or_digit (suc n) m, or_digit m (suc n), ih (suc n / 2) (omega arith) (m / 2))

pub or_comm : (a b : ℕ) → bit_or a b ≡ bit_or b a
or_comm a b =
    WellFounded.induction lt_wf {C = λ n. (m : ℕ) → bit_or n m ≡ bit_or m n} a or_comm_step b

-- `n & (1 << k)` is digit `k`, at its place.
pub and_single : (k n : ℕ) → bit_and n (2 ^ k) ≡ digit k n * 2 ^ k
and_single zero n = omega (arith, and_digit n 1, bit_and-zero (n / 2))
and_single (suc k) n = ground (
  arith,
  pow-suc 2 k,
  and_digit n (2 ^ suc k),
  ap (λ (t : ℕ). digit k (n / 2) * t) (pow-suc 2 k),
  and_single k (n / 2),
)

pub test_single : (k n : ℕ) → test n (2 ^ k) ≡ (digit k n == 1)
test_single k n = ground (arith, and_single k n, digit-lt k n, one-le-pow k 2)

-- ===== src/Base/Word.antt =====
-- Conversions to the unsigned types of C, shifts, masks, and arrays as functions of the index.
use Prim.Native.Nat.{ℕ, zero, suc, ◌+◌, ◌-◌, ◌*◌, ◌/◌, ◌%◌, ◌^◌, ◌<◌, bit_and}
use mathlib.Core.Bool.{Bool, true, false, not, ◌&&◌}
use mathlib.Core.Path.{◌≡◌}
use native.Mathlib.Omega.{arith}
use mathlib.Core.List.{List, [], ◌∷◌}
use spu_kit.Base.Tests.{◌==◌, ltb, leb, if◌then◌else◌}

abbrev pub u8 : ℕ → ℕ
u8 n = n % 2 ^ 8

abbrev pub u16 : ℕ → ℕ
u16 n = n % 2 ^ 16

abbrev pub u32 : ℕ → ℕ
u32 n = n % 2 ^ 32

abbrev pub IsByte : ℕ → Type 0
IsByte n = n < 2 ^ 8

abbrev pub IsWord : ℕ → Type 0
IsWord n = n < 2 ^ 16

-- `~n` of a `uint8_t`, converted back to `uint8_t`
abbrev pub not8 : ℕ → ℕ
not8 n = 255 - u8 n

infixl 75 ◌<<<◌ ◌>>>◌
abbrev pub ◌<<<◌ : ℕ → ℕ → ℕ
n <<< k = n * 2 ^ k

abbrev pub ◌>>>◌ : ℕ → ℕ → ℕ
n >>> k = n / 2 ^ k

-- a `bool` as the number 0 or 1
abbrev pub of_bool : Bool → ℕ
of_bool true = 1
of_bool false = 0

pub of_bool-lt : (b : Bool) → of_bool b < 2
of_bool-lt true = omega arith
of_bool-lt false = omega arith

-- `n & mask` converted to `bool`
abbrev pub test : ℕ → ℕ → Bool
test n mask = not (bit_and n mask == 0)

-- The write `f[i] = v`.
abbrev pub update {ℓ} : {A : Type ℓ} → (ℕ → A) → ℕ → A → ℕ → A
update f i v j = if i == j then v else f j

-- `memcpy(dst + to, src + from, n)`
abbrev pub copy {ℓ} : {A : Type ℓ} → (ℕ → A) → ℕ → (ℕ → A) → ℕ → ℕ → ℕ → A
copy dst to src from n j = if leb to j && ltb j (to + n) then src (from + (j - to)) else dst j

-- A constant array by its initialiser; the rest is never read.
abbrev pub table : List ℕ → ℕ → ℕ
table [] i = 0
table (v ∷ vs) zero = v
table (v ∷ vs) (suc i) = table vs i

-- Every entry of a constant array meets a bound.
abbrev pub all_lt : ℕ → List ℕ → Bool
all_lt n [] = true
all_lt n (v ∷ vs) = ltb v n && all_lt n vs

pub table-lt : (n : ℕ) (vs : List ℕ) (i : ℕ) → 0 < n → all_lt n vs ≡ true → table vs i < n
table-lt n [] i h e = h
table-lt n (v ∷ vs) zero h e = ground arith
table-lt n (v ∷ vs) (suc i) h e = table-lt n vs i h (ground arith)

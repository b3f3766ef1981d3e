-- ===== src/Base/Finite.antt =====
-- A statement about all numbers below a constant, from one proof for each.
use mathlib.Core.Path.{◌≡◌, subst}
use mathlib.Core.Logic.{◌⊎◌, inl, inr}
use Prim.Native.Nat.{ℕ, zero, suc, ◌<◌}
use native.Mathlib.Omega.{arith}

abbrev pub Each : (ℕ → Type 0) → ℕ → Type 0
Each P zero = Unit
Each P (suc n) = P n × Each P n

pub top_or_below : (i n : ℕ) → i < suc n → (n ≡ i) ⊎ (i < n)
top_or_below i n h = ground arith

pub each-lt : (P : ℕ → Type 0) (n : ℕ) → Each P n → (i : ℕ) → i < n → P i
each-lt P zero h i l = absurd (omega arith)
each-lt P (suc n) h i l = elim (top_or_below i n l) [
  | inl e ↦ subst P e h.0
  | inr k ↦ each-lt P n h.1 i k
]

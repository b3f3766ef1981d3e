-- ===== src/Cpu/Table/Holes.antt =====
-- The opcodes that `opcode_tbl` of spc700.c has no instruction for.
use spu_kit.Cpu.Table.{opcode_tbl, entry, Entry}
use spu_kit.Base.{
  ◌||◌, ◌∙◌, ◌==◌, ◌≡◌, ◌∷◌, ◌<◌, ◌&&◌, ℕ, true, top_or_below, sym, some, refl, not, none, inr, inl,
  false, arith, ap, [], List, Bool,
}
use Prim.Native.Nat.{zero, suc}

abbrev pub is_some : Entry → Bool
is_some none = false
is_some (some cb) = true

abbrev pub member : ℕ → List ℕ → Bool
member n [] = false
member n (k ∷ ks) = n == k || member n ks

abbrev pub holes : List ℕ
holes =
    0xf ∷ 0x1e ∷ 0x3e ∷ 0x4f ∷ 0x50 ∷ 0x5e ∷ 0x70 ∷ 0x7f ∷ 0x9d ∷ 0xaf ∷ 0xbd ∷ 0xbe ∷ 0xbf ∷ 0xd9
    ∷ 0xdf ∷ 0xef ∷ 0xf9 ∷ 0xff ∷ []

-- A test of all numbers below a constant.
abbrev every : ℕ → (ℕ → Bool) → Bool
every zero f = true
every (suc n) f = f n && every n f

and_true : (p q : Bool) → (p && q) ≡ true → (p ≡ true) × (q ≡ true)
and_true true q e = (refl, e)
and_true false q e = cc

every-lt : (n : ℕ) (f : ℕ → Bool) → every n f ≡ true → (i : ℕ) → i < n → f i ≡ true
every-lt zero f e i h = absurd (omega arith)
every-lt (suc n) f e i h =
    let both = and_true (f n) (every n f) e in
    elim (top_or_below i n h) [ inl q ↦ ap f (sym q) ∙ both.0 | inr k ↦ every-lt n f both.1 i k ]

-- Whether two Booleans agree.
abbrev same : Bool → Bool → Bool
same true q = q
same false q = not q

agree : (p q : Bool) → same p q ≡ true → p ≡ q
agree true true e = refl
agree true false e = cc
agree false true e = cc
agree false false e = refl

-- Of the 256 opcodes, those in `holes`, eighteen of them, have no entry, and all others have one.
pub opcode_tbl-holes :
    (opcode : ℕ) → opcode < 256 → is_some (entry opcode_tbl opcode) ≡ not (member opcode holes)
unfolding opcode_tbl
opcode_tbl-holes opcode h =
    agree _ _
      (every-lt 256 (λ i. same (is_some (entry opcode_tbl i)) (not (member i holes))) refl opcode h)

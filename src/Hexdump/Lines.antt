-- ===== src/Hexdump/Lines.antt =====
-- The lines of a dump, described from the bytes.
use spu_kit.Base.{
  ℕ, suc, ◌+◌, ◌-◌, ◌≤◌, ◌≡◌, ◌∙◌, ◌++◌, refl, ap, sym, arith, Bool, if◌then◌else◌, List, [], ◌∷◌,
}
use Prim.Native.Nat.{zero}
use mathlib.Core.List.{map, append_assoc}
use spu_kit.Base.Lists.{length, take, drop, replicate}
use spu_kit.Hexdump.{Piece, address, letter, dot, space, newline, hex, glyph, dump_line}

module _ (isprint : ℕ → Bool) where
  -- So many columns: a printable byte by its letter and another by a dot, then blanks.
  unfoldable pub columns : ℕ → List ℕ → List Piece
  columns zero bs = []
  columns (suc n) [] = space ∷ columns n []
  columns (suc n) (b ∷ bs) = (if isprint b then letter b else dot) ∷ columns n bs

  -- A line: its address, its columns, each byte in hexadecimal, and the end.
  unfoldable pub line : ℕ → ℕ → List ℕ → List Piece
  unfolding columns
  line llen at bs = address at ∷ (columns llen bs ++ (map hex bs ++ newline ∷ []))

  -- So many lines, each with the next `llen` bytes, as far as there are any.
  unfoldable pub page : ℕ → ℕ → ℕ → List ℕ → List Piece
  unfolding line
  page zero llen at bs = []
  page (suc n) llen at bs = line llen at (take llen bs) ++ page n llen (at + llen) (drop llen bs)

  columns-blank : (n : ℕ) → columns n [] ≡ replicate n space
  unfolding columns
  columns-blank zero = refl
  columns-blank (suc n) = ap (λ t. space ∷ t) (columns-blank n)

  columns-glyphs :
      (n : ℕ) (bs : List ℕ)
      → length bs ≤ n
      → columns n bs ≡ map (glyph isprint) bs ++ replicate (n - length bs) space
  unfolding columns glyph
  columns-glyphs n [] h = let e : n - 0 ≡ n = omega arith in rw e (columns-blank n)
  columns-glyphs zero (b ∷ bs) h = absurd (omega arith)
  columns-glyphs (suc n) (b ∷ bs) h =
      let e : suc n - length (b ∷ bs) ≡ n - length bs = omega arith in
      rw e (ap (λ t. glyph isprint b ∷ t) (columns-glyphs n bs (omega arith)))

  pub dump_line-line :
      (llen at : ℕ) (bs : List ℕ)
      → length bs ≤ llen
      → dump_line isprint llen at bs ≡ line llen at bs
  unfolding dump_line line
  dump_line-line llen at bs h =
      ap (λ t. address at ∷ t)
        (sym (
          ap (λ t. t ++ (map hex bs ++ newline ∷ [])) (columns-glyphs llen bs h)
          ∙ append_assoc (map (glyph isprint) bs) (replicate (llen - length bs) space)
              (map hex bs ++ newline ∷ [])))

-- ===== src/Hexdump.antt =====
-- hexdump.c: the calls of printf(3) that a dump makes, in order.
pub mod Lines
pub mod Dump
use spu_kit.Base.{
  ℕ, suc, ◌+◌, ◌-◌, ◌%◌, ◌^◌, ltb, ◌==◌, if◌then◌else◌, Bool, true, false, Option, none, some, List,
  [], ◌∷◌, ◌++◌,
}
use Prim.Native.Nat.{zero}
use mathlib.Core.List.{map}
use mathlib.Core.Option
use spu_kit.Base.Lists.{length, take, drop, replicate}

-- One call of printf(3), by its format and its argument.
pub data Piece : Type 0 where
  address : ℕ → Piece
  letter : ℕ → Piece
  dot space newline : Piece
  hex : ℕ → Piece

-- `line`, where the sum is a `size_t`
unfoldable pub line_size : ℕ → ℕ → ℕ → ℕ
line_size len llen j = if ltb len ((j + llen) % 2 ^ 64) then len - j else llen

-- `isprint` is that of the C library.
module _ (isprint : ℕ → Bool) where
  unfoldable pub glyph : ℕ → Piece
  glyph b = if isprint b then letter b else dot

  -- The body of the loop behind its first test, for the bytes of a line.
  unfoldable pub dump_line : ℕ → ℕ → List ℕ → List Piece
  unfolding glyph
  dump_line llen at line =
      address at
      ∷ (map glyph line ++ (replicate (llen - length line) space ++ (map hex line ++ newline ∷ [])))

  -- The loop, with `tmp` as it has moved; `none` means that the fuel ran out.
  unfoldable pub dump_lines : ℕ → ℕ → ℕ → ℕ → ℕ → List ℕ → Option (List Piece)
  unfolding line_size dump_line
  dump_lines zero len llen addr j tmp = none
  dump_lines (suc fuel) len llen addr j tmp =
      let line = line_size len llen j in
      let rest = dump_lines fuel len llen addr (j + line) (drop line tmp) in
      if ltb j len
      then Option.map (λ out. dump_line llen ((j + addr) % 2 ^ 64) (take line tmp) ++ out) rest
      else some []

  unfoldable pub hex_dump_addr : ℕ → List ℕ → ℕ → ℕ → Option (List Piece)
  unfolding dump_lines
  hex_dump_addr fuel tmp llen addr =
      if length tmp == 0
      then some []
      else dump_lines fuel (length tmp) (if llen == 0 then 0x10 else llen) addr 0 tmp

  unfoldable pub hex_dump : ℕ → List ℕ → ℕ → Option (List Piece)
  unfolding hex_dump_addr
  hex_dump fuel tmp llen = hex_dump_addr fuel tmp llen 0

-- ===== src/Hexdump/Dump.antt =====
-- A whole dump.
use mathlib.Core.Path.{subst}
use spu_kit.Base.{
  ℕ, suc, ◌+◌, ◌-◌, ◌*◌, ◌%◌, ◌^◌, ◌<◌, ◌≤◌, ◌≡◌, ◌⊎◌, ◌∙◌, ◌++◌, ltb, ◌==◌, if◌then◌else◌, refl,
  ap, sym, arith, Bool, true, false, Bool-cases, inl, inr, Option, none, some, List, [], ◌∷◌,
}
use Prim.Native.Nat.{zero}
use mathlib.Core.Option
use spu_kit.Base.Lists.{length, take, drop, length-take, length-drop, take_all}
use spu_kit.Hexdump.{Piece, dump_line, line_size, dump_lines, hex_dump_addr}
use spu_kit.Hexdump.Lines.{line as full_line, page, dump_line-line}

-- The dump of some bytes, with lines of so many, from an address on: as many lines as the bytes need.
abbrev pub Shows : (ℕ → Bool) → ℕ → ℕ → List ℕ → Option (List Piece) → Type 0
Shows isprint llen at tmp none = ⊥
Shows isprint llen at tmp (some out) =
    (n : ℕ) × (out ≡ page isprint n llen at tmp)
    × (length tmp ≤ n * llen)
    × (n * llen < length tmp + llen)

page_eq :
    (isprint : ℕ → Bool) (n llen a b : ℕ) (xs ys : List ℕ)
    → (n ≡ 0) ⊎ ((a ≡ b) × (xs ≡ ys))
    → page isprint n llen a xs ≡ page isprint n llen b ys
unfolding page
page_eq isprint zero llen a b xs ys h = refl
page_eq isprint (suc n) llen a b xs ys (inl e) = absurd (omega arith)
page_eq isprint (suc n) llen a b xs ys (inr (e, f)) = rw (e, f) refl

same_take :
    (line llen : ℕ) (tmp : List ℕ)
    → line ≤ llen
    → (line ≡ length tmp) ⊎ (line ≡ llen)
    → take line tmp ≡ take llen tmp
same_take line llen tmp h (inl e) =
    take_all {0} line tmp (omega arith) ∙ sym (take_all {0} llen tmp (omega arith))
same_take line llen tmp h (inr e) = ap (λ n. take n tmp) e

-- The bytes of the next line.
line_lem :
    (len llen j k : ℕ)
    → 0 < llen
    → len + llen < 2 ^ 64
    → j + k ≡ len
    → 0 < k
    → (0 < line_size len llen j)
      × (line_size len llen j ≤ llen)
      × (line_size len llen j ≤ k)
      × ((line_size len llen j ≡ k) ⊎ (line_size len llen j ≡ llen))
unfolding line_size
line_lem len llen j k w fits e more = elim (Bool-cases (ltb len ((j + llen) % 2 ^ 64))) [
  | inl l ↦ rw l (omega arith, ground arith, omega arith, inl (omega arith))
  | inr l ↦ rw l (omega arith, omega arith, ground arith, inr refl)
]

no_lines : (n llen : ℕ) → n * llen < 0 + llen → n ≡ 0
no_lines zero llen h = refl
no_lines (suc n) llen h =
    let e : suc n * llen ≡ n * llen + llen = grind arith in absurd (omega arith)

lines_bound :
    (n llen k line : ℕ)
    → 0 < line
    → line ≤ k
    → (line ≡ k) ⊎ (line ≡ llen)
    → n * llen < (k - line) + llen
    → suc n * llen < k + llen
lines_bound n llen k line some' short (inl e) h =
    let none' : n ≡ 0 = no_lines n llen (omega arith) in
    let one : 1 * llen ≡ llen = omega arith in rw (none', one) (omega arith)
lines_bound n llen k line some' short (inr e) h =
    let more : suc n * llen ≡ n * llen + llen = grind arith in omega arith

module _ (isprint : ℕ → Bool) where
  line-Shows :
      (llen at line : ℕ) (tmp : List ℕ) (r : Option (List Piece))
      → 0 < line
      → line ≤ llen
      → line ≤ length tmp
      → (line ≡ length tmp) ⊎ (line ≡ llen)
      → Shows isprint llen (at + line) (drop line tmp) r
      → Shows isprint llen at tmp
          (Option.map (λ out. dump_line isprint llen at (take line tmp) ++ out) r)
  unfolding page
  line-Shows llen at line tmp none some' l m whole v = absurd v
  line-Shows llen at line tmp (some out) some' l m whole (n, e, lo, hi) =
      let more : suc n * llen ≡ n * llen + llen = grind arith in
      let left = length-drop {0} line tmp in
      (
        suc n,
        ap (λ t. t ++ out)
              (dump_line-line isprint llen at (take line tmp)
                (omega (arith, length-take {0} line tmp)))
            ∙ ap (λ t. full_line isprint llen at t ++ out) (same_take line llen tmp l whole)
            ∙ ap (λ t. full_line isprint llen at (take llen tmp) ++ t)
                (e
                  ∙ page_eq isprint n llen (at + line) (at + llen) (drop line tmp) (drop llen tmp)
                      (last whole)),
        omega (arith, left),
        lines_bound n llen (length tmp) line some' m whole (omega (arith, left)),
      )
    where
      last :
          (line ≡ length tmp) ⊎ (line ≡ llen)
          → (n ≡ 0) ⊎ ((at + line ≡ at + llen) × (drop line tmp ≡ drop llen tmp))
      last (inl e') = inl (no_lines n llen (omega (arith, length-drop {0} line tmp)))
      last (inr e') = inr (omega arith, ap (λ k. drop k tmp) e')

  lines-Shows :
      (fuel len llen addr j : ℕ) (tmp : List ℕ)
      → 0 < llen
      → len + llen < 2 ^ 64
      → addr + len < 2 ^ 64
      → j + length tmp ≡ len
      → length tmp < fuel
      → Shows isprint llen (j + addr) tmp (dump_lines isprint fuel len llen addr j tmp)
  unfolding dump_lines page
  lines-Shows zero len llen addr j tmp w fits room e h = absurd (omega arith)
  lines-Shows (suc fuel) len llen addr j [] w fits room e h =
      let done : ltb j len ≡ false = ground arith in rw done (0, refl, omega arith, omega arith)
  lines-Shows (suc fuel) len llen addr j (b ∷ tmp) w fits room e h =
      let go : ltb j len ≡ true = ground arith in
      let small : (j + addr) % 2 ^ 64 ≡ j + addr = omega arith in
      let line = line_size len llen j in
      let (some', wide, short, whole) =
        line_lem len llen j (length (b ∷ tmp)) w fits e (omega arith) in
      let next : j + line + addr ≡ j + addr + line = omega arith in
      rw (go, small)
        (line-Shows llen (j + addr) line (b ∷ tmp) _ some' wide short whole (
          subst
            (λ t.
              Shows isprint llen t (drop line (b ∷ tmp))
                (dump_lines isprint fuel len llen addr (j + line) (drop line (b ∷ tmp))))
            next
            (lines-Shows fuel len llen addr (j + line) (drop line (b ∷ tmp)) w fits room
              (omega (arith, length-drop {0} line (b ∷ tmp)))
              (omega (arith, length-drop {0} line (b ∷ tmp))))))

  -- hex_dump_addr ends, with fuel for the bytes, where the length of a line and the address added to
  -- the number of bytes do not wrap around; 0 as the length of a line is 16. It prints just as
  -- many lines as the bytes need, each with the next bytes: the address, which goes up by the length
  -- of a line; as many columns as a line has bytes, with a letter for a byte that isprint(3) accepts,
  -- a dot for another, and blanks where there are no bytes left; and the bytes in hexadecimal.
  pub hex_dump-Shows :
      (fuel : ℕ) (tmp : List ℕ) (llen addr : ℕ)
      → length tmp + llen + 16 < 2 ^ 64
      → addr + length tmp < 2 ^ 64
      → length tmp < fuel
      → Shows isprint
          (if llen == 0 then 0x10 else llen)
          addr
          tmp
          (hex_dump_addr isprint fuel tmp llen addr)
  unfolding hex_dump_addr page
  hex_dump-Shows fuel [] llen addr fits room h =
      let some' : 0 < (if llen == 0 then 0x10 else llen) = ground arith in
      (0, refl, omega arith, omega arith)
  hex_dump-Shows fuel (b ∷ tmp) llen addr fits room h =
      let w = if llen == 0 then 0x10 else llen in
      let size = length (b ∷ tmp) in
      let start : 0 + addr ≡ addr = omega arith in
      let nonempty : (size == 0) ≡ false = ground arith in
      rw nonempty (
        subst (λ t. Shows isprint w t (b ∷ tmp) (dump_lines isprint fuel size w addr 0 (b ∷ tmp)))
          start
          (lines-Shows fuel size w addr 0 (b ∷ tmp) (ground arith) (ground arith) room (omega arith)
            h))

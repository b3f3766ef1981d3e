-- ===== src/Load/Fill.antt =====
-- The loop of fill_buf to its end.
use spu_kit.Base.Int.{ℤ}
use spu_kit.Base.Lists.{length-append, length}
use spu_kit.Base.{
  ◌∙◌, ◌==◌, ◌-◌, ◌≤◌, ◌≡◌, ◌<◌, ◌++◌, ℕ, true, table, sym, refl, leb, inr, inl, false, arith, ap,
  [], List, IsByte, Bool-cases, Bool,
}
use Prim.Native.Nat.{zero, suc}
use mathlib.Core.List.{append_assoc, append-nil, ◌∷◌}
use spu_kit.Io.{Result, done, spins, asserted, overrun}
use spu_kit.Load.{read_result, fill_buf_loop, fill_buf, Got, bytes, no_bytes, Reader}

-- Bytes of a file are bytes.
abbrev pub AllBytes : List ℕ → Type 0
AllBytes [] = Unit
AllBytes (x ∷ xs) = IsByte x × AllBytes xs

AllBytes-append : (xs ys : List ℕ) → AllBytes xs → AllBytes ys → AllBytes (xs ++ ys)
AllBytes-append [] ys h g = g
AllBytes-append (x ∷ xs) ys (b, h) g = (b, AllBytes-append xs ys h g)

pub table-IsByte : (xs : List ℕ) (i : ℕ) → AllBytes xs → IsByte (table xs i)
table-IsByte [] i h = omega arith
table-IsByte (x ∷ xs) zero h = h.0
table-IsByte (x ∷ xs) (suc i) h = table-IsByte xs i h.1

module _ {W : Type 0} (reader : Reader W) (input : ℤ → W → List ℕ) where
  -- read(2) gives at most the bytes asked for, the next ones of the input.
  abbrev pub Reads : ℤ → ℕ → W → Got × W → Type 0
  Reads fd n w (bytes got, w') = (length got ≤ n) × AllBytes got × (input fd w ≡ got ++ input fd w')
  Reads fd n w (no_bytes e, w') = input fd w' ≡ input fd w

  pub record Reading : Type 0 where
    pub read_lem : (fd : ℤ) (n : ℕ) (w : W) → Reads fd n w (reader.read fd n w)

  -- A call has ended: the buffer holds the next bytes of the input, all of them where it succeeds,
  -- and fewer where it fails.
  abbrev pub Fills : ℤ → ℕ → List ℕ → W → Result W (Bool × List ℕ) → Type 0
  Fills fd len buf w (done (true, out) w') =
      (got : List ℕ) × (out ≡ buf ++ got)
      × (length got ≡ len)
      × AllBytes got
      × (input fd w ≡ got ++ input fd w')
  Fills fd len buf w (done (false, out) w') =
      (got : List ℕ) × (out ≡ buf ++ got)
      × (length got < len)
      × AllBytes got
      × (input fd w ≡ got ++ input fd w')
  Fills fd len buf w _ = ⊥

  Fills-from :
      (fd : ℤ) (len : ℕ) (buf got : List ℕ) (w w' : W) (r : Result W (Bool × List ℕ))
      → length got ≤ len
      → AllBytes got
      → input fd w ≡ got ++ input fd w'
      → Fills fd (len - length got) (buf ++ got) w' r
      → Fills fd len buf w r
  Fills-from fd len buf got w w' (done (true, out) w'') l b e (more, o, m, b', e') = (
    got ++ more,
    o ∙ append_assoc buf got more,
    omega (arith, length-append {0} got more),
    AllBytes-append got more b b',
    e ∙ ap (λ t. got ++ t) e' ∙ sym (append_assoc got more (input fd w'')),
  )
  Fills-from fd len buf got w w' (done (false, out) w'') l b e (more, o, m, b', e') = (
    got ++ more,
    o ∙ append_assoc buf got more,
    omega (arith, length-append {0} got more),
    AllBytes-append got more b b',
    e ∙ ap (λ t. got ++ t) e' ∙ sym (append_assoc got more (input fd w'')),
  )
  Fills-from fd len buf got w w' spins l b e v = v
  Fills-from fd len buf got w w' asserted l b e v = v
  Fills-from fd len buf got w w' overrun l b e v = v

  read-Fills :
      (again : ℕ → List ℕ → W → Result W (Bool × List ℕ)) (fd : ℤ) (len : ℕ) (buf : List ℕ) (w : W)
      → 0 < len
      → ((n : ℕ) (buf' : List ℕ) (w' : W) → n < len → Fills fd n buf' w' (again n buf' w'))
      → (r : Got × W) → Reads fd len w r
      → Fills fd len buf w (read_result reader again len buf r)
  unfolding read_result
  read-Fills again fd len buf w some' turns (no_bytes e, w') h =
      ([], sym (append-nil buf), some', tt, sym h)
  read-Fills again fd len buf w some' turns (bytes got, w') (l, b, e) =
      elim (Bool-cases (length got == 0)) [
        | inl z ↦
            rw (z, read_result)
              (
                got,
                sym (append-nil buf) ∙ ap (λ t. buf ++ t) (sym (nothing got (ground arith))),
                ground arith,
                b,
                e,
              )
        | inr z ↦
            let fits : leb (length got) len ≡ true = ground (arith, l) in
            rw (z, fits, read_result)
              (Fills-from fd len buf got w w' _ l b e
                (turns (len - length got) (buf ++ got) w' (ground (arith, l))))
      ]
    where
      nothing : (xs : List ℕ) → length xs ≡ 0 → xs ≡ []
      nothing [] e = refl
      nothing (x ∷ xs) e = absurd (omega arith)

  loop-Fills :
      Reading
      → (fuel : ℕ) (fd : ℤ) (len : ℕ) (buf : List ℕ) (w : W) → len < fuel
      → Fills fd len buf w (fill_buf_loop reader fuel fd len buf w)
  unfolding fill_buf_loop
  loop-Fills law zero fd len buf w h = absurd (omega arith)
  loop-Fills law (suc fuel) fd len buf w h = elim (Bool-cases (len == 0)) [
    | inl z ↦ rw (z, fill_buf_loop) ([], sym (append-nil buf), ground arith, tt, refl)
    | inr z ↦
        rw (z, fill_buf_loop)
          (read-Fills (fill_buf_loop reader fuel fd) fd len buf w (ground arith)
            (λ n buf' w' l. loop-Fills law fuel fd n buf' w' (omega arith)) (reader.read fd len w)
            (law.read_lem fd len w))
  ]

  -- Where read(2) gives at most the bytes asked for, fill_buf ends with fuel for the bytes, however
  -- short the reads are, and its assertion holds. It has taken the next bytes of the input, in
  -- order: exactly as many as asked for where it succeeds, and fewer where it fails.
  pub fill_buf-Fills :
      Reading
      → (fuel : ℕ) (fd : ℤ) (len : ℕ) (w : W) → len < fuel
      → Fills fd len [] w (fill_buf reader fuel fd len w)
  unfolding fill_buf
  fill_buf-Fills law fuel fd len w h = loop-Fills law fuel fd len [] w h

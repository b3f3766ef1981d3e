-- ===== src/Fd/Pwrite.antt =====
-- The loop of fd_pwrite to its end.
use spu_kit.Base.{
  ◌+◌, ◌-◌, ◌==◌, ◌^◌, ◌≡◌, ◌≤◌, ◌<◌, ◌∙◌, ap, refl, sym, arith, ℕ, suc, List, true, false,
  Bool-cases, inl, inr,
}
use Prim.Native.Nat.{zero}
use spu_kit.Io.{Errno, Ret, Result, Os, error, ok, done, spins, asserted, overrun, sub64, ssize_max}
use spu_kit.Fd.{
  Status, success, failure, fd_wait_single, write_result, write_size, fd_pwrite_loop, fd_pwrite,
}
use spu_kit.Base.Int.{ℤ}
use spu_kit.Fd.Wait.{wait-Waited, error_lem, Waited}
use mathlib.Core.Path.{subst}
use spu_kit.Base.Lists.{take_all, take-take, length-take, length, drop, take}
use spu_kit.Io.Laws.{Pwrites, Interrupts, Documented, splice}

-- What calls of pwrite(2) do to a file that each write a piece from the start of `bs`, the first at
-- the offset given and each next one behind the last: from so many bytes to go and a content to so many
-- and a content.
pub data Patches (bs : List ℕ) : ℕ → ℕ → List ℕ → ℕ → List ℕ → Type 0 where
  none_left : {off remains : ℕ} {xs : List ℕ} → Patches bs off remains xs remains xs
  piece :
      {off remains left : ℕ} {xs ys : List ℕ} (n : ℕ)
      → n ≤ remains
      → Patches bs (off + n) (remains - n) (splice off (take n bs) xs) left ys
      → Patches bs off remains xs left ys

module _ {W : Type 0} (os : Os W) (file : ℤ → W → List ℕ) (patience : W → ℕ) (fd : ℤ)
    (bs : List ℕ) where
  -- A call has ended: the pieces have as many bytes as the buffer, or it fails and some are left.
  abbrev pub Patched : ℕ → ℕ → W → Result W Status → Type 0
  Patched off remains w (done success w') =
      Patches bs off remains (file fd w) 0 (file fd w') × (patience w' ≤ patience w)
  Patched off remains w (done (failure e) w') =
      ((left : ℕ) × Patches bs off remains (file fd w) left (file fd w'))
      × (patience w' ≤ patience w)
  Patched off remains w _ = ⊥

  Patched-same :
      (off remains : ℕ) (w w' : W) (r : Result W Status)
      → file fd w' ≡ file fd w
      → patience w' ≤ patience w
      → Patched off remains w' r
      → Patched off remains w r
  Patched-same off remains w w' (done success w'') e h v =
      (subst (λ t. Patches bs off remains t 0 (file fd w'')) e v.0, omega (arith, v.1))
  Patched-same off remains w w' (done (failure e') w'') e h ((k, v), p) =
      ((k, subst (λ t. Patches bs off remains t k (file fd w'')) e v), omega arith)
  Patched-same off remains w w' spins e h v = v
  Patched-same off remains w w' asserted e h v = v
  Patched-same off remains w w' overrun e h v = v

  Patched-from :
      (n off remains : ℕ) (w w' : W) (r : Result W Status)
      → n ≤ remains
      → file fd w' ≡ splice off (take n bs) (file fd w)
      → patience w' ≤ patience w
      → Patched (off + n) (remains - n) w' r
      → Patched off remains w r
  Patched-from n off remains w w' (done success w'') l e h v = (
    piece n l (subst (λ t. Patches bs (off + n) (remains - n) t 0 (file fd w'')) e v.0),
    omega (arith, v.1),
  )
  Patched-from n off remains w w' (done (failure e') w'') l e h ((k, v), p) = (
    (k, piece n l (subst (λ t. Patches bs (off + n) (remains - n) t k (file fd w'')) e v)),
    omega arith,
  )
  Patched-from n off remains w w' spins l e h v = v
  Patched-from n off remains w w' asserted l e h v = v
  Patched-from n off remains w w' overrun l e h v = v

  -- What follows one pwrite(2), with what holds of a further turn of the loop.
  module _ (again : ℕ → W → Result W Status) (wait : W → Result W Status) (off remains : ℕ) (w : W)
      (enough : remains ≤ length bs) (fits : remains < 2 ^ 64)
      (turns : (n : ℕ) (w' : W)
        → n ≤ remains
        → patience w' + (remains - n) < patience w + remains
        → patience w' ≤ patience w
        → Patched (off + n) (remains - n) w' (again n w'))
      (waits : (w' : W) → patience w' < patience w → Waited os file patience fd w' (wait w')) where
    repeated :
        (w' : W)
        → file fd w' ≡ file fd w
        → patience w' < patience w
        → Patched off remains w (again 0 w')
    repeated w' e h =
        let start : off + 0 ≡ off = omega arith in
        let all : remains - 0 ≡ remains = omega arith in
        Patched-same off remains w w' (again 0 w') e (omega arith) (
          subst (λ t. Patched t remains w' (again 0 w')) start
            (subst (λ t. Patched (off + 0) t w' (again 0 w')) all
              (turns 0 w' (omega arith) (omega arith) (omega arith))))

    failed-Patched :
        (e : Errno) (w' : W)
        → file fd w' ≡ file fd w
        → patience w' ≤ patience w
        → Patched off remains w (done (failure e) w')
    failed-Patched e w' q h =
        ((remains, subst (λ t. Patches bs off remains t remains (file fd w')) q none_left), h)

    error-Patched :
        (e : Errno) (w' : W)
        → Interrupts file patience fd w (e, w')
        → Patched off remains w (write_result os again wait remains (error e, w'))
    error-Patched =
        error_lem os file patience fd (Patched off remains w) again wait w failed-Patched repeated
          waits remains

    ok-Patched :
        (n : ℕ) (w' : W)
        → Pwrites file patience fd (take (write_size os remains) bs) off w (ok n, w')
        → Patched off remains w (write_result os again wait remains (ok n, w'))
    unfolding write_result
    ok-Patched n w' (l, f, p) = elim (Bool-cases (n == 0)) [
      | inl z ↦
          rw (z, write_result)
            (
              (
                remains - n,
                piece n small (
                    subst (λ t. Patches bs (off + n) (remains - n) t (remains - n) (file fd w'))
                      content none_left),
              ),
              p,
            )
      | inr z ↦
          rw (z, write_result)
            (elim (Bool-cases (sub64 remains n == 0)) [
              | inl d ↦ rw (d, write_result) (last d, p)
              | inr d ↦
                  rw (d, write_result)
                    (Patched-from n off remains w w' (again n w') small content p
                      (turns n w' small (ground (arith, small)) p))
            ])
    ]
      where
        size : ℕ
        size = write_size os remains

        shorter : n ≤ size
        shorter = omega (arith, l, length-take {0} size bs)

        small : n ≤ remains
        small = let top : size ≤ remains = ground arith in omega (arith, shorter)

        content : file fd w' ≡ splice off (take n bs) (file fd w)
        content = f ∙ ap (λ t. splice off t (file fd w)) (take-take n size bs shorter)

        last : (sub64 remains n == 0) ≡ true → Patches bs off remains (file fd w) 0 (file fd w')
        last d =
            let none : remains - n ≡ 0 = ground (arith, small) in
            piece n small (
              subst
                (λ t. Patches bs (off + n) t (splice off (take n bs) (file fd w)) 0 (file fd w'))
                (sym none) (subst (λ t. Patches bs (off + n) 0 t 0 (file fd w')) content none_left))

    next-Patched :
        (r : Ret × W)
        → Pwrites file patience fd (take (write_size os remains) bs) off w r
        → Patched off remains w (write_result os again wait remains r)
    next-Patched (ok n, w') = ok-Patched n w'
    next-Patched (error e, w') = error-Patched e w'

  pwrite_loop-Patched :
      Documented os file patience
      → (fuel off remains : ℕ) (ptr : List ℕ) (w : W) → remains ≤ length bs
      → remains < 2 ^ 64
      → patience w + remains < fuel
      → Patched off remains w (fd_pwrite_loop os fuel fd bs off remains ptr w)
  unfolding fd_pwrite_loop
  pwrite_loop-Patched doc zero off remains ptr w enough fits h = absurd (omega arith)
  pwrite_loop-Patched doc (suc fuel) off remains ptr w enough fits h =
      next-Patched (λ n. fd_pwrite_loop os fuel fd bs (off + n) (sub64 remains n) (drop n ptr))
        (fd_wait_single os fuel fd) off remains w enough fits
        (λ n w' l m p.
          let e : sub64 remains n ≡ remains - n = omega arith in
          subst
            (λ t.
              Patched (off + n) t w'
                (fd_pwrite_loop os fuel fd bs (off + n) (sub64 remains n) (drop n ptr) w'))
            e
            (pwrite_loop-Patched doc fuel (off + n) (sub64 remains n) (drop n ptr) w' (omega arith)
              (omega arith) (omega arith)))
        (λ w' l. wait-Waited os file patience fd doc fuel w' (omega arith))
        (os.pwrite fd (take (write_size os remains) bs) off w)
        (doc.pwrite_lem fd (take (write_size os remains) bs) off w)

  -- On a system that behaves as documented, fd_pwrite ends if its fuel exceeds the bytes and the
  -- interruptions still to come. What it has done to the file is a row of pieces, each taken from the
  -- start of the buffer and put behind the one before, with as many bytes as the buffer where it
  -- succeeds.
  pub fd_pwrite-Patched :
      Documented os file patience
      → (fuel off : ℕ) (w : W) → length bs < 2 ^ 64
      → patience w + length bs < fuel
      → Patched off (length bs) w (fd_pwrite os fuel fd off bs w)
  unfolding fd_pwrite
  fd_pwrite-Patched doc fuel off w fits h =
      pwrite_loop-Patched doc fuel off (length bs) bs w (omega arith) fits h

  write_on :
      (again : ℕ → W → Result W Status) (wait : W → Result W Status) (remains n : ℕ) (w' : W)
      {r : Ret × W}
      → r ≡ (ok n, w')
      → (n == 0) ≡ false
      → (sub64 remains n == 0) ≡ false
      → write_result os again wait remains r ≡ again n w'
  unfolding write_result
  write_on again wait remains n w' e z d = rw (e, write_result, z, d) refl

  write_last :
      (again : ℕ → W → Result W Status) (wait : W → Result W Status) (remains n : ℕ) (w' : W)
      {r : Ret × W}
      → r ≡ (ok n, w')
      → (n == 0) ≡ false
      → (sub64 remains n == 0) ≡ true
      → write_result os again wait remains r ≡ done success w'
  unfolding write_result
  write_last again wait remains n w' e z d = rw (e, write_result, z, d) refl

  -- A short write: where the first pwrite(2) takes `n` bytes and the second one all that are left,
  -- fd_pwrite reports success, and behind the first `n` bytes the file has the start of the buffer
  -- again, and not its rest.
  pub fd_pwrite-short :
      (fuel off n : ℕ) (w w' w'' : W)
      → 0 < n
      → n < length bs
      → length bs ≤ ssize_max
      → Documented os file patience
      → os.pwrite fd bs off w ≡ (ok n, w')
      → os.pwrite fd (take (length bs - n) bs) (off + n) w' ≡ (ok (length bs - n), w'')
      → (fd_pwrite os (suc (suc fuel)) fd off bs w ≡ done success w'')
        × (file fd w''
            ≡ splice (off + n) (take (length bs - n) bs) (splice off (take n bs) (file fd w)))
  unfolding fd_pwrite fd_pwrite_loop write_result
  fd_pwrite-short fuel off n w w' w'' h l fits doc p q = (
    write_on _ _ _ n w' first z d
        ∙ write_last _ _ (sub64 (length bs) n) (length bs - n) w'' second z' d',
    content,
  )
    where
      size : take (write_size os (length bs)) bs ≡ bs
      size = take_all (write_size os (length bs)) bs (ground arith)

      first : os.pwrite fd (take (write_size os (length bs)) bs) off w ≡ (ok n, w')
      first = ap (λ t. os.pwrite fd t off w) size ∙ p

      z : (n == 0) ≡ false
      z = ground arith

      left : sub64 (length bs) n ≡ length bs - n
      left = omega arith

      d : (sub64 (length bs) n == 0) ≡ false
      d = ground (arith, left)

      rest : write_size os (sub64 (length bs) n) ≡ length bs - n
      rest = ground (arith, left)

      second :
          os.pwrite fd (take (write_size os (sub64 (length bs) n)) bs) (off + n) w'
          ≡ (ok (length bs - n), w'')
      second = ap (λ t. os.pwrite fd (take t bs) (off + n) w') rest ∙ q

      z' : (length bs - n == 0) ≡ false
      z' = ground arith

      d' : (sub64 (sub64 (length bs) n) (length bs - n) == 0) ≡ true
      d' =
          let e : sub64 (sub64 (length bs) n) (length bs - n) ≡ 0 = omega (arith, left) in rw e refl

      content :
          file fd w''
          ≡ splice (off + n) (take (length bs - n) bs) (splice off (take n bs) (file fd w))
      content =
          let a : Pwrites file patience fd bs off w (ok n, w') =
            subst (Pwrites file patience fd bs off w) p (doc.pwrite_lem fd bs off w) in
          let b : Pwrites file patience fd (take (length bs - n) bs) (off + n) w'
              (ok (length bs - n), w'') =
            subst (Pwrites file patience fd (take (length bs - n) bs) (off + n) w') q
              (doc.pwrite_lem fd (take (length bs - n) bs) (off + n) w') in
          b.1
          ∙ ap (λ t. splice (off + n) t (file fd w'))
              (take-take (length bs - n) (length bs - n) bs (omega arith))
          ∙ ap (λ t. splice (off + n) (take (length bs - n) bs) t) a.1

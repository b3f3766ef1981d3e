-- ===== src/Fd/Write.antt =====
-- The loop of fd_write to its end.
use spu_kit.Base.{
  ◌++◌, ◌+◌, ◌-◌, ◌==◌, ◌^◌, ◌≡◌, ◌≤◌, ◌<◌, ◌∙◌, ap, refl, sym, arith, ℕ, suc, List, true,
  Bool-cases, inl, inr,
}
use Prim.Native.Nat.{zero}
use spu_kit.Io.{
  Errno, Ret, Result, Os, error, ok, done, spins, asserted, overrun, econnreset, sub64,
}
use spu_kit.Fd.{
  Status, success, failure, fd_wait_single, write_result, write_size, fd_write_loop, fd_write,
}
use spu_kit.Fd.Wait.{wait-Waited, error_lem, Waited}
use spu_kit.Base.Int.{ℤ}
use spu_kit.Base.Lists.{
  take_all, take-take, length-take, take-append-take-drop, take-append-drop, take, length-drop,
  length, drop,
}
use mathlib.Core.List.{append_assoc, append-nil}
use spu_kit.Io.Laws.{Writes, Interrupts, Documented}

module _ {W : Type 0} (os : Os W) (file : ℤ → W → List ℕ) (patience : W → ℕ) (fd : ℤ) where
  -- A call has ended: all the bytes are appended to the file, or it fails and a first part of them is.
  abbrev pub Appends : List ℕ → W → Result W Status → Type 0
  Appends bs w (done success w') = (file fd w' ≡ file fd w ++ bs) × (patience w' ≤ patience w)
  Appends bs w (done (failure e) w') =
      ((k : ℕ) × (k ≤ length bs) × (file fd w' ≡ file fd w ++ take k bs))
      × (patience w' ≤ patience w)
  Appends bs w _ = ⊥

  -- The bytes that an earlier call has appended come first.
  Appends-from :
      (n : ℕ) (bs : List ℕ) (w w' : W) (r : Result W Status)
      → n ≤ length bs
      → file fd w' ≡ file fd w ++ take n bs
      → patience w' ≤ patience w
      → Appends (drop n bs) w' r
      → Appends bs w r
  Appends-from n bs w w' (done success w'') l e h v = (
    v.0
        ∙ ap (λ t. t ++ drop n bs) e
        ∙ append_assoc (file fd w) (take n bs) (drop n bs)
        ∙ ap (λ t. file fd w ++ t) (take-append-drop n bs),
    omega (arith, v.1),
  )
  Appends-from n bs w w' (done (failure e') w'') l e h ((k, m, f), p) = (
    (
      n + k,
      omega (arith, length-drop {0} n bs),
      f
          ∙ ap (λ t. t ++ take k (drop n bs)) e
          ∙ append_assoc (file fd w) (take n bs) (take k (drop n bs))
          ∙ ap (λ t. file fd w ++ t) (take-append-take-drop n k bs),
    ),
    omega arith,
  )
  Appends-from n bs w w' spins l e h v = v
  Appends-from n bs w w' asserted l e h v = v
  Appends-from n bs w w' overrun l e h v = v

  -- What follows one write(2), with what holds of a further turn of the loop. A turn has moved on or
  -- has cost patience.
  module _ (again : ℕ → W → Result W Status) (wait : W → Result W Status) (remains : ℕ)
      (ptr : List ℕ) (w : W) (same : length ptr ≡ remains) (fits : remains < 2 ^ 64)
      (turns : (n : ℕ) (w' : W)
        → n ≤ remains
        → patience w' + (remains - n) < patience w + remains
        → patience w' ≤ patience w
        → Appends (drop n ptr) w' (again n w'))
      (waits : (w' : W) → patience w' < patience w → Waited os file patience fd w' (wait w')) where
    retried :
        (w' : W) → file fd w' ≡ file fd w → patience w' < patience w → Appends ptr w (again 0 w')
    retried w' e h =
        Appends-from 0 ptr w w' (again 0 w') (omega arith) (e ∙ sym (append-nil (file fd w)))
          (omega arith) (turns 0 w' (omega arith) (omega arith) (omega arith))

    failed-Appends :
        (e : Errno) (w' : W)
        → file fd w' ≡ file fd w
        → patience w' ≤ patience w
        → Appends ptr w (done (failure e) w')
    failed-Appends e w' q h = ((0, omega arith, q ∙ sym (append-nil (file fd w))), h)

    error-Appends :
        (e : Errno) (w' : W)
        → Interrupts file patience fd w (e, w')
        → Appends ptr w (write_result os again wait remains (error e, w'))
    error-Appends =
        error_lem os file patience fd (Appends ptr w) again wait w failed-Appends retried waits
          remains

    ok-Appends :
        (n : ℕ) (w' : W)
        → Writes file patience fd (take (write_size os remains) ptr) w (ok n, w')
        → Appends ptr w (write_result os again wait remains (ok n, w'))
    unfolding write_result
    ok-Appends n w' (l, f, p) = elim (Bool-cases (n == 0)) [
      | inl z ↦ rw (z, write_result) (failed-Appends econnreset w' (f ∙ nothing z) p)
      | inr z ↦
          rw (z, write_result)
            (elim (Bool-cases (sub64 remains n == 0)) [
              | inl d ↦
                  rw (d, write_result)
                    (f ∙ ap (λ t. file fd w ++ t) (front ∙ take_all n ptr (ground arith)), p)
              | inr d ↦
                  rw (d, write_result)
                    (Appends-from n ptr w w' (again n w') (omega (arith, small))
                      (f ∙ ap (λ t. file fd w ++ t) front) p
                      (turns n w' small (ground (arith, small)) p))
            ])
    ]
      where
        size : ℕ
        size = write_size os remains

        shorter : n ≤ size
        shorter = omega (arith, l, length-take {0} size ptr)

        small : n ≤ remains
        small = omega (arith, l, length-take {0} size ptr, same)

        front : take n (take size ptr) ≡ take n ptr
        front = take-take n size ptr shorter

        nothing : (n == 0) ≡ true → file fd w ++ take n (take size ptr) ≡ file fd w
        nothing z = let e : n ≡ 0 = ground arith in rw e (append-nil (file fd w))

    next-Appends :
        (r : Ret × W)
        → Writes file patience fd (take (write_size os remains) ptr) w r
        → Appends ptr w (write_result os again wait remains r)
    next-Appends (ok n, w') = ok-Appends n w'
    next-Appends (error e, w') = error-Appends e w'

  write_loop-Appends :
      Documented os file patience
      → (fuel remains : ℕ) (ptr : List ℕ) (w : W) → length ptr ≡ remains
      → remains < 2 ^ 64
      → patience w + remains < fuel
      → Appends ptr w (fd_write_loop os fuel fd remains ptr w)
  unfolding fd_write_loop
  write_loop-Appends doc zero remains ptr w same fits h = absurd (omega arith)
  write_loop-Appends doc (suc fuel) remains ptr w same fits h =
      next-Appends (λ n. fd_write_loop os fuel fd (sub64 remains n) (drop n ptr))
        (fd_wait_single os fuel fd) remains ptr w same fits
        (λ n w' l m p.
          write_loop-Appends doc fuel (sub64 remains n) (drop n ptr) w'
            (omega (arith, length-drop {0} n ptr)) (omega arith) (omega arith))
        (λ w' l. wait-Waited os file patience fd doc fuel w' (omega arith))
        (os.write fd (take (write_size os remains) ptr) w)
        (doc.write_lem fd (take (write_size os remains) ptr) w)

  -- On a system that behaves as documented, fd_write ends, whatever short writes and interruptions
  -- it meets, if its fuel exceeds the bytes and the interruptions still to come; where it succeeds,
  -- the file has got exactly the bytes of the buffer behind what it had, and where it fails, a first
  -- part of them.
  pub fd_write-Appends :
      Documented os file patience
      → (fuel : ℕ) (bs : List ℕ) (w : W) → length bs < 2 ^ 64
      → patience w + length bs < fuel
      → Appends bs w (fd_write os fuel fd bs w)
  unfolding fd_write
  fd_write-Appends doc fuel bs w fits h = write_loop-Appends doc fuel (length bs) bs w refl fits h

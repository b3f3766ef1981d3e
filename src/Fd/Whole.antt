-- ===== src/Fd/Whole.antt =====
-- fd_pwrite on a file whose writes are never short.
use spu_kit.Base.Int.{ℤ}
use spu_kit.Base.Lists.{take_all, take, length, drop}
use spu_kit.Fd.Wait.{wait-Waited, error_lem, Waited}
use spu_kit.Base.{◌==◌, ◌+◌, ◌∙◌, ◌<◌, ◌≤◌, ◌≡◌, ℕ, true, false, arith, ap, List}
use spu_kit.Io.Laws.{Pwrites, splice, Documented}
use Prim.Native.Nat.{zero, suc}
use spu_kit.Io.{Result, Os, done, spins, asserted, overrun, error, ok, Ret, sub64, ssize_max}
use spu_kit.Fd.{
  success, failure, fd_pwrite_loop, fd_pwrite, fd_wait_single, write_result, write_size, Status,
}

-- A regular file takes all the bytes of a pwrite(2), or none.
abbrev pub TakesAll : {W : Type 0} → List ℕ → Ret × W → Type 0
TakesAll bs (ok n, w) = n ≡ length bs
TakesAll bs (error e, w) = Unit {0}

module _ {W : Type 0} (os : Os W) (file : ℤ → W → List ℕ) (patience : W → ℕ) (fd : ℤ) (off : ℕ)
    (bs : List ℕ) where
  -- A call has ended: the buffer stands in the file at the offset, or the file is as it was.
  abbrev pub Places : W → Result W Status → Type 0
  Places w (done success w') = (file fd w' ≡ splice off bs (file fd w)) × (patience w' ≤ patience w)
  Places w (done (failure e) w') = (file fd w' ≡ file fd w) × (patience w' ≤ patience w)
  Places w _ = ⊥

  Places-same :
      (w w' : W) (r : Result W Status)
      → file fd w' ≡ file fd w
      → patience w' ≤ patience w
      → Places w' r
      → Places w r
  Places-same w w' (done success w'') e h v = (v.0 ∙ ap (splice off bs) e, omega (arith, v.1))
  Places-same w w' (done (failure e') w'') e h v = (v.0 ∙ e, omega (arith, v.1))
  Places-same w w' spins e h v = v
  Places-same w w' asserted e h v = v
  Places-same w w' overrun e h v = v

  placed :
      (again : ℕ → W → Result W Status) (wait : W → Result W Status) (w : W)
      → length bs ≤ ssize_max
      → 0 < length bs
      → ((w' : W) → patience w' < patience w → Places w' (again 0 w'))
      → ((w' : W) → patience w' < patience w → Waited os file patience fd w' (wait w'))
      → (r : Ret × W) → Pwrites file patience fd bs off w r
      → TakesAll bs r
      → Places w (write_result os again wait (length bs) r)
  unfolding write_result
  placed again wait w fits some' turns waits (ok n, w') (l, e, p) whole =
      let z : (n == 0) ≡ false = ground arith in
      let d : (sub64 (length bs) n == 0) ≡ true = ground arith in
      rw (z, d, write_result)
        (e ∙ ap (λ t. splice off t (file fd w)) (take_all n bs (omega arith)), p)
  placed again wait w fits some' turns waits (error e, w') law whole =
      error_lem os file patience fd (Places w) again wait w (λ e' w'' q h. (q, h))
        (λ w'' q h. Places-same w w'' (again 0 w'') q (omega arith) (turns w'' h)) waits (length bs)
        e w' law

  pwrite_loop-Places :
      Documented os file patience
      → ((w : W) → TakesAll bs (os.pwrite fd bs off w))
      → length bs ≤ ssize_max
      → 0 < length bs
      → (fuel : ℕ) (w : W) → patience w < fuel
      → Places w (fd_pwrite_loop os fuel fd bs off (length bs) bs w)
  unfolding fd_pwrite_loop
  pwrite_loop-Places doc whole fits some' zero w h = absurd (omega arith)
  pwrite_loop-Places doc whole fits some' (suc fuel) w h =
      let size : take (write_size os (length bs)) bs ≡ bs =
        take_all (write_size os (length bs)) bs (ground arith) in
      let none : off + 0 ≡ off = omega arith in
      let same : sub64 (length bs) 0 ≡ length bs = omega arith in
      rw size (
        placed (λ n. fd_pwrite_loop os fuel fd bs (off + n) (sub64 (length bs) n) (drop n bs))
          (fd_wait_single os fuel fd) w fits some'
          (λ w' l. rw (none, same) (pwrite_loop-Places doc whole fits some' fuel w' (omega arith)))
          (λ w' l. wait-Waited os file patience fd doc fuel w' (omega arith))
          (os.pwrite fd bs off w) (doc.pwrite_lem fd bs off w) (whole w))

  -- On a system that behaves as documented, where pwrite(2) of this buffer at this offset takes all
  -- of it or fails, fd_pwrite ends, whatever interruptions it meets; where it succeeds, the buffer
  -- stands in the file at the offset and nothing else has changed, and where it fails, the file is as
  -- it was.
  pub fd_pwrite-Places :
      Documented os file patience
      → ((w : W) → TakesAll bs (os.pwrite fd bs off w))
      → length bs ≤ ssize_max
      → 0 < length bs
      → (fuel : ℕ) (w : W) → patience w < fuel
      → Places w (fd_pwrite os fuel fd off bs w)
  unfolding fd_pwrite
  fd_pwrite-Places doc whole fits some' fuel w h = pwrite_loop-Places doc whole fits some' fuel w h

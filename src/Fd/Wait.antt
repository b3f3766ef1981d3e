-- ===== src/Fd/Wait.antt =====
-- The waits of fd.c to their end, and what the two loops do where a call fails.
use spu_kit.Base.{◌≡◌, ◌≤◌, ◌<◌, ◌∙◌, arith, ℕ, suc, List, Bool-cases, inl, inr}
use Prim.Native.Nat.{zero}
use spu_kit.Io.{
  Errno, Ret, Result, Os, error, ok, done, spins, asserted, overrun, is_eintr, is_eagain, after,
}
use spu_kit.Fd.{Status, success, failure, wait_result, fd_wait_single, woken, write_result}
use spu_kit.Base.Int.{ℤ}
use spu_kit.Io.Laws.{Interrupts, Polls, Documented}

module _ {W : Type 0} (os : Os W) (file : ℤ → W → List ℕ) (patience : W → ℕ) (fd : ℤ) where
  -- A wait ends, and writes nothing.
  abbrev pub Waited : W → Result W Status → Type 0
  Waited w (done s w') = (file fd w' ≡ file fd w) × (patience w' ≤ patience w)
  Waited w _ = ⊥

  Waited-from :
      (w w' : W) (r : Result W Status)
      → file fd w' ≡ file fd w
      → patience w' ≤ patience w
      → Waited w' r
      → Waited w r
  Waited-from w w' (done s w'') e h v = (v.0 ∙ e, omega (arith, v.1))
  Waited-from w w' spins e h v = v
  Waited-from w w' asserted e h v = v
  Waited-from w w' overrun e h v = v

  wait_step :
      (again : W → Result W Status) (w : W) (r : Ret × W)
      → Polls file patience fd w r
      → ((w' : W) → patience w' < patience w → Waited w' (again w'))
      → Waited w (wait_result os again r)
  unfolding wait_result
  wait_step again w (ok n, w') p h = p
  wait_step again w (error e, w') p h = elim (Bool-cases (is_eintr e)) [
    | inl q ↦ rw (q, Waited) (Waited-from w w' (again w') p.0.0 p.0.1 (h w' (p.1 q)))
    | inr q ↦ rw (q, Waited) p.0
  ]

  pub wait-Waited :
      Documented os file patience
      → (fuel : ℕ) (w : W) → patience w < fuel
      → Waited w (fd_wait_single os fuel fd w)
  unfolding fd_wait_single
  wait-Waited doc zero w h = absurd (omega arith)
  wait-Waited doc (suc fuel) w h =
      wait_step (fd_wait_single os fuel fd) w (os.poll fd w) (doc.poll_lem fd w)
        (λ w' l. wait-Waited doc fuel w' (omega arith))

  -- A failed call is repeated, after a wait or at once, or reported.
  module _ (P : Result W Status → Type 0) (again : ℕ → W → Result W Status)
      (wait : W → Result W Status) (w : W)
      (fails : (e : Errno) (w' : W)
        → file fd w' ≡ file fd w
        → patience w' ≤ patience w
        → P (done (failure e) w'))
      (repeats : (w' : W) → file fd w' ≡ file fd w → patience w' < patience w → P (again 0 w'))
      (waits : (w' : W) → patience w' < patience w → Waited w' (wait w')) where
    woken_lem :
        (w' : W) (r : Result W Status)
        → file fd w' ≡ file fd w
        → patience w' < patience w
        → Waited w' r
        → P (after r (woken os (again 0)))
    woken_lem w' (done success w'') e h v = repeats w'' (v.0 ∙ e) (omega (arith, v.1))
    woken_lem w' (done (failure e') w'') e h v = fails e' w'' (v.0 ∙ e) (omega (arith, v.1))
    woken_lem w' spins e h v = absurd v
    woken_lem w' asserted e h v = absurd v
    woken_lem w' overrun e h v = absurd v

    pub error_lem :
        (remains : ℕ) (e : Errno) (w' : W)
        → Interrupts file patience fd w (e, w')
        → P (write_result os again wait remains (error e, w'))
    unfolding write_result
    error_lem remains e w' (f, i, a) = elim (Bool-cases (is_eintr e)) [
      | inl q ↦ rw (q, write_result) (repeats w' f.0 (i q))
      | inr q ↦
          rw (q, write_result)
            (elim (Bool-cases (is_eagain e)) [
              | inl g ↦ rw (g, write_result) (woken_lem w' (wait w') f.0 (a g) (waits w' (a g)))
              | inr g ↦ rw (g, write_result) (fails e w' f.0 f.1)
            ])
    ]

-- ===== src/Fd/Held.antt =====
-- The loops of fd.c hold no memory and open no file.
use spu_kit.Base.{refl, ◌+◌, ℕ, suc, ◌==◌, Bool-cases, inl, inr, List}
use Prim.Native.Nat.{zero}
use spu_kit.Base.Int.{ℤ}
use spu_kit.Base.Lists.{drop, take, length}
use spu_kit.Io.{Ret, ok, error, Os, Result, sub64, is_eintr, is_eagain}
use spu_kit.Io.Held.{Counting, Same, Keeps, Keeps-from, Keeps-after}
use spu_kit.Fd.{
  Status, success, failure, wait_result, fd_wait_single, woken, write_result, fd_write_loop,
  fd_write, fd_pwrite_loop, fd_pwrite, write_size,
}

module _ {W : Type 0} (os : Os W) (blocks files : W → ℕ) (count : Counting os blocks files)
    (fd : ℤ) where
  wait_result-Keeps :
      (again : W → Result W Status) (w : W) (r : Ret × W)
      → Same blocks files w r.1
      → ((w' : W) → Keeps blocks files w' (again w'))
      → Keeps blocks files w (wait_result os again r)
  unfolding wait_result
  wait_result-Keeps again w (ok n, w') s h = s
  wait_result-Keeps again w (error e, w') s h = elim (Bool-cases (is_eintr e)) [
    | inl q ↦ rw (q, wait_result) (Keeps-from blocks files w w' (again w') s (h w'))
    | inr q ↦ rw (q, wait_result) s
  ]

  wait-Keeps : (fuel : ℕ) (w : W) → Keeps blocks files w (fd_wait_single os fuel fd w)
  unfolding fd_wait_single
  wait-Keeps zero w = tt
  wait-Keeps (suc fuel) w =
      wait_result-Keeps (fd_wait_single os fuel fd) w (os.poll fd w) (count.poll_held fd w)
        (wait-Keeps fuel)

  write_result-Keeps :
      (again : ℕ → W → Result W Status) (wait : W → Result W Status) (remains : ℕ) (w : W)
      (r : Ret × W)
      → Same blocks files w r.1
      → ((n : ℕ) (w' : W) → Keeps blocks files w' (again n w'))
      → ((w' : W) → Keeps blocks files w' (wait w'))
      → Keeps blocks files w (write_result os again wait remains r)
  unfolding write_result
  write_result-Keeps again wait remains w (ok n, w') s h k = elim (Bool-cases (n == 0)) [
    | inl z ↦ rw (z, write_result) s
    | inr z ↦
        rw (z, write_result)
          (elim (Bool-cases (sub64 remains n == 0)) [
            | inl d ↦ rw (d, write_result) s
            | inr d ↦ rw (d, write_result) (Keeps-from blocks files w w' (again n w') s (h n w'))
          ])
  ]
  write_result-Keeps again wait remains w (error e, w') s h k = elim (Bool-cases (is_eintr e)) [
    | inl q ↦ rw (q, write_result) (Keeps-from blocks files w w' (again 0 w') s (h 0 w'))
    | inr q ↦
        rw (q, write_result)
          (elim (Bool-cases (is_eagain e)) [
            | inl g ↦
                rw (g, write_result)
                  (Keeps-from blocks files w w' _ s
                    (Keeps-after blocks files w' (wait w') (woken os (again 0)) (k w') waited))
            | inr g ↦ rw (g, write_result) s
          ])
  ]
    where
      waited : (a : Status) (w'' : W) → Keeps blocks files w'' (woken os (again 0) a w'')
      waited success w'' = h 0 w''
      waited (failure e') w'' = (refl, refl)

  write_loop-Keeps :
      (fuel remains : ℕ) (ptr : List ℕ) (w : W)
      → Keeps blocks files w (fd_write_loop os fuel fd remains ptr w)
  unfolding fd_write_loop
  write_loop-Keeps zero remains ptr w = tt
  write_loop-Keeps (suc fuel) remains ptr w =
      write_result-Keeps _ (fd_wait_single os fuel fd) remains w
        (os.write fd (take (write_size os remains) ptr) w)
        (count.write_held fd (take (write_size os remains) ptr) w)
        (λ n w'. write_loop-Keeps fuel (sub64 remains n) (drop n ptr) w') (wait-Keeps fuel)

  pub fd_write-Keeps :
      (fuel : ℕ) (bs : List ℕ) (w : W) → Keeps blocks files w (fd_write os fuel fd bs w)
  unfolding fd_write
  fd_write-Keeps fuel bs w = write_loop-Keeps fuel (length bs) bs w

  pwrite_loop-Keeps :
      (fuel : ℕ) (buf : List ℕ) (cur_off remains : ℕ) (ptr : List ℕ) (w : W)
      → Keeps blocks files w (fd_pwrite_loop os fuel fd buf cur_off remains ptr w)
  unfolding fd_pwrite_loop
  pwrite_loop-Keeps zero buf cur_off remains ptr w = tt
  pwrite_loop-Keeps (suc fuel) buf cur_off remains ptr w =
      write_result-Keeps _ (fd_wait_single os fuel fd) remains w
        (os.pwrite fd (take (write_size os remains) buf) cur_off w)
        (count.pwrite_held fd (take (write_size os remains) buf) cur_off w)
        (λ n w'. pwrite_loop-Keeps fuel buf (cur_off + n) (sub64 remains n) (drop n ptr) w')
        (wait-Keeps fuel)

  pub fd_pwrite-Keeps :
      (fuel off : ℕ) (buf : List ℕ) (w : W) → Keeps blocks files w (fd_pwrite os fuel fd off buf w)
  unfolding fd_pwrite
  fd_pwrite-Keeps fuel off buf w = pwrite_loop-Keeps fuel buf off (length buf) buf w

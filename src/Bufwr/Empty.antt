-- ===== src/Bufwr/Empty.antt =====
-- A write past an empty buffer, which flushes it first.
use spu_kit.Bufwr.Bytes.{load_bytes}
use spu_kit.Base.Int.{ℤ, is_negative}
use spu_kit.Base.Lists.{length, drop}
use spu_kit.Fd.Wait.{wait-Waited, error_lem, Waited}
use spu_kit.Io.Laws.{Writes, Documented}
use spu_kit.Base.{
  if◌then◌else◌, ◌≤◌, ◌==◌, ◌∙◌, ◌+◌, ◌≡◌, ◌<◌, ℕ, true, refl, leb, false, arith, [], List, Bool,
}
use mathlib.Core.List.{append-nil}
use spu_kit.Fd.{success, failure, fd_write, fd_write_loop, fd_wait_single, write_result, Status}
use spu_kit.Io.{Result, Os, done, spins, asserted, overrun, error, ok, Ret, after, sub64, sub32}
use Prim.Native.Nat.{zero, suc}
use spu_kit.Bufwr.{Bufwr, bufwr_write, large_write, flush, flush_result, succeeded}
use spu_kit.Bufwr.Keeps.{IsSound}

module _ {W : Type 0} (os : Os W) (file : ℤ → W → List ℕ) (patience : W → ℕ) (fd : ℤ) where
  -- A call has ended with a failure, and the file is as it was.
  abbrev Fruitless : W → Result W Status → Type 0
  Fruitless w (done success w') = ⊥
  Fruitless w (done (failure e) w') = file fd w' ≡ file fd w
  Fruitless w _ = ⊥

  Fruitless-same :
      (w w' : W) (r : Result W Status) → file fd w' ≡ file fd w → Fruitless w' r → Fruitless w r
  Fruitless-same w w' (done success w'') e v = v
  Fruitless-same w w' (done (failure e') w'') e v = v ∙ e
  Fruitless-same w w' spins e v = v
  Fruitless-same w w' asserted e v = v
  Fruitless-same w w' overrun e v = v

  nothing_written :
      (again : ℕ → W → Result W Status) (wait : W → Result W Status) (w : W)
      → ((w' : W) → patience w' < patience w → Fruitless w' (again 0 w'))
      → ((w' : W) → patience w' < patience w → Waited os file patience fd w' (wait w'))
      → (r : Ret × W) → Writes file patience fd [] w r
      → Fruitless w (write_result os again wait 0 r)
  unfolding write_result
  nothing_written again wait w turns waits (ok n, w') (l, e, p) =
      let none : (n == 0) ≡ true = ground (arith, l) in
      let zero' : n ≡ 0 = omega (arith, l) in
      rw (none, write_result) (e ∙ (rw zero' (append-nil (file fd w))))
  nothing_written again wait w turns waits (error e, w') law =
      error_lem os file patience fd (Fruitless w) again wait w (λ e' w'' q _. q)
        (λ w'' q h. Fruitless-same w w'' (again 0 w'') q (turns w'' h)) waits 0 e w' law

  empty_loop :
      Documented os file patience
      → (fuel : ℕ) (w : W) → patience w < fuel
      → Fruitless w (fd_write_loop os fuel fd 0 [] w)
  unfolding fd_write_loop
  empty_loop doc zero w h = absurd (omega arith)
  empty_loop doc (suc fuel) w h =
      nothing_written (λ n. fd_write_loop os fuel fd (sub64 0 n) (drop n []))
        (fd_wait_single os fuel fd) w (λ w' l. empty_loop doc fuel w' (omega arith))
        (λ w' l. wait-Waited os file patience fd doc fuel w' (omega arith)) (os.write fd [] w)
        (doc.write_lem fd [] w)

module _ {W : Type 0} (os : Os W) (file : ℤ → W → List ℕ) (patience : W → ℕ) where
  -- A call returns false, with the buffer marked and the file as it was.
  abbrev pub Refuses : ℤ → W → Result W (Bool × Bufwr) → Type 0
  Refuses fd w (done (true, f') w') = ⊥
  Refuses fd w (done (false, f') w') = (f'.corrupted ≡ true) × (file fd w' ≡ file fd w)
  Refuses fd w _ = ⊥

  -- On a system that behaves as documented, bufwr_write of at least twice the size of the buffer fails
  -- whenever the buffer is empty and the file is open: it flushes the buffer first, and fd_write takes
  -- the 0 that write(2) returns for no bytes as the end of the connection. The file is unchanged and
  -- the buffer is marked corrupted.
  pub bufwr_write-Refuses :
      Documented os file patience
      → (fuel : ℕ) (f : Bufwr) (bs : List ℕ) (w : W) → IsSound f
      → f.cur ≡ 0
      → is_negative f.fd ≡ false
      → f.max + f.max ≤ length bs
      → patience w < fuel
      → Refuses f.fd w (bufwr_write os fuel f bs w)
  unfolding bufwr_write large_write flush flush_result fd_write load_bytes
  bufwr_write-Refuses doc fuel f bs w sound nothing open' long enough =
      let large : leb (sub32 f.max f.cur + f.max) (length bs) ≡ true = ground arith in
      rw (large, open', nothing)
        (cases (fd_write_loop os fuel f.fd 0 [] w)
          (empty_loop os file patience f.fd doc fuel w enough))
    where
      cases :
          (r : Result W Status)
          → Fruitless os file patience f.fd w r
          → Refuses f.fd w (
              after (after r (flush_result os (record f { cur = 0 }))) (λ (flushed, f') w'.
                if flushed
                then after (fd_write os fuel f'.fd bs w') (λ s w''. done (succeeded os s, f') w'')
                else done (false, f') w'))
      cases (done success w') v = absurd v
      cases (done (failure e) w') v = (refl, v)
      cases spins v = absurd v
      cases asserted v = absurd v
      cases overrun v = absurd v

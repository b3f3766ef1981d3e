-- ===== src/Fd.antt =====
-- The loops of fd.c over write(2), pwrite(2) and poll(2). The `goto again` of each is its recursion,
-- on fuel.
pub mod Wait
pub mod Write
pub mod Pwrite
pub mod Whole
pub mod Held
use spu_kit.Base.{ℕ, ◌+◌, ◌-◌, ltb, ◌==◌, if◌then◌else◌, Bool, true, false, List, [], ◌∷◌}
use spu_kit.Base.Int.{ℤ}
use spu_kit.Base.Lists.{length, take, drop}
use spu_kit.Io.{
  is_eintr, is_eagain, Errno, eintr, eagain, econnreset, Ret, ok, error, Result, done, spins, Os,
  ssize_max, sub64, after,
}
use Prim.Native.Nat.{zero, suc}

-- The `bool` that a function returns, with `errno` where it is false.
pub data Status : Type 0 where
  success : Status
  failure : Errno → Status

module _ {W : Type 0} (os : Os W) where
  -- What follows poll(2), `again` being the label.
  unfoldable pub wait_result : (W → Result W Status) → Ret × W → Result W Status
  wait_result again (ok n, w) = done success w
  wait_result again (error e, w) = elim (is_eintr e) [ true ↦ again w | false ↦ done (failure e) w ]

  unfoldable pub fd_wait_single : ℕ → ℤ → W → Result W Status
  unfolding wait_result
  fd_wait_single zero fd w = spins
  fd_wait_single (suc fuel) fd w = wait_result (fd_wait_single fuel fd) (os.poll fd w)

  -- What follows fd_wait_single.
  abbrev pub woken : (W → Result W Status) → Status → W → Result W Status
  woken again success w = again w
  woken again (failure e) w = done (failure e) w

  -- What follows write(2) or pwrite(2): the return values below 0, 0 and above. `again` is the label
  -- with the variables that the body has moved by so many bytes.
  unfoldable pub write_result :
      (ℕ → W → Result W Status) → (W → Result W Status) → ℕ → Ret × W → Result W Status
  write_result again wait remains (error e, w) = elim (is_eintr e) [
    | true ↦ again 0 w
    | false ↦ elim (is_eagain e) [
      | true ↦ after (wait w) (woken (again 0))
      | false ↦ done (failure e) w
    ]
  ]
  write_result again wait remains (ok n, w) = elim (n == 0) [
    | true ↦ done (failure econnreset) w
    | false ↦ elim (sub64 remains n == 0) [ true ↦ done success w | false ↦ again n w ]
  ]

  -- `wr_size`
  abbrev pub write_size : ℕ → ℕ
  write_size remains = if ltb ssize_max remains then ssize_max else remains

  unfoldable pub fd_write_loop : ℕ → ℤ → ℕ → List ℕ → W → Result W Status
  unfolding write_result fd_wait_single
  fd_write_loop zero fd remains ptr w = spins
  fd_write_loop (suc fuel) fd remains ptr w =
      write_result (λ n. fd_write_loop fuel fd (sub64 remains n) (drop n ptr))
        (fd_wait_single fuel fd) remains (os.write fd (take (write_size remains) ptr) w)

  unfoldable pub fd_write : ℕ → ℤ → List ℕ → W → Result W Status
  unfolding fd_write_loop
  fd_write fuel fd buf w = fd_write_loop fuel fd (length buf) buf w

  -- The loop of fd_pwrite. `ptr` moves, and what is written is always from `buf`.
  unfoldable pub fd_pwrite_loop : ℕ → ℤ → List ℕ → ℕ → ℕ → List ℕ → W → Result W Status
  unfolding write_result fd_wait_single
  fd_pwrite_loop zero fd buf cur_off remains ptr w = spins
  fd_pwrite_loop (suc fuel) fd buf cur_off remains ptr w =
      write_result (λ n. fd_pwrite_loop fuel fd buf (cur_off + n) (sub64 remains n) (drop n ptr))
        (fd_wait_single fuel fd) remains (os.pwrite fd (take (write_size remains) buf) cur_off w)

  unfoldable pub fd_pwrite : ℕ → ℤ → ℕ → List ℕ → W → Result W Status
  unfolding fd_pwrite_loop
  fd_pwrite fuel fd off buf w = fd_pwrite_loop fuel fd buf off (length buf) buf w

-- ===== src/Bufwr.antt =====
-- The buffered writer of bufwr.c.
pub mod Bytes
pub mod Keeps
pub mod Write
pub mod Empty
pub mod Held
use spu_kit.Base.{
  ℕ, suc, ◌+◌, ◌^◌, ltb, leb, ◌==◌, if◌then◌else◌, Bool, true, false, Option, none, some, List, [],
  ◌∷◌, u32, update,
}
use Prim.Native.Nat.{zero}
use spu_kit.Base.Int.{ℤ, negsuc, is_negative}
use spu_kit.Base.Lists.{length, take, drop}
use spu_kit.Io.{
  Errno, erofs, einval, Ret, ok, error, Result, done, overrun, asserted, Os, sub32, after,
}
use spu_kit.Fd.{Status, success, failure, fd_write}
use spu_kit.Bufwr.Bytes.{load_bytes, store_bytes}

-- `struct bufwr`, with the array that `buf` points to.
pub record Bufwr : Type 0 where
  pub buf : ℕ → ℕ
  pub cur : ℕ
  pub max : ℕ
  pub fd : ℤ
  pub corrupted : Bool

unfoldable pub buffer_size : ℕ → ℕ
buffer_size buf_size =
    if ltb 0xffffffff buf_size then 0x8_0000_0000 else if buf_size == 0 then 8192 else buf_size

module _ {W : Type 0} (os : Os W) where
  -- What follows the `malloc` of the array. `none` stands for a structure whose `buf` is NULL.
  unfoldable pub init_result : ℤ → ℕ → Option (ℕ → ℕ) × W → Option Bufwr × W
  init_result fd bufsz (none, w) = (none, w)
  init_result fd bufsz (some array, w) =
      (some (record { buf = array; cur = 0; max = u32 bufsz; fd = fd; corrupted = false }), w)

  unfoldable pub bufwr__init : ℤ → ℕ → W → Option Bufwr × W
  unfolding buffer_size init_result
  bufwr__init fd buf_size w =
      init_result fd (buffer_size buf_size) (os.malloc (buffer_size buf_size) w)

  -- From the test of `f->buf` on.
  unfoldable pub free_unless : Option Bufwr × W → Option Bufwr × W
  free_unless (none, w) = (none, os.free w)
  free_unless (some f, w) = (some f, w)

  -- What follows the `malloc` of the structure.
  unfoldable pub new_result : ℤ → ℕ → Option (ℕ → ℕ) × W → Option Bufwr × W
  unfolding bufwr__init free_unless
  new_result fd buf_size (none, w) = (none, w)
  new_result fd buf_size (some _, w) = free_unless (bufwr__init fd buf_size w)

  -- `none` is a null pointer.
  unfoldable pub bufwr_new : ℤ → ℕ → W → Option Bufwr × W
  unfolding new_result
  bufwr_new fd buf_size w = new_result fd buf_size (os.malloc 24 w)

  -- What follows the fd_write of flush.
  unfoldable pub flush_result : Bufwr → Status → W → Result W (Bool × Bufwr)
  flush_result f success w = done (true, record f { cur = 0 }) w
  flush_result f (failure e) w = done (false, record f { corrupted = true }) w

  unfoldable pub flush : ℕ → Bufwr → W → Result W (Bool × Bufwr)
  unfolding flush_result fd_write
  flush fuel f w =
      if is_negative f.fd
      then done (true, record f { cur = 0 }) w
      else after (fd_write os fuel f.fd (load_bytes f.buf 0 f.cur) w) (flush_result f)

  abbrev pub succeeded : Status → Bool
  succeeded success = true
  succeeded (failure e) = false

  unfoldable pub large_write : ℕ → Bufwr → List ℕ → W → Result W (Bool × Bufwr)
  unfolding flush fd_write
  large_write fuel f bs w = after (flush fuel f w) (λ (flushed, f') w'.
      if flushed
      then after (fd_write os fuel f'.fd bs w') (λ s w''. done (succeeded s, f') w'')
      else done (false, f') w')

  -- `memcpy(f->buf + f->cur, ptr, n)` and `f->cur += n`
  unfoldable pub fill : Bufwr → List ℕ → W → Result W Bufwr
  unfolding store_bytes
  fill f bs w =
      if leb (f.cur + length bs) f.max
      then done (record f { buf = store_bytes f.buf f.cur bs; cur = u32 (f.cur + length bs) }) w
      else overrun

  -- The last part of bufwr_write.
  unfoldable pub fill_rest : Bufwr → List ℕ → W → Result W (Bool × Bufwr)
  unfolding fill
  fill_rest f bs w =
      after (fill f bs w) (λ f' w'. if leb f'.cur f'.max then done (true, f') w' else asserted)

  unfoldable pub bufwr_write : ℕ → Bufwr → List ℕ → W → Result W (Bool × Bufwr)
  unfolding large_write fill fill_rest flush
  bufwr_write fuel f bs w =
      let space = sub32 f.max f.cur in
      if leb (space + f.max) (length bs)
      then large_write fuel f bs w
      else if ltb space (length bs)
      then after (fill f (take space bs) w) (λ f' w'.
        after (flush fuel f' w') (λ (flushed, f'') w''.
          if flushed then fill_rest f'' (drop space bs) w'' else done (false, f'') w''))
      else fill_rest f bs w

  unfoldable pub bufwr_flush : ℕ → Bufwr → W → Result W (Bool × Bufwr)
  unfolding flush
  bufwr_flush fuel f w = if f.cur == 0 then done (true, f) w else flush fuel f w

  unfoldable pub bufwr__fini : Bufwr → W → W
  bufwr__fini f w = os.free w

  unfoldable pub bufwr__abort : Bufwr → W → W
  unfolding bufwr__fini
  bufwr__abort f w = bufwr__fini f (if is_negative f.fd then w else (os.close f.fd w).1)

  -- Whether fsync or close has returned 0, or fsync is not implemented for the file.
  abbrev pub synced : Ret → Bool
  synced (ok n) = true
  synced (error erofs) = true
  synced (error einval) = true
  synced (error _) = false

  abbrev pub closed : Ret → Bool
  closed (ok n) = true
  closed (error e) = false

  -- fsync, if asked for.
  unfoldable pub sync_fd : ℤ → Bool → W → Bool × W
  sync_fd fd false w = (true, w)
  sync_fd fd true w = let (r, w') = os.fsync fd w in (synced r, w')

  -- fsync and close, where there is a file.
  unfoldable pub close_fd : ℤ → Bool → W → Bool × W
  unfolding sync_fd
  close_fd fd sync w =
      if is_negative fd
      then (true, w)
      else (let (synced', w') = sync_fd fd sync w in
          let (r, w'') = os.close fd w' in (if closed r then synced' else false, w''))

  unfoldable pub bufwr__close : ℕ → Bufwr → Bool → W → Result W Bool
  unfolding bufwr_flush close_fd bufwr__fini
  bufwr__close fuel f sync w = after (bufwr_flush fuel f w) (λ (flushed, f') w'.
      let (closed', w'') = close_fd f'.fd sync w' in
      done (if flushed then closed' else false) (bufwr__fini f' w''))

  -- `none` is a null pointer.
  unfoldable pub bufwr_close : ℕ → Option Bufwr → Bool → W → Result W Bool
  unfolding bufwr__close
  bufwr_close fuel none sync w = done true w
  bufwr_close fuel (some f) sync w =
      after (bufwr__close fuel f sync w) (λ ret w'. done ret (os.free w'))

  unfoldable pub bufwr_abort : Option Bufwr → W → W
  unfolding bufwr__abort
  bufwr_abort none w = w
  bufwr_abort (some f) w = os.free (bufwr__abort f w)

unfoldable pub bufwr__leak_fd : Bufwr → Bufwr
bufwr__leak_fd f = record f { fd = negsuc 0 }

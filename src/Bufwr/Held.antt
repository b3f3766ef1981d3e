-- ===== src/Bufwr/Held.antt =====
-- The memory blocks and the open files that a buffered writer holds.
use spu_kit.Base.{
  ℕ, ◌+◌, ◌^◌, ◌<◌, ◌≡◌, ◌==◌, refl, arith, if◌then◌else◌, ltb, leb, Bool, true, false, Bool-cases,
  inl, inr, Option, none, some, List,
}
use spu_kit.Base.Int.{pos, negsuc, ℤ, is_negative}
use spu_kit.Base.Lists.{take, drop, length}
use spu_kit.Io.{Os, Result, done, spins, asserted, overrun, after, sub32}
use spu_kit.Io.Laws.{Documented}
use spu_kit.Io.Held.{opened, Counting, Same, Holding, Without, Allocates, Keeps, Keeps-after}
use spu_kit.Fd.{Status, success, failure, fd_write}
use spu_kit.Fd.Held.{fd_write-Keeps}
use spu_kit.Fd.Write.{fd_write-Appends, Appends}
use spu_kit.Bufwr.Bytes.{load_bytes, length-load_bytes}
use spu_kit.Bufwr.{
  Bufwr, bufwr__init, init_result, bufwr_new, new_result, free_unless, buffer_size, flush,
  flush_result, bufwr_flush, large_write, fill, fill_rest, bufwr_write, bufwr__fini, bufwr__abort,
  bufwr_abort, sync_fd, close_fd, bufwr__close, bufwr_close, succeeded,
}

module _ {W : Type 0} (os : Os W) (blocks files : W → ℕ) (count : Counting os blocks files) where
  -- A structure and its array, or nothing.
  abbrev Gets : ℕ → W → Option Bufwr × W → Type 0
  Gets n w (some f, w') = Holding blocks files w w' n 0
  Gets n w (none, w') = Same blocks files w w'

  pub init-Gets : (fd : ℤ) (buf_size : ℕ) (w : W) → Gets 1 w (bufwr__init os fd buf_size w)
  unfolding bufwr__init init_result
  init-Gets fd buf_size w =
      cases (os.malloc (buffer_size buf_size) w) (count.malloc_held (buffer_size buf_size) w)
    where
      cases :
          (m : Option (ℕ → ℕ) × W)
          → Allocates blocks files w m
          → Gets 1 w (init_result os fd (buffer_size buf_size) m)
      cases (none, w') s = s
      cases (some a, w') s = s

  -- bufwr_new gives a writer with two blocks of memory, or NULL with none.
  pub bufwr_new-Gets : (fd : ℤ) (buf_size : ℕ) (w : W) → Gets 2 w (bufwr_new os fd buf_size w)
  unfolding bufwr_new new_result
  bufwr_new-Gets fd buf_size w = cases (os.malloc 24 w) (count.malloc_held 24 w)
    where
      freed :
          (w' : W) (p : Option Bufwr × W)
          → Holding blocks files w w' 1 0
          → Gets 1 w' p
          → Gets 2 w (free_unless os p)
      freed w' (none, w'') s g = omega (arith, count.free_held w'')
      freed w' (some f, w'') s g = omega arith

      cases :
          (m : Option (ℕ → ℕ) × W)
          → Allocates blocks files w m
          → Gets 2 w (new_result os fd buf_size m)
      cases (none, w') s = s
      cases (some a, w') s = freed w' (bufwr__init os fd buf_size w') s (init-Gets fd buf_size w')

  flush_result-Keeps :
      (f : Bufwr) (s : Status) (w : W) → Keeps blocks files w (flush_result os f s w)
  unfolding flush_result
  flush_result-Keeps f success w = (refl, refl)
  flush_result-Keeps f (failure e) w = (refl, refl)

  pub flush-Keeps : (fuel : ℕ) (f : Bufwr) (w : W) → Keeps blocks files w (flush os fuel f w)
  unfolding flush
  flush-Keeps fuel f w = elim (Bool-cases (is_negative f.fd)) [
    | inl e ↦ rw (e, flush) (refl, refl)
    | inr e ↦
        rw (e, flush)
          (Keeps-after blocks files w (fd_write os fuel f.fd (load_bytes f.buf 0 f.cur) w)
            (flush_result os f)
            (fd_write-Keeps os blocks files count f.fd fuel (load_bytes f.buf 0 f.cur) w)
            (flush_result-Keeps f))
  ]

  pub bufwr_flush-Keeps :
      (fuel : ℕ) (f : Bufwr) (w : W) → Keeps blocks files w (bufwr_flush os fuel f w)
  unfolding bufwr_flush
  bufwr_flush-Keeps fuel f w = elim (Bool-cases (f.cur == 0)) [
    | inl e ↦ rw (e, bufwr_flush) (refl, refl)
    | inr e ↦ rw (e, bufwr_flush) (flush-Keeps fuel f w)
  ]

  fill-Keeps : (f : Bufwr) (bs : List ℕ) (w : W) → Keeps blocks files w (fill os f bs w)
  unfolding fill
  fill-Keeps f bs w = elim (Bool-cases (leb (f.cur + length bs) f.max)) [
    | inl e ↦ rw (e, fill) (refl, refl)
    | inr e ↦ rw (e, fill) tt
  ]

  fill_rest-Keeps : (f : Bufwr) (bs : List ℕ) (w : W) → Keeps blocks files w (fill_rest os f bs w)
  unfolding fill_rest
  fill_rest-Keeps f bs w =
      Keeps-after blocks files w (fill os f bs w) _ (fill-Keeps f bs w)
        (λ f' w'. checked (leb f'.cur f'.max) f' w')
    where
      checked :
          (b : Bool) (f' : Bufwr) (w' : W)
          → Keeps blocks files {A = Bool × Bufwr} w' (if b then done (true, f') w' else asserted)
      checked true f' w' = (refl, refl)
      checked false f' w' = tt

  large_write-Keeps :
      (fuel : ℕ) (f : Bufwr) (bs : List ℕ) (w : W)
      → Keeps blocks files w (large_write os fuel f bs w)
  unfolding large_write
  large_write-Keeps fuel f bs w =
      Keeps-after blocks files w (flush os fuel f w) _ (flush-Keeps fuel f w) written
    where
      written :
          (p : Bool × Bufwr) (w' : W)
          → Keeps blocks files {A = Bool × Bufwr} w' (
              if p.0
              then after (fd_write os fuel p.1.fd bs w') (λ s w''. done (succeeded os s, p.1) w'')
              else done (false, p.1) w')
      written (true, f') w' =
          Keeps-after blocks files w' (fd_write os fuel f'.fd bs w') _
            (fd_write-Keeps os blocks files count f'.fd fuel bs w') (λ s w''. (refl, refl))
      written (false, f') w' = (refl, refl)

  pub bufwr_write-Keeps :
      (fuel : ℕ) (f : Bufwr) (bs : List ℕ) (w : W)
      → Keeps blocks files w (bufwr_write os fuel f bs w)
  unfolding bufwr_write
  bufwr_write-Keeps fuel f bs w =
      let space = sub32 f.max f.cur in
      elim (Bool-cases (leb (space + f.max) (length bs))) [
        | inl e ↦ rw (e, bufwr_write) (large_write-Keeps fuel f bs w)
        | inr e ↦
            rw (e, bufwr_write)
              (elim (Bool-cases (ltb space (length bs))) [
                | inl l ↦
                    rw (l, bufwr_write)
                      (Keeps-after blocks files w (fill os f (take space bs) w) _
                        (fill-Keeps f (take space bs) w)
                        (λ f' w'.
                          Keeps-after blocks files w' (flush os fuel f' w') _
                            (flush-Keeps fuel f' w') (rest space)))
                | inr l ↦ rw (l, bufwr_write) (fill_rest-Keeps f bs w)
              ])
      ]
    where
      rest :
          (space : ℕ) (p : Bool × Bufwr) (w' : W)
          → Keeps blocks files w'
              (if p.0 then fill_rest os p.1 (drop space bs) w' else done (false, p.1) w')
      rest space (true, f') w' = fill_rest-Keeps f' (drop space bs) w'
      rest space (false, f') w' = (refl, refl)

  close_fd-Closes :
      (fd : ℤ) (sync : Bool) (w : W)
      → Without blocks files w (close_fd os fd sync w).1 0 (opened fd)
  unfolding close_fd sync_fd
  close_fd-Closes (pos n) true w =
      let (r, w') = os.fsync (pos n) w in
      omega (arith, count.fsync_held (pos n) w, count.close_held (pos n) w' refl)
  close_fd-Closes (pos n) false w = count.close_held (pos n) w refl
  close_fd-Closes (negsuc n) sync w = omega arith

  pub bufwr__abort-Releases :
      (f : Bufwr) (w : W) → Without blocks files w (bufwr__abort os f w) 1 (opened f.fd)
  unfolding bufwr__abort bufwr__fini
  bufwr__abort-Releases f w = elim (Bool-cases (is_negative f.fd)) [
    | inl e ↦ rw e (omega (arith, count.free_held w))
    | inr e ↦ rw e (omega (arith, count.close_held f.fd w e, count.free_held (os.close f.fd w).1))
  ]

  pub bufwr_abort-Releases :
      (f : Bufwr) (w : W) → Without blocks files w (bufwr_abort os (some f) w) 2 (opened f.fd)
  unfolding bufwr_abort
  bufwr_abort-Releases f w =
      omega (arith, bufwr__abort-Releases f w, count.free_held (bufwr__abort os f w))

  -- A call has ended, and whether it fails or not, so many blocks are free and the file is closed.
  abbrev pub Releases : ℕ → ℤ → W → Result W Bool → Type 0
  Releases n fd w (done b w') = Without blocks files w w' n (opened fd)
  Releases n fd w _ = ⊥

  abbrev Flushed : Bufwr → W → Result W (Bool × Bufwr) → Type 0
  Flushed f w (done (b, f') w') = Same blocks files w w' × (f'.fd ≡ f.fd)
  Flushed f w _ = ⊥

  pub close-Releases :
      (f : Bufwr) (sync : Bool) (w : W) (r : Result W (Bool × Bufwr))
      → Flushed f w r
      → Releases 1 f.fd w (
          after r (λ (flushed, f') w'.
            let (closed', w'') = close_fd os f'.fd sync w' in
            done (if flushed then closed' else false) (bufwr__fini os f' w'')))
  unfolding bufwr__fini
  close-Releases f sync w (done (b, f') w') (s, e) =
      rw e (
        omega
          (arith, s, close_fd-Closes f.fd sync w', count.free_held (close_fd os f.fd sync w').1))
  close-Releases f sync w spins v = absurd v
  close-Releases f sync w asserted v = absurd v
  close-Releases f sync w overrun v = absurd v

  pub freed-Releases :
      (fd : ℤ) (w : W) (r : Result W Bool)
      → Releases 1 fd w r
      → Releases 2 fd w (after r (λ ret w'. done ret (os.free w')))
  freed-Releases fd w (done b w') v = omega (arith, v, count.free_held w')
  freed-Releases fd w spins v = v
  freed-Releases fd w asserted v = v
  freed-Releases fd w overrun v = v

  module _ (file : ℤ → W → List ℕ) (patience : W → ℕ) (doc : Documented os file patience) where
    flush-Flushed :
        (fuel : ℕ) (f : Bufwr) (w : W)
        → f.cur < 2 ^ 32
        → patience w + f.cur < fuel
        → Flushed f w (bufwr_flush os fuel f w)
    unfolding bufwr_flush flush flush_result
    flush-Flushed fuel f w small enough = elim (Bool-cases (f.cur == 0)) [
      | inl e ↦ rw (e, bufwr_flush) ((refl, refl), refl)
      | inr e ↦
          rw (e, bufwr_flush)
            (elim (Bool-cases (is_negative f.fd)) [
              | inl m ↦ rw (m, bufwr_flush) ((refl, refl), refl)
              | inr m ↦
                  rw (m, bufwr_flush)
                    (cases (fd_write os fuel f.fd pending w)
                      (fd_write-Appends os file patience f.fd doc fuel pending w
                        (omega (arith, length-load_bytes f.buf 0 f.cur))
                        (omega (arith, length-load_bytes f.buf 0 f.cur)))
                      (fd_write-Keeps os blocks files count f.fd fuel pending w))
            ])
    ]
      where
        pending : List ℕ
        pending = load_bytes f.buf 0 f.cur

        cases :
            (r : Result W Status)
            → Appends os file patience f.fd (load_bytes f.buf 0 f.cur) w r
            → Keeps blocks files w r
            → Flushed f w (after r (flush_result os f))
        cases (done success w') a k = (k, refl)
        cases (done (failure e) w') a k = (k, refl)
        cases spins a k = absurd a
        cases asserted a k = absurd a
        cases overrun a k = absurd a

    -- On a system that behaves as documented and with fuel for the buffer, bufwr_close ends, and
    -- whether the flush, fsync(2) or close(2) in it fails or not, the two blocks of memory of the
    -- writer are free, and its file is closed, if it has one.
    pub bufwr_close-Releases :
        (fuel : ℕ) (f : Bufwr) (sync : Bool) (w : W)
        → f.cur < 2 ^ 32
        → patience w + f.cur < fuel
        → Releases 2 f.fd w (bufwr_close os fuel (some f) sync w)
    unfolding bufwr_close bufwr__close
    bufwr_close-Releases fuel f sync w small enough =
        freed-Releases f.fd w _
          (close-Releases f sync w (bufwr_flush os fuel f w) (flush-Flushed fuel f w small enough))

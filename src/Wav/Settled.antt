-- ===== src/Wav/Settled.antt =====
-- What _wav_close gives back of the memory and the files that a WAV writer holds.
use spu_kit.Base.Lists.{length}
use spu_kit.Base.Int.{ℤ, is_negative}
use spu_kit.Wav.Header.{length-hdr_bytes, hdr_bytes}
use spu_kit.Bufwr.Keeps.{flush-cases}
use spu_kit.Fd.Held.{fd_pwrite-Keeps}
use spu_kit.Wav.{rewrite_hdr, fixed_hdr, finish, _wav_close, Wav}
use spu_kit.Fd.{fd_pwrite, Status, success, failure}
use spu_kit.Bufwr.Held.{freed-Releases, flush-Keeps, close-Releases, Releases}
use spu_kit.Fd.Pwrite.{fd_pwrite-Patched, Patched}
use spu_kit.Io.{done, spins, asserted, overrun, after, Result, Os}
use spu_kit.Io.Laws.{Documented}
use spu_kit.Io.Held.{opened, Without, Same, Keeps, Counting}
use spu_kit.Bufwr.{succeeded, bufwr_flush, bufwr__close, Bufwr, close_fd, bufwr__fini}
use spu_kit.Base.{
  ℕ, ◌+◌, ◌<◌, ◌≤◌, ◌≡◌, ◌==◌, ◌⊎◌, ◌∙◌, ◌^◌, if◌then◌else◌, true, refl, inr, inl, false, arith, ap,
  List, Bool-cases, Bool,
}

abbrev headed : Wav → List ℕ
headed wav = hdr_bytes (fixed_hdr wav.nr_samples)

module _ {W : Type 0} (os : Os W) (blocks files : W → ℕ) (count : Counting os blocks files)
    (file : ℤ → W → List ℕ) (patience : W → ℕ) (doc : Documented os file patience) where
  -- A flush has ended and holds what was held; where it succeeds, the buffer is empty.
  abbrev Emptied : Bufwr → W → Result W (Bool × Bufwr) → Type 0
  Emptied f w (done (true, f') w') =
      Same blocks files w w' × (f'.fd ≡ f.fd) × (f'.cur ≡ 0) × (patience w' ≤ patience w)
  Emptied f w (done (false, f') w') = Same blocks files w w'
  Emptied f w _ = ⊥

  bufwr_flush-Emptied :
      (fuel : ℕ) (f : Bufwr) (w : W)
      → is_negative f.fd ≡ false
      → f.cur < 2 ^ 32
      → patience w + f.cur < fuel
      → Emptied f w (bufwr_flush os fuel f w)
  unfolding bufwr_flush
  bufwr_flush-Emptied fuel f w open' small enough = elim (Bool-cases (f.cur == 0)) [
    | inl e ↦ rw (e, bufwr_flush) ((refl, refl), refl, ground arith, omega arith)
    | inr e ↦
        rw (e, bufwr_flush)
          (flush-cases os file patience doc (λ r. Keeps blocks files w r → Emptied f w r) fuel f w
            open' small enough (λ w' e' p k. (k, refl, refl, p)) (λ w' n l e' p k. k)
            (flush-Keeps os blocks files count fuel f w))
  ]

  -- A call has ended. Where it returns true, two blocks and the file are given back; where it returns
  -- false, these or one block only.
  abbrev pub Settles : W → Result W Bool → Type 0
  Settles w (done true w') = Without blocks files w w' 2 1
  Settles w (done false w') = Without blocks files w w' 2 1 ⊎ Without blocks files w w' 1 0
  Settles w _ = ⊥

  Settles-from :
      (w w' : W) (r : Result W Bool) → Same blocks files w w' → Settles w' r → Settles w r
  Settles-from w w' (done true w'') s v = omega (arith, s, v)
  Settles-from w w' (done false w'') s (inl v) = inl (omega (arith, s, v))
  Settles-from w w' (done false w'') s (inr v) = inr (omega (arith, s, v))
  Settles-from w w' spins s v = v
  Settles-from w w' asserted s v = v
  Settles-from w w' overrun s v = v

  released-Settles :
      (fd : ℤ) (w : W) (r : Result W Bool)
      → opened fd ≡ 1
      → Releases os blocks files count 2 fd w r
      → Settles w r
  released-Settles fd w (done true w') e v = omega (arith, e, v)
  released-Settles fd w (done false w') e v = inl (omega (arith, e, v))
  released-Settles fd w spins e v = v
  released-Settles fd w asserted e v = v
  released-Settles fd w overrun e v = v

  -- What bufwr__close does behind a flush that succeeds.
  abbrev shut : Bufwr → W → Result W Bool
  shut f w = let (closed', w') = close_fd os f.fd false w in done closed' (bufwr__fini os f w')

  close-Settles :
      (fuel : ℕ) (f : Bufwr) (w : W)
      → f.cur ≡ 0
      → is_negative f.fd ≡ false
      → Settles w (after (bufwr__close os fuel f false w) (finish os))
  unfolding bufwr__close bufwr_flush finish
  close-Settles fuel f w empty open' =
      let none : (f.cur == 0) ≡ true = ground arith in
      let one : opened f.fd ≡ 1 = ap (λ n. if n then 0 else 1) open' in
      rw none (
        released-Settles f.fd w (after (shut f w) (λ ret w'. done ret (os.free w'))) one (
          freed-Releases os blocks files count f.fd w (shut f w) (
            close-Releases os blocks files count f false w (done (true, f) w)
              ((refl, refl), refl))))

  -- What follows the write of the header.
  rewritten-Settles :
      (fuel : ℕ) (f : Bufwr) (bs : List ℕ) (w : W) (r : Result W Status)
      → f.cur ≡ 0
      → is_negative f.fd ≡ false
      → Patched os file patience f.fd bs 0 (length bs) w r
      → Keeps blocks files w r
      → Settles w (
          after (after r (λ s w'. done (succeeded os s) w')) (λ rewritten w'.
            if rewritten
            then after (bufwr__close os fuel f false w') (finish os)
            else finish os false w'))
  unfolding finish
  rewritten-Settles fuel f bs w (done success w') empty open' p k =
      Settles-from w w' _ k (close-Settles fuel f w' empty open')
  rewritten-Settles fuel f bs w (done (failure e) w') empty open' p k =
      inr (omega (arith, k, count.free_held w'))
  rewritten-Settles fuel f bs w spins empty open' p k = absurd p
  rewritten-Settles fuel f bs w asserted empty open' p k = absurd p
  rewritten-Settles fuel f bs w overrun empty open' p k = absurd p

  flushed-Settles :
      (fuel : ℕ) (wav : Wav) (w : W) (r : Result W (Bool × Bufwr))
      → is_negative wav.buf.fd ≡ false
      → patience w + 44 < fuel
      → Emptied wav.buf w r
      → Settles w (
          after r (λ (flushed, f) w1.
            if flushed
            then after (rewrite_hdr os fuel (record wav { buf = f }) w1) (λ rewritten w2.
              if rewritten
              then after (bufwr__close os fuel f false w2) (finish os)
              else finish os false w2)
            else finish os false w1))
  unfolding rewrite_hdr finish
  flushed-Settles fuel wav w (done (true, f) w1) open' enough (s, same, empty, p) =
      Settles-from w w1 _ s (
        rewritten-Settles fuel f (headed wav) w1 (fd_pwrite os fuel f.fd 0 (headed wav) w1) empty
          (ap is_negative same ∙ open')
          (fd_pwrite-Patched os file patience f.fd (headed wav) doc fuel 0 w1
            (omega (arith, length-hdr_bytes (fixed_hdr wav.nr_samples)))
            (omega (arith, length-hdr_bytes (fixed_hdr wav.nr_samples))))
          (fd_pwrite-Keeps os blocks files count f.fd fuel 0 (headed wav) w1))
  flushed-Settles fuel wav w (done (false, f) w1) open' enough s =
      inr (omega (arith, s, count.free_held w1))
  flushed-Settles fuel wav w spins open' enough v = absurd v
  flushed-Settles fuel wav w asserted open' enough v = absurd v
  flushed-Settles fuel wav w overrun open' enough v = absurd v

  -- On a system that behaves as documented, for a structure with an open file and with fuel for its
  -- buffer and the header, _wav_close ends. Where it returns true, the two blocks of memory and the
  -- file that wav_create has taken are given back; where it returns false, these or only one of the
  -- blocks.
  pub wav_close-Settles :
      (fuel : ℕ) (wav : Wav) (w : W)
      → is_negative wav.buf.fd ≡ false
      → wav.buf.cur < 2 ^ 32
      → patience w + wav.buf.cur + 44 < fuel
      → Settles w (_wav_close os fuel wav w)
  unfolding _wav_close
  wav_close-Settles fuel wav w open' small enough =
      flushed-Settles fuel wav w (bufwr_flush os fuel wav.buf w) open' (omega arith)
        (bufwr_flush-Emptied fuel wav.buf w open' small (omega arith))

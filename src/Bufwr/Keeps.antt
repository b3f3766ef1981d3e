-- ===== src/Bufwr/Keeps.antt =====
-- What the calls of the buffered writer leave in the buffer and in the file.
use spu_kit.Base.Lists.{length, take}
use spu_kit.Bufwr.Bytes.{store_bytes, load-store_behind, load_bytes, length-load_bytes}
use spu_kit.Base.Int.{ℤ, is_negative}
use spu_kit.Io.Laws.{Documented}
use spu_kit.Bufwr.{fill_rest, fill, flush_result, flush, Bufwr}
use spu_kit.Base.{u32, refl, leb, ◌++◌, ◌+◌, ◌^◌, ◌<◌, ◌≤◌, ◌≡◌, ℕ, true, false, arith, List, Bool}
use spu_kit.Fd.Write.{fd_write-Appends, Appends}
use spu_kit.Io.{Result, Os, done, spins, asserted, overrun, after}
use spu_kit.Fd.{Status, success, failure, fd_write}

abbrev pub IsSound : Bufwr → Type 0
IsSound f = (f.cur ≤ f.max) × (f.max < 2 ^ 32)

-- The bytes that are in the buffer and not yet in the file.
abbrev pub pending : Bufwr → List ℕ
pending f = load_bytes f.buf 0 f.cur

module _ {W : Type 0} (os : Os W) (file : ℤ → W → List ℕ) (patience : W → ℕ) where
  -- A flush ends in one of two ways.
  pub flush-cases :
      Documented os file patience
      → (P : Result W (Bool × Bufwr) → Type 0) (fuel : ℕ) (f : Bufwr) (w : W)
      → is_negative f.fd ≡ false
      → f.cur < 2 ^ 32
      → patience w + f.cur < fuel
      → ((w' : W)
          → file f.fd w' ≡ file f.fd w ++ pending f
          → patience w' ≤ patience w
          → P (done (true, record f { cur = 0 }) w'))
      → ((w' : W) (k : ℕ)
          → k ≤ f.cur
          → file f.fd w' ≡ file f.fd w ++ take k (pending f)
          → patience w' ≤ patience w
          → P (done (false, record f { corrupted = true }) w'))
      → P (flush os fuel f w)
  unfolding flush flush_result
  flush-cases doc P fuel f w open' small enough good bad = rw open' (
      cases (fd_write os fuel f.fd (pending f) w) (
        fd_write-Appends os file patience f.fd doc fuel (pending f) w
          (omega (arith, length-load_bytes f.buf 0 f.cur))
          (omega (arith, length-load_bytes f.buf 0 f.cur))))
    where
      cases :
          (r : Result W Status)
          → Appends os file patience f.fd (pending f) w r
          → P (after r (flush_result os f))
      cases (done success w') (e, h) = good w' e h
      cases (done (failure e') w') ((k, m, e), h) =
          bad w' k (omega (arith, length-load_bytes f.buf 0 f.cur)) e h
      cases spins v = absurd v
      cases asserted v = absurd v
      cases overrun v = absurd v

  -- A call of bufwr_write has ended. Where it succeeds, the file and the buffer together have got the
  -- bytes, in order, behind what they had; where it fails, the file has got a first part of these.
  abbrev pub Accepts : Bufwr → List ℕ → W → Result W (Bool × Bufwr) → Type 0
  Accepts f bs w (done (true, f') w') =
      IsSound f'
      × (f'.fd ≡ f.fd)
      × (f'.max ≡ f.max)
      × (file f.fd w' ++ pending f' ≡ file f.fd w ++ (pending f ++ bs))
      × (patience w' ≤ patience w)
  Accepts f bs w (done (false, f') w') =
      IsSound f'
      × (f'.fd ≡ f.fd)
      × (f'.max ≡ f.max)
      × ((k : ℕ) × (k ≤ f.cur + length bs)
          × (file f.fd w' ≡ file f.fd w ++ take k (pending f ++ bs)))
      × (patience w' ≤ patience w)
  Accepts f bs w _ = ⊥

  unfoldable pub filled : Bufwr → List ℕ → Bufwr
  filled f bs = record f { buf = store_bytes f.buf f.cur bs; cur = f.cur + length bs }

  pub fill-filled :
      (f : Bufwr) (bs : List ℕ) (w : W)
      → IsSound f
      → f.cur + length bs ≤ f.max
      → fill os f bs w ≡ done (filled f bs) w
  unfolding fill filled
  fill-filled f bs w v h =
      let fits : leb (f.cur + length bs) f.max ≡ true = ground arith in
      let small : u32 (f.cur + length bs) ≡ f.cur + length bs = omega arith in rw (fits, small) refl

  pub fill_rest-filled :
      (f : Bufwr) (bs : List ℕ) (w : W)
      → IsSound f
      → f.cur + length bs ≤ f.max
      → fill_rest os f bs w ≡ done (true, filled f bs) w
  unfolding fill_rest filled
  fill_rest-filled f bs w v h =
      let fits : leb (f.cur + length bs) f.max ≡ true = ground arith in
      rw (fill-filled f bs w v h, fits) refl

  pub pending-filled : (f : Bufwr) (bs : List ℕ) → pending (filled f bs) ≡ pending f ++ bs
  unfolding filled
  pending-filled f bs = load-store_behind f.buf f.cur bs

-- ===== src/Wav/Held.antt =====
-- The memory blocks and the open files that a WAV writer holds.
use spu_kit.Base.{
  false, false, false, false, false, false, false, false, false, false, false, false, false, false,
  false, false, false, false, false, false, false, false, false, false, false, ℕ, ◌+◌, ◌<◌, ◌≡◌,
  ◌∙◌, ap, arith, Bool, true, false, Bool-cases, inl, inr, Option, none, some, List, if◌then◌else◌,
}
use spu_kit.Base.Int.{ℤ, is_negative}
use spu_kit.Io.{Os, Result, done, spins, asserted, overrun, after}
use spu_kit.Io.Laws.{Documented, Leaves}
use spu_kit.Io.Held.{opened, Counting, Same, Holding, Allocates, Opens, Keeps}
use spu_kit.Bufwr.{bufwr__abort, Bufwr, bufwr__init, init_result, buffer_size, bufwr_write}
use spu_kit.Bufwr.Keeps.{Accepts}
use spu_kit.Bufwr.Write.{bufwr_write-Accepts}
use spu_kit.Bufwr.Held.{bufwr_write-Keeps, bufwr__abort-Releases}
use spu_kit.Wav.Header.{hdr, hdr_bytes, length-hdr_bytes}
use spu_kit.Wav.{
  WavPtr, null, dangling, live, wav_create, create_result, open_result, header_write, header_result,
  out_free,
}

module _ {W : Type 0} (os : Os W) (blocks files : W → ℕ) (count : Counting os blocks files) where
  -- A call has ended: a structure holds two blocks of memory and a file, and where there is none, or
  -- it is freed, nothing is held.
  abbrev pub Made : W → Result W WavPtr → Type 0
  Made w (done (live wav) w') = Holding blocks files w w' 2 1
  Made w (done null w') = Same blocks files w w'
  Made w (done dangling w') = Same blocks files w w'
  Made w _ = ⊥

  module _ (file : ℤ → W → List ℕ) (patience : W → ℕ) (doc : Documented os file patience) where
    header_cases :
        (f : Bufwr) (w w2 : W) (r : Result W (Bool × Bufwr))
        → is_negative f.fd ≡ false
        → Holding blocks files w w2 2 1
        → Accepts os file patience f (hdr_bytes hdr) w2 r
        → Keeps blocks files w2 r
        → Made w (after r (header_result os))
    unfolding header_result out_free
    header_cases f w w2 (done (true, f') w') open' h a k = omega arith
    header_cases f w w2 (done (false, f') w') open' h (s, fd, max, part, p) k =
        let one : opened f'.fd ≡ 1 = ap (λ n. if n then 0 else 1) (ap is_negative fd ∙ open') in
        let aborted = bufwr__abort-Releases os blocks files count f' w' in
        omega (arith, one, aborted, count.free_held (bufwr__abort os f' w'))
    header_cases f w w2 spins open' h a k = absurd a
    header_cases f w w2 asserted open' h a k = absurd a
    header_cases f w w2 overrun open' h a k = absurd a

    buffer_cases :
        (fuel : ℕ) (fd : ℤ) (w w1 : W)
        → is_negative fd ≡ false
        → patience w1 + 8192 + 44 < fuel
        → Holding blocks files w w1 1 1
        → (m : Option (ℕ → ℕ) × W) → Allocates blocks files w1 m
        → Leaves file patience fd w1 m.1
        → Made w (header_write os fuel fd (init_result os fd 8192 m))
    unfolding header_write init_result out_free
    buffer_cases fuel fd w w1 open' enough h (none, w2) s v =
        omega (arith, h, s, count.close_held fd w2 open', count.free_held (os.close fd w2).1)
    buffer_cases fuel fd w w1 open' enough h (some array, w2) s v =
        let f : Bufwr = record { buf = array; cur = 0; max = 8192; fd = fd; corrupted = false } in
        header_cases f w w2 (bufwr_write os fuel f (hdr_bytes hdr) w2) open' (omega arith)
          (bufwr_write-Accepts os file patience doc fuel f (hdr_bytes hdr) w2 (omega arith) open'
            (omega (arith, length-hdr_bytes hdr)) (omega (arith, v.1, length-hdr_bytes hdr)))
          (bufwr_write-Keeps os blocks files count fuel f (hdr_bytes hdr) w2)

    open_cases :
        (fuel : ℕ) (w w0 : W) (r : ℤ × W)
        → Holding blocks files w w0 1 0
        → Opens blocks files w0 r
        → patience r.1 + 8192 + 44 < fuel
        → Made w (open_result os fuel r)
    unfolding open_result out_free bufwr__init buffer_size
    open_cases fuel w w0 (fd, w1) h o enough = elim (Bool-cases (is_negative fd)) [
      | inl e ↦
          let none : opened fd ≡ 0 = ap (λ n. if n then 0 else 1) e in
          rw (e, open_result) (omega (arith, none, h, o, count.free_held w1))
      | inr e ↦
          let one : opened fd ≡ 1 = ap (λ n. if n then 0 else 1) e in
          rw (e, open_result)
            (buffer_cases fuel fd w w1 e enough (omega (arith, one, h, o)) (os.malloc 8192 w1)
              (count.malloc_held 8192 w1) (doc.malloc_lem fd 8192 w1))
    ]

    -- On a system that behaves as documented and with fuel for the header, wav_create ends; where it
    -- gives a structure that is not freed, two blocks of memory and one file more are held than
    -- before, and on every failure no more than before.
    pub wav_create-Made :
        (fuel : ℕ) (name : List ℕ) (w : W)
        → patience w + 8192 + 44 < fuel
        → Made w (wav_create os fuel name w)
    unfolding wav_create create_result
    wav_create-Made fuel name w enough =
        cases (os.malloc 32 w) (count.malloc_held 32 w) (λ fd. doc.malloc_lem fd 32 w)
      where
        cases :
            (m : Option (ℕ → ℕ) × W)
            → Allocates blocks files w m
            → ((fd : ℤ) → Leaves file patience fd w m.1)
            → Made w (create_result os fuel name m)
        cases (none, w') s v = s
        cases (some array, w') s v =
            open_cases fuel w w' (os.open_file name w') s (count.open_held name w')
              (omega (arith, (doc.open_lem name w').1, (v (os.open_file name w').0).1))

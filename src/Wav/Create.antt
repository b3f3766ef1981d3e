-- ===== src/Wav/Create.antt =====
-- wav_create to its end.
use spu_kit.Bufwr.Bytes.{load_bytes}
use spu_kit.Base.Int.{ℤ, is_negative}
use spu_kit.Wav.Header.{sample_bytes, length-hdr_bytes, hdr_bytes, hdr}
use spu_kit.Bufwr.Write.{bufwr_write-Accepts}
use spu_kit.Wav.Contents.{Starts}
use spu_kit.Io.Laws.{Leaves, Documented}
use spu_kit.Bufwr.Keeps.{pending, Accepts}
use mathlib.Core.List.{append-nil}
use spu_kit.Base.{
  ◌++◌, ◌∙◌, ◌≤◌, ◌<◌, ◌≡◌, ◌+◌, ℕ, true, sym, refl, inr, inl, false, arith, ap, [], List,
  Bool-cases, Bool, none, some, Option,
}
use spu_kit.Io.{Result, Os, done, spins, asserted, overrun, after}
use spu_kit.Bufwr.{bufwr__init, buffer_size, Bufwr, bufwr_write, init_result}
use spu_kit.Wav.{wav_create, header_result, header_write, open_result, create_result, out_free}

module _ {W : Type 0} (os : Os W) (file : ℤ → W → List ℕ) (patience : W → ℕ) where
  header_cases :
      (f : Bufwr) (w w2 : W) (r : Result W (Bool × Bufwr))
      → is_negative f.fd ≡ false
      → f.max ≡ 8192
      → f.cur ≡ 0
      → file f.fd w2 ≡ []
      → patience w2 ≤ patience w
      → Accepts os file patience f (hdr_bytes hdr) w2 r
      → Starts os file patience w (after r (header_result os))
  unfolding header_result out_free sample_bytes load_bytes
  header_cases f w w2 (done (true, f') w') open' size new bare p (s, fd, max, e, q) = (
    record {
      sound = s;
      is_open = ap is_negative fd ∙ open';
      size = max ∙ size;
      content =
          ap (λ t. file t w' ++ pending f') fd
          ∙ e
          ∙ ap (λ t. t ++ (pending f ++ hdr_bytes hdr)) bare
          ∙ ap (λ t. load_bytes f.buf 0 t ++ hdr_bytes hdr) new
          ∙ sym (append-nil (hdr_bytes hdr));
      counted = refl;
    },
    omega arith,
  )
  header_cases f w w2 (done (false, f') w') open' size new bare p v = tt
  header_cases f w w2 spins open' size new bare p v = absurd v
  header_cases f w w2 asserted open' size new bare p v = absurd v
  header_cases f w w2 overrun open' size new bare p v = absurd v

  buffer_cases :
      Documented os file patience
      → (fuel : ℕ) (fd : ℤ) (w w1 : W) → is_negative fd ≡ false
      → file fd w1 ≡ []
      → patience w1 ≤ patience w
      → patience w + 8192 + 44 < fuel
      → (m : Option (ℕ → ℕ) × W) → Leaves file patience fd w1 m.1
      → Starts os file patience w (header_write os fuel fd (init_result os fd 8192 m))
  unfolding header_write init_result out_free
  buffer_cases doc fuel fd w w1 open' bare p enough (none, w2) v = tt
  buffer_cases doc fuel fd w w1 open' bare p enough (some array, w2) v =
      let f : Bufwr = record { buf = array; cur = 0; max = 8192; fd = fd; corrupted = false } in
      header_cases f w w2 (bufwr_write os fuel f (hdr_bytes hdr) w2) open' refl refl (v.0 ∙ bare)
        (omega (arith, v.1))
        (bufwr_write-Accepts os file patience doc fuel f (hdr_bytes hdr) w2 (omega arith) open'
          (omega (arith, length-hdr_bytes hdr)) (omega (arith, v.1, length-hdr_bytes hdr)))

  open_cases :
      Documented os file patience
      → (fuel : ℕ) (w : W) → patience w + 8192 + 44 < fuel
      → (r : ℤ × W) → file r.0 r.1 ≡ []
      → patience r.1 ≤ patience w
      → Starts os file patience w (open_result os fuel r)
  unfolding open_result out_free bufwr__init buffer_size
  open_cases doc fuel w enough (fd, w1) bare p = elim (Bool-cases (is_negative fd)) [
    | inl e ↦ rw (e, open_result) tt
    | inr e ↦
        rw (e, open_result)
          (buffer_cases doc fuel fd w w1 e bare p enough (os.malloc 8192 w1)
            (doc.malloc_lem fd 8192 w1))
  ]

  -- On a system that behaves as documented and with fuel for the header and the interruptions,
  -- wav_create ends; where it gives a structure that is not freed, its file and its buffer hold the
  -- header of an empty WAV file and nothing else.
  pub wav_create-Starts :
      Documented os file patience
      → (fuel : ℕ) (name : List ℕ) (w : W) → patience w + 8192 + 44 < fuel
      → Starts os file patience w (wav_create os fuel name w)
  unfolding wav_create create_result
  wav_create-Starts doc fuel name w enough = cases (os.malloc 32 w) (λ fd. doc.malloc_lem fd 32 w)
    where
      cases :
          (m : Option (ℕ → ℕ) × W)
          → ((fd : ℤ) → Leaves file patience fd w m.1)
          → Starts os file patience w (create_result os fuel name m)
      cases (none, w') v = tt
      cases (some array, w') v =
          open_cases doc fuel w enough (os.open_file name w') (doc.open_lem name w').0
            (omega (arith, (doc.open_lem name w').1, (v (os.open_file name w').0).1))

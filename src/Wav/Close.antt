-- ===== src/Wav/Close.antt =====
-- _wav_close to its end.
use spu_kit.Bufwr.Bytes.{load_bytes}
use spu_kit.Base.Lists.{length}
use spu_kit.Base.Int.{ℤ, is_negative}
use spu_kit.Bufwr.Keeps.{flush-cases}
use spu_kit.Wav.Header.{sample_bytes, length-hdr_bytes, hdr_bytes, hdr, WaveHdr}
use spu_kit.Wav.Contents.{Holds}
use spu_kit.Io.Laws.{splice, Documented}
use spu_kit.Base.{
  ◌∙◌, if◌then◌else◌, ◌==◌, ◌%◌, ◌^◌, ◌<◌, ◌++◌, ◌*◌, ◌≡◌, ◌+◌, ℕ, u32, true, sym, refl, inr, inl,
  false, arith, ap, [], List, Bool-cases, Bool,
}
use mathlib.Core.List.{append-nil, ◌∷◌}
use spu_kit.Fd.{success, failure, fd_pwrite, Status}
use spu_kit.Fd.Whole.{TakesAll, Places, fd_pwrite-Places}
use spu_kit.Io.{Result, Os, done, spins, asserted, overrun, after, sub64}
use spu_kit.Bufwr.{
  sync_fd, close_fd, bufwr__fini, Bufwr, bufwr_flush, bufwr__close, succeeded, closed,
}
use spu_kit.Wav.{Wav, finish, rewrite_hdr, _wav_close, fixed_hdr}

splice-append : (bs cs ss : List ℕ) → length bs ≡ length cs → splice 0 bs (cs ++ ss) ≡ bs ++ ss
unfolding splice
splice-append [] [] [] e = refl
splice-append [] [] (s ∷ ss) e = refl
splice-append [] (c ∷ cs) ss e = absurd (omega arith)
splice-append (b ∷ bs) [] ss e = absurd (omega arith)
splice-append (b ∷ bs) (c ∷ cs) ss e = ap (λ t. b ∷ t) (splice-append bs cs ss (omega arith))

-- The header of a file with so many samples.
abbrev pub sized_hdr : ℕ → WaveHdr
sized_hdr n = record hdr { riff_size = 36 + 2 * n; data_size = 2 * n }

fixed_hdr-sized : (n : ℕ) → 36 + 2 * n < 2 ^ 32 → fixed_hdr n ≡ sized_hdr n
unfolding fixed_hdr
fixed_hdr-sized n h =
    let a : u32 (sub64 ((n * 2 + 44) % 2 ^ 64) 8) ≡ 36 + 2 * n = omega arith in
    let b : u32 (sub64 ((n * 2 + 44) % 2 ^ 64) 44) ≡ 2 * n = omega arith in rw (a, b) refl

module _ {W : Type 0} (os : Os W) (file : ℤ → W → List ℕ) (patience : W → ℕ) where
  -- A call has ended, and if it has succeeded, the file has this header and these samples.
  abbrev pub Closes : ℤ → List ℕ → Result W Bool → Type 0
  Closes fd samples (done true w') =
      file fd w' ≡ hdr_bytes (sized_hdr (length samples)) ++ sample_bytes samples
  Closes fd samples (done false w') = Unit {0}
  Closes fd samples _ = ⊥

  either_way :
      (fd : ℤ) (samples : List ℕ) (b : Bool) (w' : W)
      → file fd w' ≡ hdr_bytes (sized_hdr (length samples)) ++ sample_bytes samples
      → Closes fd samples (done b w')
  either_way fd samples true w' e = e
  either_way fd samples false w' e = tt

  module _ (doc : Documented os file patience) (fuel : ℕ) (wav : Wav) (samples : List ℕ)
      (counted : wav.nr_samples ≡ length samples) (short : 36 + 2 * length samples < 2 ^ 32)
      (open' : is_negative wav.buf.fd ≡ false)
      (whole : (w : W)
        → TakesAll
            (hdr_bytes (fixed_hdr wav.nr_samples))
            (os.pwrite wav.buf.fd (hdr_bytes (fixed_hdr wav.nr_samples)) 0 w)) where
    -- With an empty buffer only the close is left.
    close_cases :
        (f : Bufwr) (w : W)
        → f.cur ≡ 0
        → f.fd ≡ wav.buf.fd
        → file wav.buf.fd w ≡ hdr_bytes (sized_hdr (length samples)) ++ sample_bytes samples
        → Closes wav.buf.fd samples (after (bufwr__close os fuel f false w) (finish os))
    unfolding bufwr__close bufwr_flush close_fd sync_fd bufwr__fini finish
    close_cases f w empty same e =
        let flushed : (f.cur == 0) ≡ true = ground arith in
        let is_open : is_negative f.fd ≡ false = ap is_negative same ∙ open' in
        rw (flushed, is_open)
          (either_way wav.buf.fd samples (if closed os (os.close f.fd w).0 then true else false)
            (os.free (os.free (os.close f.fd w).1))
            (doc.free_lem wav.buf.fd (os.free (os.close f.fd w).1)
              ∙ doc.free_lem wav.buf.fd (os.close f.fd w).1
              ∙ rw same (doc.close_lem wav.buf.fd w)
              ∙ e))

    -- Behind a flush that has succeeded.
    abbrev rewritten : Bufwr → W → Result W Bool
    rewritten f w1 = after (rewrite_hdr os fuel (record wav { buf = f }) w1) (λ rewritten w2.
        if rewritten
        then after (bufwr__close os fuel f false w2) (finish os)
        else finish os false w2)

    placed_cases :
        (f : Bufwr) (w1 : W) (r : Result W Status)
        → f.cur ≡ 0
        → f.fd ≡ wav.buf.fd
        → file wav.buf.fd w1 ≡ hdr_bytes hdr ++ sample_bytes samples
        → Places os file patience wav.buf.fd 0 (hdr_bytes (fixed_hdr wav.nr_samples)) w1 r
        → Closes wav.buf.fd samples (
            after (after r (λ s w'. done (succeeded os s) w')) (λ rewritten w2.
              if rewritten
              then after (bufwr__close os fuel f false w2) (finish os)
              else finish os false w2))
    unfolding finish
    placed_cases f w1 (done success w2) empty same e v = close_cases f w2 empty same (
        v.0
        ∙ ap (splice 0 (hdr_bytes (fixed_hdr wav.nr_samples))) e
        ∙ splice-append (hdr_bytes (fixed_hdr wav.nr_samples)) (hdr_bytes hdr)
            (sample_bytes samples)
            (length-hdr_bytes (fixed_hdr wav.nr_samples) ∙ sym (length-hdr_bytes hdr))
        ∙ ap (λ t. hdr_bytes t ++ sample_bytes samples)
            (ap fixed_hdr counted ∙ fixed_hdr-sized (length samples) short))
    placed_cases f w1 (done (failure e') w2) empty same e v = tt
    placed_cases f w1 spins empty same e v = absurd v
    placed_cases f w1 asserted empty same e v = absurd v
    placed_cases f w1 overrun empty same e v = absurd v

    rewritten-Closes :
        (f : Bufwr) (w1 : W)
        → f.cur ≡ 0
        → f.fd ≡ wav.buf.fd
        → file wav.buf.fd w1 ≡ hdr_bytes hdr ++ sample_bytes samples
        → patience w1 < fuel
        → Closes wav.buf.fd samples (rewritten f w1)
    unfolding rewrite_hdr
    rewritten-Closes f w1 empty same e enough = rw same (
        placed_cases (record f { fd = wav.buf.fd }) w1
          (fd_pwrite os fuel wav.buf.fd 0 (hdr_bytes (fixed_hdr wav.nr_samples)) w1) empty refl e
          (fd_pwrite-Places os file patience wav.buf.fd 0 (hdr_bytes (fixed_hdr wav.nr_samples)) doc
            whole (omega (arith, length-hdr_bytes (fixed_hdr wav.nr_samples)))
            (omega (arith, length-hdr_bytes (fixed_hdr wav.nr_samples))) fuel w1 enough))

  -- On a system that behaves as documented, with fuel for the buffer and the interruptions and
  -- where pwrite(2) takes the header in one piece or fails, _wav_close ends; where it succeeds, the
  -- file consists of a header, whose sizes are those of the samples, and of all the samples written
  -- since wav_create, in order. The sizes are right if they fit into 32 bits.
  pub wav_close-Closes :
      Documented os file patience
      → (fuel : ℕ) (wav : Wav) (samples : List ℕ) (w : W) → Holds os file patience wav samples w
      → 36 + 2 * length samples < 2 ^ 32
      → ((w : W)
          → TakesAll
              (hdr_bytes (fixed_hdr wav.nr_samples))
              (os.pwrite wav.buf.fd (hdr_bytes (fixed_hdr wav.nr_samples)) 0 w))
      → patience w + 8192 < fuel
      → Closes wav.buf.fd samples (_wav_close os fuel wav w)
  unfolding _wav_close bufwr_flush finish load_bytes
  wav_close-Closes doc fuel wav samples w h short whole enough =
      elim (Bool-cases (wav.buf.cur == 0)) [
        | inl empty ↦
            let none : wav.buf.cur ≡ 0 = ground arith in
            rw (empty, _wav_close)
              (rewritten-Closes doc fuel wav samples h.counted short h.is_open whole wav.buf w none
                refl
                (sym (append-nil (file wav.buf.fd w))
                  ∙ ap (λ t. file wav.buf.fd w ++ load_bytes wav.buf.buf 0 t) (sym none)
                  ∙ h.content)
                (omega arith))
        | inr some' ↦
            rw (some', _wav_close)
              (flush-cases os file patience doc
                (λ r. Closes wav.buf.fd samples (
                  after r (λ (flushed, f) w1.
                    if flushed
                    then rewritten doc fuel wav samples h.counted short h.is_open whole f w1
                    else finish os false w1)))
                fuel wav.buf w h.is_open (omega (arith, h.sound)) (omega (arith, h.sound, h.size))
                (λ w' e p.
                  rewritten-Closes doc fuel wav samples h.counted short h.is_open whole
                    (record wav.buf { cur = 0 }) w' refl refl (e ∙ h.content) (omega arith))
                (λ w' k l e p. tt))
      ]

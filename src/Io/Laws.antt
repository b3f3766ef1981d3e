-- ===== src/Io/Laws.antt =====
-- What write(2), pwrite(2), poll(2), fsync(2), close(2), malloc(3) and free(3) are documented to do, as
-- hypotheses on an operating system.
use spu_kit.Base.{ℕ, ◌≤◌, ◌<◌, ◌≡◌, true, List, [], ◌∷◌, ◌++◌}
use Prim.Native.Nat.{zero, suc}
use spu_kit.Base.Int.{ℤ}
use spu_kit.Base.Lists.{length, take}
use spu_kit.Io.{Errno, Ret, ok, error, Os, is_eintr, is_eagain}

-- `bs` written over `xs` from an offset on; a gap is filled with zeros.
unfoldable pub splice : ℕ → List ℕ → List ℕ → List ℕ
splice zero [] xs = xs
splice zero (b ∷ bs) [] = b ∷ bs
splice zero (b ∷ bs) (x ∷ xs) = b ∷ splice zero bs xs
splice (suc off) bs [] = 0 ∷ splice off bs []
splice (suc off) bs (x ∷ xs) = x ∷ splice off bs xs

-- `file fd` is what the file has got, and `patience` a bound on the interruptions that are still to
-- come: a call is not interrupted for ever, and a poll(2) for POLLOUT is followed by a write(2) that
-- does not find the file full each time.
module _ {W : Type 0} (file : ℤ → W → List ℕ) (patience : W → ℕ) where
  abbrev pub Fails : ℤ → W → Errno → W → Type 0
  Fails fd w e w' = (file fd w' ≡ file fd w) × (patience w' ≤ patience w)

  abbrev pub Leaves : ℤ → W → W → Type 0
  Leaves fd w w' = (file fd w' ≡ file fd w) × (patience w' ≤ patience w)

  -- EINTR and EAGAIN cost patience.
  abbrev pub Interrupts : ℤ → W → Errno × W → Type 0
  Interrupts fd w (e, w') =
      Fails fd w e w'
      × (is_eintr e ≡ true → patience w' < patience w)
      × (is_eagain e ≡ true → patience w' < patience w)

  -- At most the bytes given are appended.
  abbrev pub Writes : ℤ → List ℕ → W → Ret × W → Type 0
  Writes fd bs w (ok n, w') =
      (n ≤ length bs) × (file fd w' ≡ file fd w ++ take n bs) × (patience w' ≤ patience w)
  Writes fd bs w (error e, w') = Interrupts fd w (e, w')

  -- At most the bytes given replace those at the offset.
  abbrev pub Pwrites : ℤ → List ℕ → ℕ → W → Ret × W → Type 0
  Pwrites fd bs off w (ok n, w') =
      (n ≤ length bs)
      × (file fd w' ≡ splice off (take n bs) (file fd w))
      × (patience w' ≤ patience w)
  Pwrites fd bs off w (error e, w') = Interrupts fd w (e, w')

  abbrev pub Polls : ℤ → W → Ret × W → Type 0
  Polls fd w (ok n, w') = (file fd w' ≡ file fd w) × (patience w' ≤ patience w)
  Polls fd w (error e, w') = Fails fd w e w' × (is_eintr e ≡ true → patience w' < patience w)

pub record Documented {W : Type 0} (os : Os W) (file : ℤ → W → List ℕ) (patience : W → ℕ)
    : Type 0 where
  pub write_lem : (fd : ℤ) (bs : List ℕ) (w : W) → Writes file patience fd bs w (os.write fd bs w)
  pub pwrite_lem :
      (fd : ℤ) (bs : List ℕ) (off : ℕ) (w : W)
      → Pwrites file patience fd bs off w (os.pwrite fd bs off w)
  pub poll_lem : (fd : ℤ) (w : W) → Polls file patience fd w (os.poll fd w)
  -- Every other call leaves the files as they are, and takes no patience.
  pub fsync_lem : (fd : ℤ) (w : W) → file fd (os.fsync fd w).1 ≡ file fd w
  pub close_lem : (fd : ℤ) (w : W) → file fd (os.close fd w).1 ≡ file fd w
  pub malloc_lem : (fd : ℤ) (n : ℕ) (w : W) → Leaves file patience fd w (os.malloc n w).1
  pub free_lem : (fd : ℤ) (w : W) → file fd (os.free w) ≡ file fd w
  -- A file is empty when it is opened for writing.
  pub open_lem :
      (name : List ℕ) (w : W)
      → (file (os.open_file name w).0 (os.open_file name w).1 ≡ [])
        × (patience (os.open_file name w).1 ≤ patience w)

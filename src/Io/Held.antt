-- ===== src/Io/Held.antt =====
-- The memory blocks and the open files that the program holds.
use spu_kit.Base.{false, ℕ, ◌+◌, ◌-◌, ◌≡◌, ◌∙◌, if◌then◌else◌, Option, none, some, List}
use spu_kit.Base.Int.{ℤ, is_negative}
use spu_kit.Io.{Os, Result, done, spins, asserted, overrun, after}

-- How many files a descriptor stands for.
abbrev pub opened : ℤ → ℕ
opened fd = if is_negative fd then 0 else 1

module _ {W : Type 0} (blocks files : W → ℕ) where
  -- So many more blocks and files than before, or so many fewer; the other two are 0.
  abbrev pub Holding : W → W → ℕ → ℕ → Type 0
  Holding w w' b f = (blocks w' ≡ blocks w + b) × (files w' ≡ files w + f)

  abbrev pub Without : W → W → ℕ → ℕ → Type 0
  Without w w' b f = (blocks w' ≡ blocks w - b) × (files w' ≡ files w - f)

  abbrev pub Same : W → W → Type 0
  Same w w' = (blocks w' ≡ blocks w) × (files w' ≡ files w)

  abbrev pub Allocates : {A : Type 0} → W → Option A × W → Type 0
  Allocates w (none, w') = Same w w'
  Allocates w (some a, w') = Holding w w' 1 0

  abbrev pub Opens : W → ℤ × W → Type 0
  Opens w (fd, w') = Holding w w' 0 (opened fd)

  -- A call that returns holds what it held.
  abbrev pub Keeps : {A : Type 0} → W → Result W A → Type 0
  Keeps w (done a w') = Same w w'
  Keeps w _ = Unit {0}

  pub Keeps-from : {A : Type 0} (w w' : W) (r : Result W A) → Same w w' → Keeps w' r → Keeps w r
  Keeps-from w w' (done a w'') (b, f) (c, g) = (c ∙ b, g ∙ f)
  Keeps-from w w' spins s k = tt
  Keeps-from w w' asserted s k = tt
  Keeps-from w w' overrun s k = tt

  pub Keeps-after :
      {A B : Type 0} (w : W) (r : Result W A) (f : A → W → Result W B)
      → Keeps w r
      → ((a : A) (w' : W) → Keeps w' (f a w'))
      → Keeps w (after r f)
  Keeps-after w (done a w') f k h = Keeps-from w w' (f a w') k (h a w')
  Keeps-after w spins f k h = tt
  Keeps-after w asserted f k h = tt
  Keeps-after w overrun f k h = tt

-- What the calls are documented to do with them.
pub record Counting {W : Type 0} (os : Os W) (blocks files : W → ℕ) : Type 0 where
  pub write_held : (fd : ℤ) (bs : List ℕ) (w : W) → Same blocks files w (os.write fd bs w).1
  pub pwrite_held :
      (fd : ℤ) (bs : List ℕ) (off : ℕ) (w : W) → Same blocks files w (os.pwrite fd bs off w).1
  pub poll_held : (fd : ℤ) (w : W) → Same blocks files w (os.poll fd w).1
  pub fsync_held : (fd : ℤ) (w : W) → Same blocks files w (os.fsync fd w).1
  -- A close(2) that fails has closed the file all the same.
  pub close_held :
      (fd : ℤ) (w : W) → is_negative fd ≡ false → Without blocks files w (os.close fd w).1 0 1
  pub malloc_held : (n : ℕ) (w : W) → Allocates blocks files w (os.malloc n w)
  pub free_held : (w : W) → Without blocks files w (os.free w) 1 0
  pub open_held : (name : List ℕ) (w : W) → Opens blocks files w (os.open_file name w)

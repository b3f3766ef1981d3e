-- ===== src/Io.antt =====
-- What the output files fd.c, bufwr.c and wav.c use of the operating system and the C library, as
-- a parameter, and the results of a call.
pub mod Laws
pub mod Held
use spu_kit.Base.{ℕ, ◌+◌, ◌^◌, ◌-◌, ◌%◌, Bool, true, false, Option, List}
use spu_kit.Base.Int.{ℤ}

-- The values of `errno` that the code tests or sets.
pub data Errno : Type 0 where
  eintr eagain econnreset erofs einval : Errno
  other : ℕ → Errno

-- What a system call returns: a count, or -1 with `errno` set.
pub data Ret : Type 0 where
  ok : ℕ → Ret
  error : Errno → Ret

-- A call returns, or a loop in it has not ended within its fuel, or an `xassert` in it fails, or it
-- copies to an address outside of its array.
pub data Result (W A : Type 0) : Type 0 where
  done : A → W → Result W A
  spins asserted overrun : Result W A

-- The operating system and the allocator, with their state `W`. The bytes of `write` and `pwrite`
-- are the ones that the pointer and the length argument name.
pub record Os (W : Type 0) : Type 0 where
  pub write : ℤ → List ℕ → W → Ret × W
  pub pwrite : ℤ → List ℕ → ℕ → W → Ret × W
  pub poll : ℤ → W → Ret × W
  pub fsync : ℤ → W → Ret × W
  pub close : ℤ → W → Ret × W
  -- the file of a name, made or emptied, for writing
  pub open_file : List ℕ → W → ℤ × W
  -- an array of so many bytes with what it holds at first, or NULL
  pub malloc : ℕ → W → Option (ℕ → ℕ) × W
  pub free : W → W

-- `size_t` and SSIZE_MAX of a 64-bit system
abbrev pub ssize_max : ℕ
ssize_max = 2 ^ 63 - 1

-- the difference of two `size_t`, and of two `uint32_t`
abbrev pub sub64 : ℕ → ℕ → ℕ
sub64 a b = (a + 2 ^ 64 - b) % 2 ^ 64

abbrev pub sub32 : ℕ → ℕ → ℕ
sub32 a b = (a + 2 ^ 32 - b) % 2 ^ 32

module _ {W : Type 0} where
  -- What follows a call.
  abbrev pub after : {A B : Type 0} → Result W A → (A → W → Result W B) → Result W B
  after (done a w) f = f a w
  after spins f = spins
  after asserted f = asserted
  after overrun f = overrun

-- `errno == EINTR`
abbrev pub is_eintr : Errno → Bool
is_eintr eintr = true
is_eintr _ = false

-- `errno == EAGAIN`
abbrev pub is_eagain : Errno → Bool
is_eagain eagain = true
is_eagain _ = false

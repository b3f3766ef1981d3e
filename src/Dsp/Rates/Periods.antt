-- ===== src/Dsp/Rates/Periods.antt =====
-- When ctr_read says that an event falls on a sample.
use spu_kit.Base.{
  true, ℕ, suc, ◌+◌, ◌-◌, ◌*◌, ◌/◌, ◌%◌, ◌^◌, ◌<◌, ◌≡◌, ◌==◌, refl, arith, bit_and, if◌then◌else◌,
  false, Bool, [], ◌∷◌, table, Each, each-lt,
}
use Prim.Native.Nat.{zero}
use spu_kit.Base.Bits.{and_mask}
use spu_kit.Dsp.Counters.{ctr_init, ctr_run, ctr_runs, count_down, ctr_runs-Ran}
use spu_kit.Dsp.Rates.{ctr_number, ctr_read}

-- The samples from an event of a rate to the next.
abbrev pub period : ℕ → ℕ
period = table (
    0 ∷ 2048 ∷ 1536 ∷ 1280 ∷ 1024 ∷ 768 ∷ 640 ∷ 512 ∷ 384 ∷ 320 ∷ 256 ∷ 192 ∷ 160 ∷ 128 ∷ 96 ∷ 80
    ∷ 64 ∷ 48 ∷ 40 ∷ 32 ∷ 24 ∷ 20 ∷ 16 ∷ 12 ∷ 10 ∷ 8 ∷ 6 ∷ 5 ∷ 4 ∷ 3 ∷ 2 ∷ 1 ∷ [])

-- So many samples more than a multiple of the period have passed at the start, by the counter.
abbrev pub phase : ℕ → ℕ
phase = table (
    0 ∷ 0 ∷ 496 ∷ 747 ∷ 0 ∷ 496 ∷ 747 ∷ 0 ∷ 496 ∷ 747 ∷ 0 ∷ 496 ∷ 747 ∷ 0 ∷ 496 ∷ 747 ∷ 0 ∷ 496
    ∷ 747 ∷ 0 ∷ 496 ∷ 747 ∷ 0 ∷ 496 ∷ 747 ∷ 0 ∷ 496 ∷ 747 ∷ 0 ∷ 496 ∷ 0 ∷ 0 ∷ [])

-- The first of the internal counters never changes.
internal_zero : (n : ℕ) → (ctr_runs n).internal 0 ≡ 1
unfolding ctr_runs ctr_init ctr_run count_down
internal_zero zero = refl
internal_zero (suc n) = internal_zero n

-- `ctr_read` of a counter by its mask of `k` bits and the test of the internal counter.
abbrev fires : ℕ → ℕ → Bool → Bool
fires out k due = if out % 2 ^ k == 0 then due else false

-- For counter 0 and a mask of `k` bits; and so for the other two.
abbrev AtZeroth : ℕ → Type 0
AtZeroth k = (n : ℕ) → fires (n % 2 ^ 32) k true ≡ ((n + 0) % 2 ^ k == 0)

zeroth_all : Each AtZeroth 12
zeroth_all = (
  λ n. ground arith,
  (
    λ n. ground arith,
    (
      λ n. ground arith,
      (
        λ n. ground arith,
        (
          λ n. ground arith,
          (
            λ n. ground arith,
            (
              λ n. ground arith,
              (
                λ n. ground arith,
                (
                  λ n. ground arith,
                  (λ n. ground arith, (λ n. ground arith, (λ n. ground arith, tt))),
                ),
              ),
            ),
          ),
        ),
      ),
    ),
  ),
)

abbrev AtFirst : ℕ → Type 0
AtFirst k =
    (n : ℕ)
    → fires ((2 ^ 32 - 347 + (n + 1) / 3) % 2 ^ 32) k (3 - (n + 1) % 3 == 3)
      ≡ ((n + 496) % (3 * 2 ^ k) == 0)

first_all : Each AtFirst 10
first_all = (
  λ n. ground arith,
  (
    λ n. ground arith,
    (
      λ n. ground arith,
      (
        λ n. ground arith,
        (
          λ n. ground arith,
          (
            λ n. ground arith,
            (λ n. ground arith, (λ n. ground arith, (λ n. ground arith, (λ n. ground arith, tt)))),
          ),
        ),
      ),
    ),
  ),
)

abbrev AtSecond : ℕ → Type 0
AtSecond k =
    (n : ℕ)
    → fires ((2 ^ 32 - 107 + (n + 2) / 5) % 2 ^ 32) k (5 - (n + 2) % 5 == 5)
      ≡ ((n + 747) % (5 * 2 ^ k) == 0)

second_all : Each AtSecond 9
second_all = (
  λ n. ground arith,
  (
    λ n. ground arith,
    (
      λ n. ground arith,
      (
        λ n. ground arith,
        (
          λ n. ground arith,
          (λ n. ground arith, (λ n. ground arith, (λ n. ground arith, (λ n. ground arith, tt)))),
        ),
      ),
    ),
  ),
)

by_zeroth :
    (k n : ℕ)
    → k < 12
    → (if bit_and ((ctr_runs n).out 0) (2 ^ k - 1) == 0
        then (ctr_runs n).internal 0 == 1
        else false)
      ≡ ((n + 0) % 2 ^ k == 0)
by_zeroth k n h =
    rw (and_mask k ((ctr_runs n).out 0), (ctr_runs-Ran n).0, internal_zero n)
      (each-lt AtZeroth 12 zeroth_all k h n)

by_first :
    (k n : ℕ)
    → k < 10
    → (if bit_and ((ctr_runs n).out 1) (2 ^ k - 1) == 0
        then (ctr_runs n).internal 1 == 3
        else false)
      ≡ ((n + 496) % (3 * 2 ^ k) == 0)
by_first k n h =
    rw (and_mask k ((ctr_runs n).out 1), (ctr_runs-Ran n).2, (ctr_runs-Ran n).1)
      (each-lt AtFirst 10 first_all k h n)

by_second :
    (k n : ℕ)
    → k < 9
    → (if bit_and ((ctr_runs n).out 2) (2 ^ k - 1) == 0
        then (ctr_runs n).internal 2 == 5
        else false)
      ≡ ((n + 747) % (5 * 2 ^ k) == 0)
by_second k n h =
    rw (and_mask k ((ctr_runs n).out 2), (ctr_runs-Ran n).4, (ctr_runs-Ran n).3)
      (each-lt AtSecond 9 second_all k h n)

abbrev Periodic : ℕ → Type 0
Periodic r = (n : ℕ) → ctr_read (suc r) (ctr_runs n) ≡ ((n + phase (suc r)) % period (suc r) == 0)

all_rates : Each Periodic 31
unfolding ctr_read ctr_number
all_rates = (
  λ n. by_zeroth 0 n (omega arith),
  (
    λ n. by_zeroth 1 n (omega arith),
    (
      λ n. by_first 0 n (omega arith),
      (
        λ n. by_zeroth 2 n (omega arith),
        (
          λ n. by_second 0 n (omega arith),
          (
            λ n. by_first 1 n (omega arith),
            (
              λ n. by_zeroth 3 n (omega arith),
              (
                λ n. by_second 1 n (omega arith),
                (
                  λ n. by_first 2 n (omega arith),
                  (
                    λ n. by_zeroth 4 n (omega arith),
                    (
                      λ n. by_second 2 n (omega arith),
                      (
                        λ n. by_first 3 n (omega arith),
                        (
                          λ n. by_zeroth 5 n (omega arith),
                          (
                            λ n. by_second 3 n (omega arith),
                            (
                              λ n. by_first 4 n (omega arith),
                              (
                                λ n. by_zeroth 6 n (omega arith),
                                (
                                  λ n. by_second 4 n (omega arith),
                                  (
                                    λ n. by_first 5 n (omega arith),
                                    (
                                      λ n. by_zeroth 7 n (omega arith),
                                      (
                                        λ n. by_second 5 n (omega arith),
                                        (
                                          λ n. by_first 6 n (omega arith),
                                          (
                                            λ n. by_zeroth 8 n (omega arith),
                                            (
                                              λ n. by_second 6 n (omega arith),
                                              (
                                                λ n. by_first 7 n (omega arith),
                                                (
                                                  λ n. by_zeroth 9 n (omega arith),
                                                  (
                                                    λ n. by_second 7 n (omega arith),
                                                    (
                                                      λ n. by_first 8 n (omega arith),
                                                      (
                                                        λ n. by_zeroth 10 n (omega arith),
                                                        (
                                                          λ n. by_second 8 n (omega arith),
                                                          (
                                                            λ n. by_first 9 n (omega arith),
                                                            (λ n. by_zeroth 11 n (omega arith), tt),
                                                          ),
                                                        ),
                                                      ),
                                                    ),
                                                  ),
                                                ),
                                              ),
                                            ),
                                          ),
                                        ),
                                      ),
                                    ),
                                  ),
                                ),
                              ),
                            ),
                          ),
                        ),
                      ),
                    ),
                  ),
                ),
              ),
            ),
          ),
        ),
      ),
    ),
  ),
)

-- After any number of samples from the start, ctr_read answers for each of the 31 rates exactly with
-- the samples that lie a multiple of the period of the rate behind its first: from 2048 samples for
-- rate 1 down to one sample for rate 31.
pub ctr_read-periodic :
    (rate n : ℕ)
    → 0 < rate
    → rate < 32
    → ctr_read rate (ctr_runs n) ≡ ((n + phase rate) % period rate == 0)
ctr_read-periodic zero n l h = absurd (omega arith)
ctr_read-periodic (suc r) n l h = each-lt Periodic 31 all_rates r (omega arith) n

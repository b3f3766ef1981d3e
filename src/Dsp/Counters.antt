-- ===== src/Dsp/Counters.antt =====
-- The rate counters of dsp.c: `ctr_init` and `ctr_run`.
use spu_kit.Base.{
  ◌==◌, ◌/◌, if◌then◌else◌, ◌^◌, ◌-◌, ◌%◌, ◌≡◌, ◌∷◌, ◌+◌, ℕ, update, u8, u32, table, refl, arith,
  [],
}
use Prim.Native.Nat.{zero, suc}

-- The static variables `ctr_internal` and `ctr_out`.
pub record RateCounters : Type 0 where
  pub internal : ℕ → ℕ
  pub out : ℕ → ℕ

-- The initial values -347 and -107 are of an `unsigned int`.
unfoldable pub ctr_init : RateCounters
ctr_init = record {
  internal = table (1 ∷ 2 ∷ 3 ∷ []);
  out = table (0 ∷ (2 ^ 32 - 347) ∷ (2 ^ 32 - 107) ∷ []);
}

-- One `if (!--ctr_internal[i])` of `ctr_run`, where the counter starts again from `rate`.
unfoldable pub count_down : ℕ → ℕ → RateCounters → RateCounters
count_down i rate c =
    let left = u8 (c.internal i + 255) in
    record {
      internal = update c.internal i (if left == 0 then rate else left);
      out = update c.out i (if left == 0 then u32 (c.out i + 1) else c.out i);
    }

unfoldable pub ctr_run : RateCounters → RateCounters
unfolding count_down
ctr_run c = count_down 2 5 (count_down 1 3 (record c { out = update c.out 0 (u32 (c.out 0 + 1)) }))

-- `n` calls of `ctr_run` from the start.
unfoldable pub ctr_runs : ℕ → RateCounters
ctr_runs zero = ctr_init
ctr_runs (suc n) = ctr_run (ctr_runs n)

-- The counters after `n` calls, as quotients and remainders of `n`.
abbrev pub Ran : ℕ → RateCounters → Type 0
Ran n c =
    (c.out 0 ≡ n % 2 ^ 32)
    × (c.internal 1 ≡ 3 - (n + 1) % 3)
    × (c.out 1 ≡ (2 ^ 32 - 347 + (n + 1) / 3) % 2 ^ 32)
    × (c.internal 2 ≡ 5 - (n + 2) % 5)
    × (c.out 2 ≡ (2 ^ 32 - 107 + (n + 2) / 5) % 2 ^ 32)

by_three :
    (n v o : ℕ)
    → v ≡ 3 - (n + 1) % 3
    → o ≡ (2 ^ 32 - 347 + (n + 1) / 3) % 2 ^ 32
    → ((if u8 (v + 255) == 0 then 3 else u8 (v + 255)) ≡ 3 - (n + 1 + 1) % 3)
      × ((if u8 (v + 255) == 0 then u32 (o + 1) else o) ≡ (2 ^ 32 - 347 + (n + 1 + 1) / 3) % 2 ^ 32)
by_three n v o e f = ground arith

by_five :
    (n v o : ℕ)
    → v ≡ 5 - (n + 2) % 5
    → o ≡ (2 ^ 32 - 107 + (n + 2) / 5) % 2 ^ 32
    → ((if u8 (v + 255) == 0 then 5 else u8 (v + 255)) ≡ 5 - (n + 1 + 2) % 5)
      × ((if u8 (v + 255) == 0 then u32 (o + 1) else o) ≡ (2 ^ 32 - 107 + (n + 1 + 2) / 5) % 2 ^ 32)
by_five n v o e f = ground arith

run-Ran : (n : ℕ) (c : RateCounters) → Ran n c → Ran (n + 1) (ctr_run c)
unfolding ctr_run count_down
run-Ran n c (zeroth, i1, o1, i2, o2) =
    let (j1, p1) = by_three n (c.internal 1) (c.out 1) i1 o1 in
    let (j2, p2) = by_five n (c.internal 2) (c.out 2) i2 o2 in
    (omega (arith, zeroth), j1, p1, j2, p2)

-- After any number of calls of `ctr_run`, counter 0 is that number, counter 1 has stepped at every
-- third call from -347, the first time at the second, and counter 2 at every fifth call from -107,
-- the first time at the third, all modulo 2 ^ 32; and the internal counters show how many calls are
-- left to the next step.
pub ctr_runs-Ran : (n : ℕ) → Ran n (ctr_runs n)
unfolding ctr_runs ctr_init
ctr_runs-Ran zero = (refl, refl, refl, refl, refl)
ctr_runs-Ran (suc n) =
    let e : suc n ≡ n + 1 = omega arith in rw e (run-Ran n (ctr_runs n) (ctr_runs-Ran n))

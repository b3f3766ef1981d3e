-- ===== src/Apu/Ticks.antt =====
-- The timers of apu.c against the quotient and the remainder of their ticks by the target.
use spu_kit.Base.Bits.{and_mask}
use native.Mathlib.Nat.{mod-lt, div-eq_of_lt-le, div-add-mod'}
use spu_kit.Base.{
  ==_refl, if◌then◌else◌, Bool, ◌∙◌, u8, u16, sym, leb, inr, inl, false, bit_and, Bool-cases, ◌*◌,
  arith, ◌+◌, ◌≤◌, ◌/◌, ◌≡◌, ◌<◌, ◌%◌, ℕ, true,
}
use spu_kit.Apu.{tout, do_timer_tick, advance}
use spu_kit.Machine.{Apu}
use Prim.Native.Nat.{zero, suc}

-- `n` calls of `do_timer_tick`.
unfoldable pub ticks : ℕ → ℕ → Apu → Apu
ticks zero i p = p
ticks (suc n) i p = do_timer_tick i (ticks n i p)

-- Timer `i` has counted `count` ticks since its output register was 0 modulo 16.
pub record Counts (i target count : ℕ) (p : Apu) : Type 0 where
  pub running : (p.timers i).enabled ≡ true
  pub has_target : (p.timers i).target ≡ target
  pub remainder : (p.timers i).cycles ≡ count % target
  pub output : p.sram (tout i) ≡ count / target % 16

-- The quotient and the remainder of the next number.
suc-mul_lem : (q d : ℕ) → (q + 1) * d ≡ q * d + d
suc-mul_lem q d = ground arith

quotient_rest : (m d q r : ℕ) → m ≡ q * d + r → r < d → (m / d ≡ q) × (m % d ≡ r)
quotient_rest m d q r e h =
    let more : (q + 1) * d ≡ q * d + d = suc-mul_lem q d in
    let div : m / d ≡ q = div-eq_of_lt-le {k = q} d {m = m} (omega arith) (omega arith) in
    let whole = rw div at (div-add-mod' m d) in (div, omega arith)

next_small : (n d : ℕ) → suc (n % d) < d → (suc n / d ≡ n / d) × (suc n % d ≡ suc (n % d))
next_small n d h =
    let whole = div-add-mod' n d in quotient_rest (suc n) d (n / d) (suc (n % d)) (omega arith) h

next_full : (n d : ℕ) → 0 < d → suc (n % d) ≡ d → (suc n / d ≡ n / d + 1) × (suc n % d ≡ 0)
next_full n d pos h =
    let whole = div-add-mod' n d in
    let more : (n / d + 1) * d ≡ n / d * d + d = suc-mul_lem (n / d) d in
    quotient_rest (suc n) d (n / d + 1) 0 (omega arith) pos

output_next : (out q : ℕ) → out ≡ q % 16 → bit_and (u8 (out + 1)) 0xf ≡ (q + 1) % 16
output_next out q h = and_mask 4 (u8 (out + 1)) ∙ omega arith

guarded :
    {i target count : ℕ} (b : Bool) (p q : Apu)
    → b ≡ true
    → Counts i target count p
    → Counts i target count (if b then p else q)
guarded true p q e h = h
guarded false p q e h = cc

-- One tick of a timer that has counted `count` ticks, with and without the end of a period.
module _ (i target count : ℕ) (p : Apu) (pos : 0 < target) (h : Counts i target count p) where
  ends_period :
      suc (count % target) ≡ target
      → leb (p.timers i).target (u16 ((p.timers i).cycles + 1)) ≡ true
      → Counts i target (suc count) (advance i p)
  unfolding advance
  ends_period full e =
      let (quotient, rest) = next_full count target pos full in
      rw e (record {
        running = rw (==_refl i) h.running;
        has_target = rw (==_refl i) h.has_target;
        remainder = rw (==_refl i) (sym rest);
        output =
            rw (==_refl (tout i), quotient)
              (output_next (p.sram (tout i)) (count / target) h.output);
      })

  goes_on :
      suc (count % target) < target
      → u16 ((p.timers i).cycles + 1) ≡ suc (count % target)
      → leb (p.timers i).target (u16 ((p.timers i).cycles + 1)) ≡ false
      → Counts i target (suc count) (advance i p)
  unfolding advance
  goes_on small value e =
      let (quotient, rest) = next_small count target small in
      rw e (record {
        running = rw (==_refl i) h.running;
        has_target = rw (==_refl i) h.has_target;
        remainder = rw (==_refl i) (value ∙ sym rest);
        output = rw quotient h.output;
      })

  tick-Counts : target ≤ 256 → Counts i target (suc count) (do_timer_tick i p)
  unfolding do_timer_tick
  tick-Counts le =
      let below = mod-lt count pos in
      let value : u16 ((p.timers i).cycles + 1) ≡ suc (count % target) =
        omega (arith, h.remainder) in
      guarded (p.timers i).enabled (advance i p) p h.running
        (elim (Bool-cases (leb (p.timers i).target (u16 ((p.timers i).cycles + 1)))) [
          | inl e ↦ ends_period (ground (arith, h.has_target)) e
          | inr e ↦ goes_on (ground (arith, h.has_target)) value e
        ])

-- From a timer that runs with a target of 1 to 256, has counted `start` ticks, and shows so in its
-- cycles and its output, `n` calls of `do_timer_tick` count `n` more: the output register is the
-- number of whole periods modulo 16, and the cycles are the rest.
pub ticks-Counts :
    (n i target start : ℕ) (p : Apu)
    → 0 < target
    → target ≤ 256
    → Counts i target start p
    → Counts i target (n + start) (ticks n i p)
unfolding ticks
ticks-Counts zero i target start p pos le h = let e : 0 + start ≡ start = omega arith in rw e h
ticks-Counts (suc n) i target start p pos le h =
    let e : suc n + start ≡ suc (n + start) = omega arith in
    rw e (
      tick-Counts i target (n + start) (ticks n i p) pos (ticks-Counts n i target start p pos le h)
        le)

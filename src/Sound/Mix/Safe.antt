-- ===== src/Sound/Mix/Safe.antt =====
-- A sample of the DSP from a sane state.
use spu_kit.Sound.Samples.{silence, sample_blend}
use spu_kit.Sound.Echo.{echo_filter, echo_begin, echo_advance}
use spu_kit.Dsp.Counters.{ctr_run}
use spu_kit.Sound.Voice.{voice_run}
use spu_kit.Sound.Mix.{poll_keys, next_sample, run_voices, mix}
use spu_kit.Sound.Voice.Sane.{voice_run-Gives, Steps}
use spu_kit.Sound.{VState, Sound, Sample}
use spu_kit.Sound.Echo.Ring.{echo_advance-InRing, InRing}
use spu_kit.Sound.Brr.Safe.{IsSane, Gives-then, Gives}
use spu_kit.Base.{
  ◌∙◌, ◌<<<◌, test, some, not, none, ap, Option, ◌==◌, ◌+◌, if◌then◌else◌, ◌<◌, ◌≤◌, ◌≡◌, ℕ, update,
  true, sym, refl, false, arith, Bool,
}
use Prim.Native.Nat.{zero, suc}
use mathlib.Core.Path.{subst}

-- Every voice is sane.
abbrev pub AllSane : Sound → Type 0
AllSane s = (j : ℕ) → IsSane (s.vstate j)

-- Only voices and registers differ, and the voices are sane.
abbrev Voiced : Sound → Sample × Sample × Sound → Type 0
Voiced s (main_out, echo_out, s') =
    AllSane s' × (s' ≡ record s { vstate = s'.vstate; regs = s'.regs })

stepped-AllSane :
    (i : ℕ) (s s' : Sound) (st : VState)
    → AllSane s
    → IsSane st
    → s' ≡ record s { vstate = update s.vstate i st; regs = s'.regs }
    → AllSane s'
stepped-AllSane i s s' st all v e j =
    subst (λ (t : Sound). IsSane (t.vstate j)) (sym e) (pick (i == j))
  where
    pick : (b : Bool) → IsSane (if b then st else s.vstate j)
    pick true = v
    pick false = all j

Gives-weaken :
    {A : Type 0} (P Q : A → Type 0) (m : Option A) → Gives P m → ((a : A) → P a → Q a) → Gives Q m
Gives-weaken P Q none g h = g
Gives-weaken P Q (some a) g h = h a g

Voiced-from :
    (i : ℕ) (s s' : Sound) (st : VState) (r : Sample × Sample × Sound)
    → s' ≡ record s { vstate = update s.vstate i st; regs = s'.regs }
    → Voiced s' r
    → Voiced s r
Voiced-from i s s' st (main_out, echo_out, s'') e (all, f) =
    (all, f ∙ ap (λ (t : Sound). record t { vstate = s''.vstate; regs = s''.regs }) e)

voices-Gives :
    (n i : ℕ) (main_out echo_out : Sample) (s : Sound)
    → AllSane s
    → ((j : ℕ) → i ≤ j → j < i + n → (s.vstate j).brr_addr + 9 < 0x10000)
    → Gives (Voiced s) (run_voices n i main_out echo_out s)
unfolding run_voices
voices-Gives zero i main_out echo_out s all inside = (all, refl)
voices-Gives (suc n) i main_out echo_out s all inside =
    Gives-then (Steps i s) (Voiced s) (voice_run i s) _
      (voice_run-Gives i s (all i) (inside i (omega arith) (omega arith)))
      (λ (vsample, s') (st, v, e).
        Gives-weaken (Voiced s') (Voiced s) _
          (voices-Gives n (i + 1) (sample_blend main_out vsample)
            (if test s'.eon (1 <<< i) then sample_blend echo_out vsample else echo_out) s'
            (stepped-AllSane i s s' st all v e)
            (λ j l m.
              let other : (i == j) ≡ false = ground arith in
              subst (λ (t : Sound). (t.vstate j).brr_addr + 9 < 0x10000) (sym e)
                (rw other (inside j (omega arith) (omega arith)))))
          (λ r. Voiced-from i s s' st r e))

-- The mix changes no voice, and takes the ring on by one pair of samples.
mix-InRing :
    (main_out echo_out : Sample) (s : Sound) → InRing s → InRing (mix main_out echo_out s).1
unfolding mix
mix-InRing main_out echo_out s v =
    let s1 : Sound = (echo_filter (echo_begin s)).1 in
    let a : InRing (
        echo_advance (record s1 {
          eon = s1.regs 0x4d;
          echo_enabled = not (test (s1.regs 0x6c) 0x20);
          esa = s1.regs 0x6d;
        })) =
      echo_advance-InRing _
        (record { whole = v.whole; before_end = v.before_end; short = v.short }) in
    record { whole = a.whole; before_end = a.before_end; short = a.short }

-- From a state in which every voice is sane and the echo offset lies in its ring, and in which the
-- block of each of the eight voices lies inside of the memory, next_sample gives a sample: no
-- assertion fails and no access is outside of an array. Afterwards every voice is sane and the echo
-- offset lies in its ring again.
pub next_sample-Gives :
    (s : Sound)
    → AllSane s
    → InRing s
    → ((j : ℕ) → j < 8 → (s.vstate j).brr_addr + 9 < 0x10000)
    → Gives (λ r. AllSane r.1 × InRing r.1) (next_sample s)
unfolding next_sample poll_keys
next_sample-Gives s all ring inside =
    let s0 : Sound = poll_keys s in
    let s1 : Sound = record s0 { ctr = ctr_run s0.ctr } in
    Gives-then (Voiced s1) _ (run_voices 8 0 silence silence s1) _
      (voices-Gives 8 0 silence silence s1 all (λ j l m. inside j (omega arith)))
      (λ (main_out, echo_out, s') (sane, e). (
        sane,
        mix-InRing main_out echo_out s' (
            subst InRing (sym e)
              (record { whole = ring.whole; before_end = ring.before_end; short = ring.short })),
      ))

-- ===== src/Play/Clocks.antt =====
-- The order in which `_apu_update_clocks` of apu.c runs the timers and the DSP.
use Prim.Native.Nat.{zero, suc}
use spu_kit.Base.{
  ℕ, ◌+◌, ◌*◌, ◌%◌, ◌≡◌, ◌==◌, ◌∙◌, ap, arith, bit_and, if◌then◌else◌, Bool, true, false, refl,
}
use spu_kit.Base.Bits.{and_mask}
use spu_kit.Io.{Os}
use spu_kit.Apu.{timer_tick, do_timer_tick}
use spu_kit.Apu.Ticks.{ticks}
use spu_kit.Apu.Clocks.{timer_tick_lem, xassert_lem}
use spu_kit.Play.{run_dsp, apu_update_clocks}
use spu_kit.Play.Action.{
  Device, Played, played, exits, aborted, failed, crashed, spinning, P, pure, on, continue, ◌>>=◌,
  ◌>>◌,
}

-- A device after one more tick of timer 2, and after one of timer 0 and then one of timer 1.
abbrev ticked : ℕ → Device → Device
ticked n d = record d { machine = record d.machine { apu = ticks n 2 d.machine.apu } }

abbrev pub slow_ticked : Device → Device
slow_ticked d = record d {
  machine = record d.machine { apu = do_timer_tick 1 (do_timer_tick 0 d.machine.apu) };
}

module _ {W : Type 0} where
  continue-continue :
      {A B C : Type 0} (r : Played W A) (f : A → P W B) (g : B → P W C)
      → continue (continue r f) g ≡ continue r (λ a d w. continue (f a d w) g)
  continue-continue (played a d w) f g = refl
  continue-continue (exits w) f g = refl
  continue-continue aborted f g = refl
  continue-continue failed f g = refl
  continue-continue (crashed d) f g = refl
  continue-continue spinning f g = refl

  continue-same :
      {A B : Type 0} (r : Played W A) (f g : A → P W B)
      → ((a : A) (d : Device) (w : W) → f a d w ≡ g a d w)
      → continue r f ≡ continue r g
  continue-same (played a d w) f g h = h a d w
  continue-same (exits w) f g h = refl
  continue-same aborted f g h = refl
  continue-same failed f g h = refl
  continue-same (crashed d) f g h = refl
  continue-same spinning f g h = refl

  continue-pure : (r : Played W (Unit {0})) → continue r (λ _ d w. played tt d w) ≡ r
  continue-pure (played a d w) = refl
  continue-pure (exits w) = refl
  continue-pure aborted = refl
  continue-pure failed = refl
  continue-pure (crashed d) = refl
  continue-pure spinning = refl

  slow :
      (d : Device) (w : W)
      → continue (on (timer_tick 0) d w) (λ _. on (timer_tick 1)) ≡ played tt (slow_ticked d) w
  unfolding on
  slow d w = rw (timer_tick_lem 0 d.machine (omega arith)) (
      rw (timer_tick_lem 1 (record d.machine { apu = do_timer_tick 0 d.machine.apu }) (omega arith))
        refl)

module _ {W : Type 0} (os : Os W) (fuel : ℕ) where
  -- `n` calls in a row, 16 cycles apart, the first at `cycle + 16`, and then `rest`.
  unfoldable pub calls : ℕ → ℕ → P W (Unit {0})
  unfolding apu_update_clocks
  calls cycle zero = pure tt
  calls cycle (suc n) = do apu_update_clocks os fuel (cycle + 16); calls (cycle + 16) n

  -- Two ticks of timer 2, and then a sample of the DSP.
  unfoldable pub quarter : P W (Unit {0})
  unfolding run_dsp ticks
  quarter d w = run_dsp os fuel (ticked 2 d) w

  abbrev clocked : Bool → Bool → P W (Unit {0})
  clocked due all d w =
      continue (if due then run_dsp os fuel (ticked 1 d) w else played tt (ticked 1 d) w)
        (λ _ d' w'. played tt (if all then slow_ticked d' else d') w')

  by_tests :
      (cycle : ℕ) (due all : Bool) (d : Device) (w : W)
      → (bit_and cycle 0x0f == 0) ≡ true
      → (bit_and cycle 0x1f == 0) ≡ due
      → (bit_and cycle 0x7f == 0) ≡ all
      → apu_update_clocks os fuel cycle d w ≡ clocked due all d w
  unfolding apu_update_clocks ◌>>=◌ ticks
  by_tests cycle true true d w e g h =
      rw (e, g, h, xassert_lem d.machine, timer_tick_lem 2 d.machine (omega arith))
        (continue-same (run_dsp os fuel (ticked 1 d) w) _ _ (λ _ d' w'. slow d' w'))
  by_tests cycle true false d w e g h =
      rw (e, g, h, xassert_lem d.machine, timer_tick_lem 2 d.machine (omega arith)) refl
  by_tests cycle false true d w e g h =
      rw (e, g, h, xassert_lem d.machine, timer_tick_lem 2 d.machine (omega arith))
        (slow (ticked 1 d) w)
  by_tests cycle false false d w e g h =
      rw (e, g, h, xassert_lem d.machine, timer_tick_lem 2 d.machine (omega arith)) refl

  one_call :
      (cycle : ℕ) (due all : Bool) (d : Device) (w : W)
      → cycle % 16 ≡ 0
      → (cycle % 32 == 0) ≡ due
      → (cycle % 128 == 0) ≡ all
      → apu_update_clocks os fuel cycle d w ≡ clocked due all d w
  one_call cycle due all d w h e f =
      by_tests cycle due all d w (ground (arith, and_mask 4 cycle))
        (ap (λ m. m == 0) (and_mask 5 cycle) ∙ e) (ap (λ m. m == 0) (and_mask 7 cycle) ∙ f)

  -- Two calls, of which the second runs the DSP, and what follows them.
  two_calls :
      (cycle n : ℕ) (all : Bool) (d : Device) (w : W)
      → cycle % 32 ≡ 0
      → ((cycle + 32) % 128 == 0) ≡ all
      → calls cycle (suc (suc n)) d w
        ≡ continue
            (quarter d w)
            (λ _ d' w'. calls (cycle + 32) n (if all then slow_ticked d' else d') w')
  unfolding calls quarter ticks ◌>>=◌
  two_calls cycle n all d w h e =
      let c : cycle + 16 + 16 ≡ cycle + 32 = omega arith in
      rw (one_call (cycle + 16) false false d w (omega arith) (ground arith) (ground arith), c)
        (ap (λ r. continue r (λ _. calls (cycle + 32) n))
            (one_call (cycle + 32) true all (ticked 1 d) w (omega arith) (ground arith) e)
          ∙ continue-continue (run_dsp os fuel (ticked 2 d) w) _ _)

  -- Eight calls from a multiple of 128 cycles, one period of the clocks: four times, timer 2 ticks
  -- twice and then the DSP makes a sample and writes it; after the last of these, unless the program
  -- has ended in one, timer 0 and then timer 1 tick once.
  pub eight_calls :
      (k : ℕ) (d : Device) (w : W)
      → calls (k * 128) 8 d w
        ≡ (quarter
              >> (quarter >> (quarter >> (quarter >>= λ _ d' w'. played tt (slow_ticked d') w'))))
            d w
  unfolding ◌>>=◌ calls
  eight_calls k d w =
      two_calls (k * 128) 6 false d w (omega arith) (ground arith)
      ∙ continue-same (quarter d w) _ _ (λ _ d1 w1.
        two_calls (k * 128 + 32) 4 false d1 w1 (omega arith) (ground arith)
        ∙ continue-same (quarter d1 w1) _ _ (λ _ d2 w2.
          two_calls (k * 128 + 32 + 32) 2 false d2 w2 (omega arith) (ground arith)
          ∙ continue-same (quarter d2 w2) _ _ (λ _ d3 w3.
            two_calls (k * 128 + 32 + 32 + 32) 0 true d3 w3 (omega arith) (ground arith))))

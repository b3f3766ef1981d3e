-- ===== src/Apu/Control.antt =====
-- What a store to the control register of apu.c does to the timers.
use spu_kit.Apu.{timer_enable, timer_disable, ctrl_timer, ctrl_regs, ctrl_latches}
use spu_kit.Base.{◌&&◌, ◌||◌, ◌≡◌, ℕ, true, test, refl, false, Bool}
use spu_kit.Machine.{Apu}

latches-timers : (clear : Bool) (reg : ℕ) (p : Apu) → (ctrl_latches clear reg p).timers ≡ p.timers
unfolding ctrl_latches
latches-timers true reg p = refl
latches-timers false reg p = refl

-- Whether timer `index` is enabled.
abbrev on : ℕ → Apu → Bool
on index p = (p.timers index).enabled

abbrev Expected : Bool → Bool → Bool → Apu → Apu → Type 0
Expected b0 b1 b2 p q = (on 0 q ≡ b0) × (on 1 q ≡ (b1 || b2)) × (on 2 q ≡ (b2 && on 2 p))

chain :
    (b0 b1 b2 : Bool) (p : Apu)
    → Expected b0 b1 b2 p (ctrl_timer b2 1 2 (ctrl_timer b1 1 1 (ctrl_timer b0 0 0 p)))
unfolding ctrl_timer timer_enable timer_disable
chain true true true p = (refl, refl, refl)
chain true true false p = (refl, refl, refl)
chain true false true p = (refl, refl, refl)
chain true false false p = (refl, refl, refl)
chain false true true p = (refl, refl, refl)
chain false true false p = (refl, refl, refl)
chain false false true p = (refl, refl, refl)
chain false false false p = (refl, refl, refl)

-- After a store to the control register, timer 0 runs if bit 0 was set and timer 1 if bit 1 or
-- bit 2 was; timer 2 runs only if it did before and bit 2 was set, so no store starts it.
pub ctrl_regs-timers :
    (byte : ℕ) (p : Apu)
    → let q = ctrl_regs byte p in
      ((q.timers 0).enabled ≡ test byte 0x01)
      × ((q.timers 1).enabled ≡ (test byte 0x02 || test byte 0x04))
      × ((q.timers 2).enabled ≡ (test byte 0x04 && (p.timers 2).enabled))
unfolding ctrl_regs
ctrl_regs-timers byte p =
    rw (latches-timers (test byte 0x20) 6 _, latches-timers (test byte 0x10) 4 _)
      (chain (test byte 0x01) (test byte 0x02) (test byte 0x04) p)

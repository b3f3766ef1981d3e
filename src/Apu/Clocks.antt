-- ===== src/Apu/Clocks.antt =====
-- A tick of one of the three timers as an action.
use spu_kit.Base.{ℕ, ◌<◌, ◌≡◌, lt→ltb, true, refl}
use spu_kit.Machine.{Machine}
use spu_kit.Machine.Action.{done, xassert, ◌>>=◌}
use spu_kit.Apu.{timer_tick, do_timer_tick}

pub timer_tick_lem :
    (index : ℕ) (s : Machine)
    → index < 3
    → timer_tick index s ≡ done tt (record s { apu = do_timer_tick index s.apu })
unfolding timer_tick ◌>>=◌
timer_tick_lem index s h = rw (lt→ltb index 3 h) refl

pub xassert_lem : (s : Machine) → xassert true s ≡ done tt s
unfolding xassert
xassert_lem s = refl

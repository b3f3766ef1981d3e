-- ===== src/Apu/Ranges.antt =====
-- The invariant of the variables of apu.c through the functions on them.
use spu_kit.Base.{
  refl, ℕ, suc, ◌+◌, ◌≡◌, Bool, true, false, arith, ◌==◌, leb, if◌then◌else◌, Bool-cases, inl, inr,
  u8, u16, IsByte, test, update,
}
use spu_kit.Base.Bits.{and_mask}
use spu_kit.Machine.{Timer, Apu}
use spu_kit.Machine.Valid.{IsValidTimer, IsValidApu, update-bytes}
use spu_kit.Apu.{
  tdiv, tout, timer_init, timer_disable, timer_enable, ctrl_timer, ctrl_latches, ctrl_regs, advance,
  do_timer_tick,
}

timer_init-IsValidTimer : (div : ℕ) → IsByte div → IsValidTimer (timer_init div)
unfolding timer_init
timer_init-IsValidTimer div h = ground arith

pub update-timers :
    (f : ℕ → Timer) (i : ℕ) (t : Timer)
    → ((j : ℕ) → IsValidTimer (f j))
    → IsValidTimer t
    → (j : ℕ) → IsValidTimer (update f i t j)
update-timers f i t hf ht j = go (i == j)
  where
    go : (b : Bool) → IsValidTimer (if b then t else f j)
    go true = ht
    go false = hf j

pub timer_enable-IsValidApu : (i : ℕ) (p : Apu) → IsValidApu p → IsValidApu (timer_enable i p)
unfolding timer_enable
timer_enable-IsValidApu i p v = record {
  sram_fits = update-bytes p.sram (tout i) 0 v.sram_fits (omega arith);
  in_fits = v.in_fits;
  out_fits = v.out_fits;
  timers_fit =
      update-timers p.timers i _ v.timers_fit (timer_init-IsValidTimer _ (v.sram_fits (tdiv i)));
}

timer_disable-IsValidApu : (i : ℕ) (p : Apu) → IsValidApu p → IsValidApu (timer_disable i p)
unfolding timer_disable
timer_disable-IsValidApu i p v = record {
  sram_fits = v.sram_fits;
  in_fits = v.in_fits;
  out_fits = v.out_fits;
  timers_fit = update-timers p.timers i _ v.timers_fit stopped;
}
  where
    stopped : IsValidTimer (record (p.timers i) { enabled = false })
    stopped = ground (arith, v.timers_fit i)

ctrl_timer-IsValidApu :
    (on : Bool) (i j : ℕ) (p : Apu) → IsValidApu p → IsValidApu (ctrl_timer on i j p)
unfolding ctrl_timer
ctrl_timer-IsValidApu true i j p v = timer_enable-IsValidApu i p v
ctrl_timer-IsValidApu false i j p v = timer_disable-IsValidApu j p v

ctrl_latches-IsValidApu :
    (clear : Bool) (r : ℕ) (p : Apu) → IsValidApu p → IsValidApu (ctrl_latches clear r p)
unfolding ctrl_latches
ctrl_latches-IsValidApu true r p v = record {
  sram_fits =
      update-bytes (update p.sram r 0) (suc r) 0 (update-bytes p.sram r 0 v.sram_fits (omega arith))
        (omega arith);
  in_fits = v.in_fits;
  out_fits = v.out_fits;
  timers_fit = v.timers_fit;
}
ctrl_latches-IsValidApu false r p v = v

pub ctrl_regs-IsValidApu : (byte : ℕ) (p : Apu) → IsValidApu p → IsValidApu (ctrl_regs byte p)
unfolding ctrl_regs
ctrl_regs-IsValidApu byte p v = ctrl_latches-IsValidApu (test byte 0x20) 6 _ (
    ctrl_latches-IsValidApu (test byte 0x10) 4 _ (
      ctrl_timer-IsValidApu (test byte 0x04) 1 2 _ (
        ctrl_timer-IsValidApu (test byte 0x02) 1 1 _
          (ctrl_timer-IsValidApu (test byte 0x01) 0 0 p v))))

advance-IsValidApu :
    (i : ℕ) (p : Apu) → (p.timers i).enabled ≡ true → IsValidApu p → IsValidApu (advance i p)
unfolding advance
advance-IsValidApu i p on v =
    elim (Bool-cases (leb (p.timers i).target (u16 ((p.timers i).cycles + 1)))) [
      | inl e ↦ rw e (record {
        sram_fits =
            update-bytes p.sram (tout i) _ v.sram_fits
              (ground (arith, and_mask 4 (u8 (p.sram (tout i) + 1))));
        in_fits = v.in_fits;
        out_fits = v.out_fits;
        timers_fit = update-timers p.timers i _ v.timers_fit (ground (arith, v.timers_fit i));
      })
      | inr e ↦ rw e (record {
        sram_fits = v.sram_fits;
        in_fits = v.in_fits;
        out_fits = v.out_fits;
        timers_fit = update-timers p.timers i _ v.timers_fit (ground (arith, v.timers_fit i));
      })
    ]

pub tick-IsValidApu : (i : ℕ) (p : Apu) → IsValidApu p → IsValidApu (do_timer_tick i p)
unfolding do_timer_tick
tick-IsValidApu i p v = go (p.timers i).enabled refl
  where
    go : (on : Bool) → (p.timers i).enabled ≡ on → IsValidApu (if on then advance i p else p)
    go true e = advance-IsValidApu i p e v
    go false e = v

pub store-IsValidApu :
    (r byte : ℕ) (p : Apu)
    → IsByte byte
    → IsValidApu p
    → IsValidApu (record p { sram = update p.sram r byte })
store-IsValidApu r byte p h v = record {
  sram_fits = update-bytes p.sram r byte v.sram_fits h;
  in_fits = v.in_fits;
  out_fits = v.out_fits;
  timers_fit = v.timers_fit;
}

pub port-IsValidApu :
    (r byte : ℕ) (p : Apu)
    → IsByte byte
    → IsValidApu p
    → IsValidApu (record p { io_out = update p.io_out r byte })
port-IsValidApu r byte p h v = record {
  sram_fits = v.sram_fits;
  in_fits = v.in_fits;
  out_fits = update-bytes p.io_out r byte v.out_fits h;
  timers_fit = v.timers_fit;
}

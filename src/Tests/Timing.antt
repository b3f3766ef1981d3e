-- ===== src/Tests/Timing.antt =====
-- The timers and the clocks on the test machine, whose timers have a target of 4.
use spu_kit.Dsp.Rates.Periods.{ctr_read-periodic}
use spu_kit.Dsp.Rates.{ctr_read}
use spu_kit.Dsp.Counters.{ctr_runs, ctr_run, ctr_init}
use spu_kit.Apu.Control.{ctrl_regs-timers}
use spu_kit.Apu.{ctrl_regs}
use spu_kit.Play.Clocks.{eight_calls, calls, quarter, slow_ticked}
use spu_kit.Play.Action.{played, ◌>>=◌, ◌>>◌}
use spu_kit.Tests.Output.{disk, playing_device, idle as idle_disk}
use spu_kit.Base.{◌-◌, ◌^◌, ◌≡◌, true, refl, false, arith}
use spu_kit.Apu.Ticks.{ticks-Counts, ticks, Counts}
use spu_kit.Tests.{idle}

idle-Counts : Counts 0 4 0 idle
idle-Counts = record { running = refl; has_target = refl; remainder = refl; output = refl }

-- Nine ticks: two periods and one tick.
ticks-Counts_example : Counts 0 4 9 (ticks 9 0 idle)
ticks-Counts_example = ticks-Counts 9 0 4 0 idle (omega arith) (omega arith) idle-Counts

ctrl_regs-timers_example :
    let q = ctrl_regs 0x84 idle in
    ((q.timers 0).enabled ≡ false) × ((q.timers 1).enabled ≡ true) × ((q.timers 2).enabled ≡ true)
ctrl_regs-timers_example = ctrl_regs-timers 0x84 idle

eight_calls_example :
    calls (disk 99) 9000 256 8 playing_device idle_disk
    ≡ (quarter (disk 99) 9000
          >> (quarter (disk 99) 9000
              >> (quarter (disk 99) 9000
                  >> (quarter (disk 99) 9000 >>= λ _ d w. played tt (slow_ticked d) w))))
        playing_device idle_disk
eight_calls_example = eight_calls (disk 99) 9000 2 playing_device idle_disk

ctr_runs_values : ((ctr_runs 2).out 1 ≡ 2 ^ 32 - 346) × ((ctr_runs 2).internal 2 ≡ 1)
unfolding ctr_runs ctr_init ctr_run
ctr_runs_values = (refl, refl)

-- Counter 1 is 1040 samples behind at the start.
ctr_read-periodic_example : ctr_read 2 (ctr_runs 1040) ≡ true
ctr_read-periodic_example = ctr_read-periodic 2 1040 (omega arith) (omega arith)

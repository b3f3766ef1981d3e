-- ===== src/Apu.antt =====
-- apu.c and apu.h: the timers, the control register, the 16 memory-mapped registers and the clocks.
pub mod Ranges
pub mod Safe
pub mod Ticks
pub mod Ports
pub mod Control
pub mod Clocks
use spu_kit.Base.{
  ℕ, suc, ◌+◌, ◌-◌, bit_and, Bool, true, false, ◌==◌, ltb, leb, if◌then◌else◌, ◌&&◌, u8, u16, test,
  update, copy,
}
use spu_kit.Machine.{Timer, Apu}
use spu_kit.Machine.Action.{M, pure, gets, modify_apu, xassert, ◌>>=◌, ◌>>◌}
use spu_kit.Rom.{apu_set_show_ipl_rom}
use spu_kit.Dsp.{dsp_store, dsp_load}

-- `APU_REG`, and `APU_OFF(x, y)` as apu.h has it: its body does not name `y`.
unfoldable pub apu_reg : ℕ → ℕ
apu_reg addr = bit_and addr 0x0f

unfoldable pub apu_off : ℕ → ℕ → ℕ
unfolding apu_reg
apu_off x y = x - apu_reg x

-- The offsets of `tdiv` and `tout` in `struct apu_state`.
abbrev pub tdiv : ℕ → ℕ
tdiv index = 10 + index

abbrev pub tout : ℕ → ℕ
tout index = 13 + index

unfoldable pub timer_init : ℕ → Timer
timer_init div_reg = record {
  cycles = 0;
  target = if div_reg == 0 then 0x100 else div_reg;
  enabled = true;
}

unfoldable pub timer_disable : ℕ → Apu → Apu
timer_disable index p = record p {
  timers = update p.timers index (record (p.timers index) { enabled = false });
}

unfoldable pub timer_enable : ℕ → Apu → Apu
unfolding timer_init
timer_enable index p = record p {
  timers = update p.timers index (timer_init (p.sram (tdiv index)));
  sram = update p.sram (tout index) 0;
}

-- Both branches of one `if (byte & CTRL_T...)` of `apu_ctrl_store`.
unfoldable pub ctrl_timer : Bool → ℕ → ℕ → Apu → Apu
unfolding timer_enable timer_disable
ctrl_timer on enabled disabled p = if on then timer_enable enabled p else timer_disable disabled p

-- The bits CTRL_IOC01 and CTRL_IOC23 clear two input latches of the register file each.
unfoldable pub ctrl_latches : Bool → ℕ → Apu → Apu
ctrl_latches clear reg p =
    if clear then record p { sram = update (update p.sram reg 0) (suc reg) 0 } else p

-- `apu_ctrl_store` up to its last statement. CTRL_T2 enables timer 1, as in the source.
unfoldable pub ctrl_regs : ℕ → Apu → Apu
unfolding ctrl_timer ctrl_latches
ctrl_regs byte p =
    let p0 = ctrl_timer (test byte 0x01) 0 0 p in
    let p1 = ctrl_timer (test byte 0x02) 1 1 p0 in
    let p2 = ctrl_timer (test byte 0x04) 1 2 p1 in
    let p3 = ctrl_latches (test byte 0x10) 4 p2 in ctrl_latches (test byte 0x20) 6 p3

unfoldable pub apu_ctrl_store : ℕ → M (Unit {0})
apu_ctrl_store byte = do modify_apu (ctrl_regs byte); apu_set_show_ipl_rom (test byte 0x80)

unfoldable pub io_load : ℕ → M ℕ
io_load addr = do xassert (ltb addr 4); gets (λ s. s.apu.io_in addr)

unfoldable pub io_store : ℕ → ℕ → M (Unit {0})
io_store addr byte = do
  xassert (ltb addr 4)
  modify_apu (λ p. record p { io_out = update p.io_out addr byte })

-- The `switch` of `_apu_mmio_store`; the cases that only log have no effect.
unfoldable pub mmio_store_case : ℕ → ℕ → ℕ → M (Unit {0})
mmio_store_case reg addr byte =
    if reg == 1
    then apu_ctrl_store byte
    else (if reg == 3
        then (do dsp_addr ← gets (λ s. s.apu.sram 2); dsp_store dsp_addr byte)
        else (if leb 4 reg && leb reg 7 then io_store (addr - 0xf4) byte else pure tt))

unfoldable pub apu_mmio_store : ℕ → ℕ → M (Unit {0})
unfolding mmio_store_case
apu_mmio_store addr byte = do
  modify_apu (λ p. record p { sram = update p.sram (apu_reg addr) byte })
  mmio_store_case (apu_reg addr) addr byte

-- `s.regs.tout[index] = 0`
unfoldable pub clear_tout : ℕ → M (Unit {0})
unfolding modify_apu
clear_tout index = modify_apu (λ p. record p { sram = update p.sram (tout index) 0 })

-- The `switch` of `_apu_mmio_load`; `byte` is what the register file held before.
unfoldable pub mmio_load_case : ℕ → ℕ → ℕ → M ℕ
mmio_load_case reg addr byte =
    if reg == 3
    then (do dsp_addr ← gets (λ s. s.apu.sram 2); dsp_load dsp_addr)
    else (if leb 4 reg && leb reg 7
        then io_load (addr - 0xf4)
        else (if leb 13 reg then (do clear_tout (apu_off reg 0xfd); pure byte) else pure byte))

unfoldable pub apu_mmio_load : ℕ → M ℕ
unfolding mmio_load_case
apu_mmio_load addr = do
  byte ← gets (λ s. s.apu.sram (apu_reg addr))
  mmio_load_case (apu_reg addr) addr byte

-- The body of `do_timer_tick` behind its guard.
unfoldable pub advance : ℕ → Apu → Apu
advance index p =
    let t = p.timers index in
    let cycles = u16 (t.cycles + 1) in
    if leb t.target cycles
    then record p {
      timers = update p.timers index (record t { cycles = 0 });
      sram = update p.sram (tout index) (bit_and (u8 (p.sram (tout index) + 1)) 0xf);
    }
    else record p { timers = update p.timers index (record t { cycles = cycles }) }

unfoldable pub do_timer_tick : ℕ → Apu → Apu
unfolding advance
do_timer_tick index p = if (p.timers index).enabled then advance index p else p

unfoldable pub timer_tick : ℕ → M (Unit {0})
timer_tick index = do xassert (ltb index 3); modify_apu (do_timer_tick index)

-- `apu_state_from_aram`: the sixteen registers as saved in a memory image.
unfoldable pub apu_state_from_aram : (ℕ → ℕ) → ℕ → ℕ
apu_state_from_aram aram i = aram (0xf0 + i)

unfoldable pub apu_restore : (ℕ → ℕ) → M (Unit {0})
apu_restore st = do
  modify_apu (λ p. record p { sram = st })
  apu_ctrl_store (st 1)
  modify_apu (λ p. record p { sram = st; io_in = copy p.io_in 0 st 4 4 })

unfoldable pub apu_reset : M (Unit {0})
apu_reset = do
  modify_apu (λ p. record p {
    sram = λ i. 0;
    timers = λ i. record { cycles = 0; target = 0; enabled = false };
    io_out = λ i. 0;
  })
  apu_set_show_ipl_rom true

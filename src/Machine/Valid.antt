-- ===== src/Machine/Valid.antt =====
-- The invariant of the machine: each variable is in the range of its C type, and a timer has not
-- passed its target.
use spu_kit.Base.{ℕ, ◌+◌, ◌-◌, ◌≤◌, ◌<◌, ◌≡◌, true, arith, IsByte, IsWord, update, copy}
use spu_kit.Machine.{Timer, Apu, Dsp, Cpu, Machine}

pub record IsValidCpu (c : Cpu) : Type 0 where
  pub pc_fits : IsWord c.pc
  pub a_fits : IsByte c.a
  pub x_fits : IsByte c.x
  pub y_fits : IsByte c.y
  pub sp_fits : IsByte c.sp

pub record IsValidTimer (t : Timer) : Type 0 where
  pub cycles_fit : t.cycles < 256
  pub target_fits : t.target ≤ 256
  pub running : t.enabled ≡ true → t.cycles < t.target

pub record IsValidApu (p : Apu) : Type 0 where
  pub sram_fits : (i : ℕ) → IsByte (p.sram i)
  pub in_fits : (i : ℕ) → IsByte (p.io_in i)
  pub out_fits : (i : ℕ) → IsByte (p.io_out i)
  pub timers_fit : (i : ℕ) → IsValidTimer (p.timers i)

pub record IsValidDsp (d : Dsp) : Type 0 where
  pub regs_fit : (i : ℕ) → IsByte (d.regs i)

pub record IsValid (s : Machine) : Type 0 where
  pub cpu_valid : IsValidCpu s.cpu
  pub aram_fits : (i : ℕ) → IsByte (s.aram i)
  pub extra_fits : (i : ℕ) → IsByte (s.extra_ram i)
  pub apu_valid : IsValidApu s.apu
  pub dsp_valid : IsValidDsp s.dsp

-- A part replaced by a valid one.
pub with_cpu : {s : Machine} (c : Cpu) → IsValid s → IsValidCpu c → IsValid (record s { cpu = c })
with_cpu c v h = record {
  cpu_valid = h;
  aram_fits = v.aram_fits;
  extra_fits = v.extra_fits;
  apu_valid = v.apu_valid;
  dsp_valid = v.dsp_valid;
}

pub with_apu : {s : Machine} (p : Apu) → IsValid s → IsValidApu p → IsValid (record s { apu = p })
with_apu p v h = record {
  cpu_valid = v.cpu_valid;
  aram_fits = v.aram_fits;
  extra_fits = v.extra_fits;
  apu_valid = h;
  dsp_valid = v.dsp_valid;
}

pub with_dsp : {s : Machine} (d : Dsp) → IsValid s → IsValidDsp d → IsValid (record s { dsp = d })
with_dsp d v h = record {
  cpu_valid = v.cpu_valid;
  aram_fits = v.aram_fits;
  extra_fits = v.extra_fits;
  apu_valid = v.apu_valid;
  dsp_valid = h;
}

-- Arrays of bytes stay arrays of bytes.
pub update-bytes :
    (f : ℕ → ℕ) (i v : ℕ) → ((j : ℕ) → IsByte (f j)) → IsByte v → (j : ℕ) → IsByte (update f i v j)
update-bytes f i v hf hv j = ground (arith, hf j)

pub copy-bytes :
    (dst : ℕ → ℕ) (to : ℕ) (src : ℕ → ℕ) (from n : ℕ)
    → ((j : ℕ) → IsByte (dst j))
    → ((j : ℕ) → IsByte (src j))
    → (j : ℕ) → IsByte (copy dst to src from n j)
copy-bytes dst to src from n hd hs j = ground (arith, hd j, hs (from + (j - to)))

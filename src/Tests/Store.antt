-- ===== src/Tests/Store.antt =====
-- Memory, stack, ports and the table of instructions on the test machine.
use spu_kit.Cpu.Flags.{set_zn16}
use spu_kit.Cpu.Insn.Word.{insn_incw_dp}
use spu_kit.Cpu.Words.{incw_lem}
use spu_kit.Machine.{Machine}
use spu_kit.Apu.Ports.{tout_load}
use spu_kit.Rom.Overlay.{shadowed, overlay-shadowed}
use spu_kit.Rom.{overlay}
use spu_kit.Cpu.Table.{opcode_tbl, entry}
use spu_kit.Dsp.RoundTrip.{dsp_store-load}
use spu_kit.Dsp.{dsp_store, dsp_load}
use spu_kit.Cpu.Stack.RoundTrip.{call-ret}
use spu_kit.Cpu.Stack.{call}
use spu_kit.Cpu.Insn.Branch.{insn_ret}
use spu_kit.Cpu.Address.{direct_page_effective}
use spu_kit.Cpu.Table.Families.{tcall_entries}
use spu_kit.Base.{◌<<<◌, ◌+◌, u16, bit_or, ◌≡◌, update, true, some, refl, false, arith}
use spu_kit.Memory.{mem_load, apu_mmio_address}
use spu_kit.Cpu.Stack.Table.{called}
use spu_kit.Tests.{machine-IsValid, machine, start, idle}
use spu_kit.Machine.Action.{M, done, ◌>>=◌}

call-ret_example :
    (call 0x500 >>= λ _. insn_ret) machine
    ≡ done tt (record machine { aram = update (update machine.aram 0x100 0) 0x1ff 0 })
call-ret_example = call-ret 0x500 machine (omega arith)

tout_load_example :
    mem_load 0xfe machine
    ≡ done 0 (record machine { apu = record idle { sram = update idle.sram 13 0 } })
tout_load_example = tout_load 1 machine (omega arith)

dsp_store-load_example :
    ((dsp_store 0x7c 0x55 >>= λ _. dsp_load 0x7c) machine
      ≡ done 0
          (record machine { dsp = record machine.dsp { regs = update machine.dsp.regs 0x7c 0 } }))
    × (dsp_store 0x7c 0x55 machine
        ≡ done tt
            (record machine { dsp = record machine.dsp { regs = update machine.dsp.regs 0x7c 0 } }))
    × (dsp_load 0x7c machine ≡ done 0 machine)
dsp_store-load_example = dsp_store-load 0x7c 0x55 machine (omega arith)

overlay-shadowed_example :
    ((overlay true machine).aram ≡ shadowed machine.aram)
    × ((overlay false (overlay true machine)).aram ≡ machine.aram)
    × ((overlay false (overlay true machine)).show_rom ≡ false)
overlay-shadowed_example = overlay-shadowed machine refl

tcall_entries_example :
    (cb : M (Unit {0})) × (entry opcode_tbl 0x31 ≡ some cb)
    × (cb machine ≡ done tt (called 3 machine))
tcall_entries_example =
    tcall_entries 3 machine (omega arith) (omega arith) machine-IsValid.aram_fits

-- `incw` on the word 0x00ff at 0x100, whose address is the 0 at the program counter in page 1.
abbrev counting : Machine
counting = record machine { aram = update (λ i. 0) 0x100 0xff }

incw_lem_example :
    insn_incw_dp counting
    ≡ done tt (record counting {
      cpu = set_zn16 (u16 (bit_or (0 <<< 8) 0xff + 1)) (record start { pc = 1 });
      aram = update counting.aram 0x100 0;
    })
unfolding apu_mmio_address direct_page_effective
incw_lem_example = incw_lem counting (omega arith) refl refl

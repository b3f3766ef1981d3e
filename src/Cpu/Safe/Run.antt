-- ===== src/Cpu/Safe/Run.antt =====
-- The invariant of the machine, and the assertions, through the function of every opcode.
use spu_kit.Cpu.Safe.Top.{row_f-AllRun, row_e-AllRun, row_d-AllRun, row_c-AllRun}
use spu_kit.Cpu.Safe.High.{row_b-AllRun, row_a-AllRun, row_9-AllRun, row_8-AllRun}
use spu_kit.Cpu.Safe.Middle.{row_7-AllRun, row_6-AllRun, row_5-AllRun, row_4-AllRun}
use spu_kit.Cpu.Safe.Low.{row_3-AllRun, row_2-AllRun, row_1-AllRun, row_0-AllRun}
use spu_kit.Base.{ℕ}
use spu_kit.Cpu.Table.{opcode_tbl, entry}
use spu_kit.Cpu.Safe.Table.{entry-Runs, append-AllRun, Runs, AllRun}

all-AllRun : AllRun opcode_tbl
unfolding opcode_tbl
all-AllRun = append-AllRun _ _ row_0-AllRun (
    append-AllRun _ _ row_1-AllRun (
      append-AllRun _ _ row_2-AllRun (
        append-AllRun _ _ row_3-AllRun (
          append-AllRun _ _ row_4-AllRun (
            append-AllRun _ _ row_5-AllRun (
              append-AllRun _ _ row_6-AllRun (
                append-AllRun _ _ row_7-AllRun (
                  append-AllRun _ _ row_8-AllRun (
                    append-AllRun _ _ row_9-AllRun (
                      append-AllRun _ _ row_a-AllRun (
                        append-AllRun _ _ row_b-AllRun (
                          append-AllRun _ _ row_c-AllRun (
                            append-AllRun _ _ row_d-AllRun
                              (append-AllRun _ _ row_e-AllRun row_f-AllRun))))))))))))))

-- From a valid machine, the function of every opcode returns a valid machine or calls `abort`; no
-- `xassert` in it fails.
pub opcode-Runs : (opcode : ℕ) → Runs (entry opcode_tbl opcode)
opcode-Runs opcode = entry-Runs opcode_tbl opcode all-AllRun

-- ===== src/Cpu/Table/Cell.antt =====
-- An entry of `opcode_tbl` of spc700.c.
use spu_kit.Base.{Option}
use spu_kit.Machine.Action.{M}

-- `insn_t`, or NULL
abbrev pub Entry : Type 0
Entry = Option (M (Unit {0}))

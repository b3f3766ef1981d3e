-- ===== src/Cpu/Table/Families.antt =====
-- The families of opcodes in `opcode_tbl` of spc700.c.
use spu_kit.Cpu.Stack.{tcall}
use spu_kit.Cpu.Insn.Branch.{
  insn_tcall_9, insn_tcall_8, insn_tcall_7, insn_tcall_6, insn_tcall_5, insn_tcall_4, insn_tcall_3,
  insn_tcall_2, insn_tcall_15, insn_tcall_14, insn_tcall_13, insn_tcall_12, insn_tcall_11,
  insn_tcall_10, insn_tcall_1, insn_tcall_0,
}
use spu_kit.Cpu.Table.{opcode_tbl, entry}
use spu_kit.Cpu.Insn.Bit.{
  set_db, insn_set_db_7, insn_set_db_6, insn_set_db_5, insn_set_db_4, insn_set_db_3, insn_set_db_2,
  insn_set_db_1, insn_set_db_0, insn_clr_db_7, insn_clr_db_6, insn_clr_db_5, insn_clr_db_4,
  insn_clr_db_3, insn_clr_db_2, insn_clr_db_1, insn_clr_db_0, insn_bbs_db_7, insn_bbs_db_6,
  insn_bbs_db_5, insn_bbs_db_4, insn_bbs_db_3, insn_bbs_db_2, insn_bbs_db_1, insn_bbs_db_0,
  insn_bbc_db_7, insn_bbc_db_6, insn_bbc_db_5, insn_bbc_db_4, insn_bbc_db_3, insn_bbc_db_2,
  insn_bbc_db_1, insn_bbc_db_0, clr_db, bbs_db, bbc_db,
}
use spu_kit.Cpu.Stack.Table.{called, tcall_lem}
use spu_kit.Machine.{Machine}
use spu_kit.Machine.Action.{M, done}
use spu_kit.Base.{
  IsByte, arith, ◌-◌, ◌==◌, if◌then◌else◌, ◌≡◌, ◌+◌, ◌<◌, ◌*◌, ℕ, some, refl, each-lt, Each,
}

tcall_table :
    (slot : ℕ)
    → slot < 16
    → entry opcode_tbl (slot * 16 + 1) ≡ some (tcall (if slot == 9 then 0 else slot))
unfolding opcode_tbl insn_tcall_0 insn_tcall_1 insn_tcall_2 insn_tcall_3 insn_tcall_4 insn_tcall_5
    insn_tcall_6 insn_tcall_7 insn_tcall_8 insn_tcall_9 insn_tcall_10 insn_tcall_11 insn_tcall_12
    insn_tcall_13 insn_tcall_14 insn_tcall_15
tcall_table slot h =
    each-lt (λ n. entry opcode_tbl (n * 16 + 1) ≡ some (tcall (if n == 9 then 0 else n))) 16
      (
        refl,
        (
          refl,
          (
            refl,
            (
              refl,
              (
                refl,
                (
                  refl,
                  (
                    refl,
                    (refl, (refl, (refl, (refl, (refl, (refl, (refl, (refl, (refl, tt))))))))),
                  ),
                ),
              ),
            ),
          ),
        ),
      )
      slot h

-- The opcodes that end in 1 call through the table of sixteen addresses that stands down from
-- 0xffde: opcode n1 pushes the program counter and goes to the address in entry n, but 91 to that in
-- entry 0.
pub tcall_entries :
    (slot : ℕ) (s : Machine)
    → slot < 16
    → IsByte s.cpu.sp
    → ((i : ℕ) → IsByte (s.aram i))
    → (cb : M (Unit {0})) × (entry opcode_tbl (slot * 16 + 1) ≡ some cb)
      × (cb s ≡ done tt (called (if slot == 9 then 0 else slot) s))
tcall_entries slot s h sp bytes =
    let slot' = if slot == 9 then 0 else slot in
    (
      tcall slot',
      tcall_table slot h,
      tcall_lem slot' s (ground arith) sp (bytes (0xffde - 2 * slot')),
    )

-- For each bit of a byte, in four columns of the table: set it, clear it, branch if it is set and
-- branch if it is clear.
abbrev BitColumns : ℕ → Type 0
BitColumns bit =
    (entry opcode_tbl (bit * 32 + 0x02) ≡ some (set_db bit))
    × (entry opcode_tbl (bit * 32 + 0x12) ≡ some (clr_db bit))
    × (entry opcode_tbl (bit * 32 + 0x03) ≡ some (bbs_db bit))
    × (entry opcode_tbl (bit * 32 + 0x13) ≡ some (bbc_db bit))

columns : Each BitColumns 8
unfolding opcode_tbl insn_set_db_0 insn_set_db_1 insn_set_db_2 insn_set_db_3 insn_set_db_4
    insn_set_db_5 insn_set_db_6 insn_set_db_7 insn_clr_db_0 insn_clr_db_1 insn_clr_db_2
    insn_clr_db_3 insn_clr_db_4 insn_clr_db_5 insn_clr_db_6 insn_clr_db_7 insn_bbs_db_0
    insn_bbs_db_1 insn_bbs_db_2 insn_bbs_db_3 insn_bbs_db_4 insn_bbs_db_5 insn_bbs_db_6
    insn_bbs_db_7 insn_bbc_db_0 insn_bbc_db_1 insn_bbc_db_2 insn_bbc_db_3 insn_bbc_db_4
    insn_bbc_db_5 insn_bbc_db_6 insn_bbc_db_7
columns = (
  (refl, refl, refl, refl),
  (
    (refl, refl, refl, refl),
    (
      (refl, refl, refl, refl),
      (
        (refl, refl, refl, refl),
        (
          (refl, refl, refl, refl),
          ((refl, refl, refl, refl), ((refl, refl, refl, refl), ((refl, refl, refl, refl), tt))),
        ),
      ),
    ),
  ),
)

-- For each bit of a byte the table has an instruction that sets it, one that clears it, one that
-- branches if it is set and one that branches if it is clear, in columns 2 and 3 of two rows.
pub bit_entries :
    (bit : ℕ)
    → bit < 8
    → (entry opcode_tbl (bit * 32 + 0x02) ≡ some (set_db bit))
      × (entry opcode_tbl (bit * 32 + 0x12) ≡ some (clr_db bit))
      × (entry opcode_tbl (bit * 32 + 0x03) ≡ some (bbs_db bit))
      × (entry opcode_tbl (bit * 32 + 0x13) ≡ some (bbc_db bit))
bit_entries bit h = each-lt BitColumns 8 columns bit h

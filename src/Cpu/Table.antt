-- ===== src/Cpu/Table.antt =====
-- `opcode_tbl` of spc700.c, in sixteen rows; `none` is a NULL entry.
mod Cell
mod Low
mod Middle
mod High
mod Top
pub mod Families
pub mod Holes
use Prim.Native.Nat.{zero, suc}
use spu_kit.Base.{ℕ, none, List, [], ◌∷◌, ◌++◌}
pub use Cell.*
unfoldable pub use Low.*
unfoldable pub use Middle.*
unfoldable pub use High.*
unfoldable pub use Top.*

unfoldable pub opcode_tbl : List Entry
unfolding row_0 row_1 row_2 row_3 row_4 row_5 row_6 row_7 row_8 row_9 row_a row_b row_c row_d row_e
    row_f
opcode_tbl =
    row_0
    ++ (row_1
        ++ (row_2
            ++ (row_3
                ++ (row_4
                    ++ (row_5
                        ++ (row_6
                            ++ (row_7
                                ++ (row_8
                                    ++ (row_9
                                        ++ (row_a
                                            ++ (row_b
                                                ++ (row_c ++ (row_d ++ (row_e ++ row_f))))))))))))))

-- `opcode_tbl[opcode]`
abbrev pub entry : List Entry → ℕ → Entry
entry [] i = none
entry (f ∷ fs) zero = f
entry (f ∷ fs) (suc i) = entry fs i

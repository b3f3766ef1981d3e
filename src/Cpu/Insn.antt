-- ===== src/Cpu/Insn.antt =====
-- The instructions of spc700.c, one definition for each `insn_` function, by what they act on.
pub mod Shape
pub mod Logic
pub mod Sum
pub mod Compare
pub mod Shift
pub mod Bit
pub mod Membit
pub mod Branch
pub mod Control
pub mod Move
pub mod Word

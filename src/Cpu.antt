-- ===== src/Cpu.antt =====
-- spc700.c: the SPC700 processor.
pub mod Flags
pub mod Alu
pub mod Divide
pub mod Address
pub mod Stack
pub mod Insn
pub mod Table
pub mod Run
pub mod Words
pub mod Safe

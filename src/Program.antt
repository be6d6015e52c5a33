-- ===== src/Program.antt =====
-- src/program: instructions, the peephole optimizer and the assembler.
pub mod Instruction
pub mod Optimizer
pub mod Assembler

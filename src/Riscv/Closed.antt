-- ===== src/Riscv/Closed.antt =====
-- What every command of src/isa/riscv32/inst.c keeps when its parts do.
pub mod Primitives
pub mod Instructions
pub mod Step

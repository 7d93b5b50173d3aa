-- ===== src/Difftest.antt =====
-- src/cpu/difftest/dut.c and src/isa/riscv32/difftest/dut.c: the comparison with a reference.
pub mod Dut
pub mod DutLaws
pub mod Run
pub mod RunLaws

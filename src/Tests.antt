-- ===== src/Tests.antt =====
-- Runs of the definitions on concrete inputs, and the theorems applied to concrete inputs.
mod Fixture
mod Riscv
mod Parts
mod Run
mod Traps
mod Matcher
mod Debugger
mod Differential
mod Devices
mod Isa
mod IsaStart
mod Monitor
mod Main
mod Reserved

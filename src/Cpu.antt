-- ===== src/Cpu.antt =====
-- src/cpu/cpu-exec.c and src/utils/state.c: the loop that runs instructions, and the states of the
-- emulator.
pub mod Run
pub mod Laws

-- ===== src/System.antt =====
-- The emulator as a whole: the processor over the memory with the regions of the devices, the update
-- of the devices, the host and the debugger, as steps.
pub mod Step
pub mod UpdateLaws
pub mod Invariant
pub mod Runs

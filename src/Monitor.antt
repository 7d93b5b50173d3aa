-- ===== src/Monitor.antt =====
-- src/monitor/monitor.c: the command line, the files that go to memory, and the start of the emulator.
pub mod Args
pub mod Load
pub mod Init
pub mod LoadLaws
pub mod InitLaws
pub mod StartLaws
pub mod Main
pub mod MainLaws

-- ===== src/Riscv.antt =====
-- src/isa/riscv32: the processor. RV32 with the options that Kconfig sets by default: A, Zicsr,
-- Zifencei, the privilege modes M, S and U, no C extension.
pub mod Csr
pub mod Amw
pub mod Machine
pub mod Operand
pub mod Instr
pub mod Exec
pub mod Trap
pub mod Interrupt
pub mod Keeps
pub mod Closed
pub mod Words
pub mod OnBus
pub mod Zero
pub mod Status
pub mod SupervisorStatus
pub mod TrapLaws
pub mod AmwLaws
pub mod AmwHeap
pub mod InterruptLaws
pub mod SelectLaws
pub mod CsrLaws
pub mod ImmediateLaws
pub mod DelegateLaws
pub mod SupervisorLaws
pub mod Init
pub mod InitLaws
pub mod Names
pub mod NamesLaws
pub mod DivideLaws

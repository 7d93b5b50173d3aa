-- ===== src/Riscv/Exec.antt =====
-- src/isa/riscv32/inst.c: the bodies of the rows of `INSTPAT`.
mod Alu
mod Transfer
mod System
use gs_emu.Base.{Bool}
use gs_emu.Bus.{Bus}
use gs_emu.Riscv.Machine.{Cmd}
use gs_emu.Riscv.Operand.{Operands}
use gs_emu.Riscv.Instr.{Instr}
use Alu.{exec_alu}
use Transfer.{exec_jump, exec_memory}
use System.{exec_amo, exec_system}
unfoldable pub use Alu.*
unfoldable pub use Transfer.*
unfoldable pub use System.*

-- Which of the five groups a row's body stands in.
pub data Group : Type 0 where
  alu jump memory amo system : Group

unfoldable pub group : Instr → Group
group Instr.jal = jump
group Instr.jalr = jump
group Instr.beq = jump
group Instr.bne = jump
group Instr.blt = jump
group Instr.bge = jump
group Instr.bltu = jump
group Instr.bgeu = jump
group Instr.lb = memory
group Instr.lh = memory
group Instr.lw = memory
group Instr.lbu = memory
group Instr.lhu = memory
group Instr.sb = memory
group Instr.sh = memory
group Instr.sw = memory
group Instr.lr_w = amo
group Instr.sc_w = amo
group Instr.amoswap_w = amo
group Instr.amoadd_w = amo
group Instr.amoxor_w = amo
group Instr.amoand_d = amo
group Instr.amoor_w = amo
group Instr.amomin_w = amo
group Instr.amomax_w = amo
group Instr.amominu_w = amo
group Instr.amomaxu_w = amo
group Instr.ecall = system
group Instr.ebreak = system
group Instr.csrrw = system
group Instr.csrrc = system
group Instr.csrrs = system
group Instr.csrrwi = system
group Instr.csrrci = system
group Instr.csrrsi = system
group Instr.sret = system
group Instr.mret = system
group Instr.wfi = system
group Instr.fence = system
group Instr.fence_i = system
group Instr.sfence_vma = system
group Instr.inv = system
group _ = alu

-- The body of the chosen row.
module _ (bus : Bus) (mem_all_access : Bool) where
  unfoldable pub exec_group : Group → Instr → Operands → Cmd bus.State (Unit {0})
  exec_group alu i o = exec_alu i o
  exec_group jump i o = exec_jump i o
  exec_group memory i o = exec_memory bus mem_all_access i o
  exec_group amo i o = exec_amo bus mem_all_access i o
  exec_group system i o = exec_system bus mem_all_access i o

  unfoldable pub exec : Instr → Operands → Cmd bus.State (Unit {0})
  exec i o = exec_group (group i) i o

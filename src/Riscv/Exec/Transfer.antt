-- ===== src/Riscv/Exec/Transfer.antt =====
-- src/isa/riscv32/inst.c: jumps and branches, loads and stores.
use gs_emu.Base.{ℕ, ◌+◌, ◌-◌, ◌%◌, Bool, not, ltb, leb, ◌==◌, if◌then◌else◌}
use gs_emu.Word.{u32, u64, sext, slt32, sge32}
use gs_emu.Bus.{Bus}
use gs_emu.Riscv.Machine.{
  Cmd, ◌>>=◌, ◌>>◌, skip, get_s, set_gpr, set_dnpc, trap_peek_exception, dnpc_and_check, mr, mw,
  excp_inst_addr_mis,
}
use gs_emu.Riscv.Operand.{Operands}
use gs_emu.Riscv.Instr.{Instr}

-- `(src1 + imm) & ~1`.
abbrev pub jalr_target : ℕ → ℕ → ℕ
jalr_target a i = u32 (a + i) - u32 (a + i) % 2

module _ {B : Type 0} where
  -- `if (taken) dnpc_and_check(s->pc + SEXT(imm, 13))`.
  unfoldable pub branch : Bool → ℕ → Cmd B (Unit {0})
  branch taken imm =
      if taken then (do s ← get_s; dnpc_and_check (u64 (s.pc + sext imm 13))) else skip

  unfoldable pub exec_jump : Instr → Operands → Cmd B (Unit {0})
  exec_jump Instr.jal o = do
    s ← get_s
    if not (u32 (s.pc + o.imm) % 4 == 0)
        then trap_peek_exception excp_inst_addr_mis (s.pc + o.imm)
        else (do set_gpr o.rd (s.pc + 4); set_dnpc (s.pc + o.imm))
  exec_jump Instr.jalr o = do
    s ← get_s
    if not (jalr_target o.src1 o.imm % 4 == 0)
        then (do trap_peek_exception excp_inst_addr_mis (jalr_target o.src1 o.imm); set_gpr o.rd 0)
        else (do set_dnpc (jalr_target o.src1 o.imm); set_gpr o.rd (s.pc + 4))
  exec_jump Instr.beq o = branch (o.src1 == o.src2) o.imm
  exec_jump Instr.bne o = branch (not (o.src1 == o.src2)) o.imm
  exec_jump Instr.blt o = branch (slt32 o.src1 o.src2) o.imm
  exec_jump Instr.bge o = branch (sge32 o.src1 o.src2) o.imm
  exec_jump Instr.bltu o = branch (ltb o.src1 o.src2) o.imm
  exec_jump Instr.bgeu o = branch (leb o.src2 o.src1) o.imm
  exec_jump _ o = skip

-- `src1 + imm`.
abbrev pub target : Operands → ℕ
target o = u32 (o.src1 + o.imm)

module _ (bus : Bus) (mem_all_access : Bool) where
  abbrev load : ℕ → ℕ → Cmd bus.State ℕ
  load = mr bus mem_all_access

  abbrev store : ℕ → ℕ → ℕ → Cmd bus.State (Unit {0})
  store = mw bus mem_all_access

  unfoldable pub exec_memory : Instr → Operands → Cmd bus.State (Unit {0})
  exec_memory Instr.lb o = do v ← load (target o) 1; set_gpr o.rd (sext v 8)
  exec_memory Instr.lh o = do v ← load (target o) 2; set_gpr o.rd (sext v 16)
  exec_memory Instr.lw o = do v ← load (target o) 4; set_gpr o.rd (sext v 32)
  exec_memory Instr.lbu o = do v ← load (target o) 1; set_gpr o.rd v
  exec_memory Instr.lhu o = do v ← load (target o) 2; set_gpr o.rd v
  exec_memory Instr.sb o = store (target o) 1 o.src2
  exec_memory Instr.sh o = store (target o) 2 o.src2
  exec_memory Instr.sw o = store (target o) 4 o.src2
  exec_memory _ o = skip

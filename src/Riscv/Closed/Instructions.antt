-- ===== src/Riscv/Closed/Instructions.antt =====
-- The bodies of the rows of `INSTPAT`.
use gs_emu.Base.{ℕ, Bool, Option, none, some, if◌then◌else◌}
use gs_emu.Bus.{Bus}
use gs_emu.Riscv.Machine.{Machine, Cmd, ◌>>◌, set_gpr, mw, delete_amw}
use gs_emu.Riscv.Amw.{Node}
use gs_emu.Riscv.Operand.{Operands, OperandType, decode_operand}
use gs_emu.Riscv.Instr.{Instr}
use gs_emu.Riscv.Exec.{
  exec_alu, exec_jump, exec_memory, exec_amo, exec_system, branch, csr_rw_check, csr_access,
  exec_ecall, exec_ebreak, exec_sret, exec_mret, exec_wfi, amo_access, exec_lr, exec_sc, Group,
  exec_group, exec,
}
use gs_emu.Riscv.Keeps.{Keeps, Keeps-bind}
use gs_emu.Riscv.Closed.Primitives.{Closed, ClosedBus, parts, search_amw-Keeps}

module _ {B : Type 0} {P : Machine B → Type 0} (closed : Closed P) where
  pub decode_operand-Keeps : (i : ℕ) (t : OperandType) → Keeps P (decode_operand i t)
  unfolding decode_operand
  decode_operand-Keeps i OperandType.type_i = search parts
  decode_operand-Keeps i _ = search parts depth 8

  pub exec_alu-Keeps : (i : Instr) (o : Operands) → Keeps P (exec_alu i o)
  unfolding exec_alu
  exec_alu-Keeps Instr.lui o = search parts
  exec_alu-Keeps _ o = search parts depth 8

  branch-Keeps : (b : Bool) (imm : ℕ) → Keeps P (branch b imm)
  unfolding branch
  branch-Keeps b imm = search parts depth 8

  pub exec_jump-Keeps : (i : Instr) (o : Operands) → Keeps P (exec_jump i o)
  unfolding exec_jump
  exec_jump-Keeps Instr.jal o = search parts depth 12
  exec_jump-Keeps Instr.jalr o = search parts depth 12
  exec_jump-Keeps _ o = search (parts, branch-Keeps)

  csr_rw_check-Keeps : (i : ℕ) (c : Cmd B (Unit {0})) → Keeps P c → Keeps P (csr_rw_check i c)
  unfolding csr_rw_check
  csr_rw_check-Keeps i c h = search parts depth 8

  csr_access-Keeps : (o : Operands) (f : ℕ → ℕ) → Keeps P (csr_access o f)
  unfolding csr_access
  csr_access-Keeps o f = search (parts, csr_rw_check-Keeps) depth 12

  exec_ecall-Keeps : Keeps P exec_ecall
  unfolding exec_ecall
  exec_ecall-Keeps = search parts depth 16

  exec_ebreak-Keeps : Keeps P exec_ebreak
  unfolding exec_ebreak
  exec_ebreak-Keeps = search parts depth 16

  exec_sret-Keeps : Keeps P exec_sret
  unfolding exec_sret
  exec_sret-Keeps = search parts depth 24

  exec_mret-Keeps : Keeps P exec_mret
  unfolding exec_mret
  exec_mret-Keeps = search parts depth 24

module _ (bus : Bus) (mem_all_access : Bool) {P : Machine bus.State → Type 0} (closed : Closed P)
    (closed_bus : ClosedBus bus P) where
  pub exec_memory-Keeps : (i : Instr) (o : Operands) → Keeps P (exec_memory bus mem_all_access i o)
  unfolding exec_memory
  exec_memory-Keeps Instr.lb o = search parts depth 8
  exec_memory-Keeps _ o = search parts depth 8

  amo_access-Keeps : (o : Operands) (f : ℕ → ℕ → ℕ) → Keeps P (amo_access bus mem_all_access o f)
  unfolding amo_access
  amo_access-Keeps o f = search parts depth 8

  exec_lr-Keeps : (o : Operands) → Keeps P (exec_lr bus mem_all_access o)
  unfolding exec_lr
  exec_lr-Keeps o = search parts depth 8

  exec_sc-Keeps : (o : Operands) → Keeps P (exec_sc bus mem_all_access o)
  unfolding exec_sc
  exec_sc-Keeps o = Keeps-bind (search_amw-Keeps o.src1) found
    where
      found :
          (r : Option Node)
          → Keeps P (elim r [
            | none ↦ set_gpr o.rd 1
            | some node ↦
                if node.reserved
                then (do mw bus mem_all_access o.src1 4 o.src2; set_gpr o.rd 0; delete_amw o.src1)
                else set_gpr o.rd 1
          ])
      found none = search parts
      found (some node) = search parts depth 10

  pub exec_amo-Keeps : (i : Instr) (o : Operands) → Keeps P (exec_amo bus mem_all_access i o)
  unfolding exec_amo
  exec_amo-Keeps Instr.lr_w o = exec_lr-Keeps o
  exec_amo-Keeps Instr.sc_w o = exec_sc-Keeps o
  exec_amo-Keeps _ o = search (parts, amo_access-Keeps)

  exec_wfi-Keeps : Keeps P (exec_wfi bus mem_all_access)
  unfolding exec_wfi
  exec_wfi-Keeps = search parts depth 8

  pub exec_system-Keeps : (i : Instr) (o : Operands) → Keeps P (exec_system bus mem_all_access i o)
  unfolding exec_system
  exec_system-Keeps Instr.ecall o = exec_ecall-Keeps closed
  exec_system-Keeps _ o =
      search
        (
          parts, exec_ebreak-Keeps, exec_sret-Keeps, exec_mret-Keeps, exec_wfi-Keeps,
          csr_access-Keeps,
        )
        depth 6

  exec_group-Keeps :
      (g : Group) (i : Instr) (o : Operands) → Keeps P (exec_group bus mem_all_access g i o)
  unfolding exec_group
  exec_group-Keeps Group.alu i o = exec_alu-Keeps closed i o
  exec_group-Keeps Group.jump i o = exec_jump-Keeps closed i o
  exec_group-Keeps Group.memory i o = exec_memory-Keeps i o
  exec_group-Keeps Group.amo i o = exec_amo-Keeps i o
  exec_group-Keeps Group.system i o = exec_system-Keeps i o

  pub exec-Keeps : (i : Instr) (o : Operands) → Keeps P (exec bus mem_all_access i o)
  unfolding exec
  exec-Keeps i o = exec_group-Keeps _ i o

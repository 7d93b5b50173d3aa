-- ===== src/Isa/Mips32Laws.antt =====
-- The instructions of src/isa/mips32/inst.c.
use gs_emu.Base.{ℕ, ◌≡◌, some, Option-cases, inl, inr, arith}
use gs_emu.Bus.{Bus}
use gs_emu.Riscv.Operand.{Operands}
use gs_emu.Isa.Core.{Cpu, select}
use gs_emu.Isa.CoreLaws.{
  Kept, Sequential, set_gpr-Kept, nemutrap-Kept, mw-Kept, load_gpr-Kept, invalid_inst-Kept,
  fetch_and_run-Sequential,
}
use gs_emu.Isa.Mips32.{Instr, instpats, decode_operand, exec, exec_inst, isa_exec_once}

module _ (bus : Bus) where
  exec-Kept :
      (i : Instr) (o : Operands) (c d : Cpu bus.State) → exec bus i o c ≡ some d → Kept o.rd c d
  unfolding exec
  exec-Kept Instr.lui o c d e = set_gpr-Kept o.rd _ c d e
  exec-Kept Instr.lw o c d e = load_gpr-Kept bus o.rd _ c d e
  exec-Kept Instr.sw o c d e = mw-Kept bus o.rd _ _ c d e
  exec-Kept Instr.sdbbp o c d e = nemutrap-Kept o.rd _ _ c d e
  exec-Kept Instr.inv o c d e = invalid_inst-Kept bus o.rd _ c d e

  exec_inst-Kept : (c d : Cpu bus.State) → exec_inst bus c ≡ some d → (r : ℕ) × Kept r c d
  unfolding exec_inst
  exec_inst-Kept c d e = elim (Option-cases (select instpats c.s.inst)) [
    | inl bad ↦ ground arith
    | inr (r, good) ↦
        let o = decode_operand c.gpr c.s.inst r.operand_type in
        (o.rd, exec-Kept r.name o c d (rw (exec_inst, good) at e))
  ]

  -- An instruction that returns is followed by the one behind it.
  pub mips32-Sequential :
      (c d : Cpu bus.State) → isa_exec_once bus c ≡ some d → (r : ℕ) × Sequential r c d
  unfolding isa_exec_once
  mips32-Sequential c d e = fetch_and_run-Sequential bus (exec_inst bus) c d exec_inst-Kept e

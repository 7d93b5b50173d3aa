-- ===== src/Riscv/Trap.antt =====
-- src/isa/riscv32/inst.c: what `decode_exec` does after the body of the row, and the macro
-- `illegal_instruction`, the entry of a trap.
use gs_emu.Base.{
  ℕ, ◌*◌, ◌^◌, bit_and, bit_or, Bool, ◌&&◌, ◌||◌, not, none, some, ltb, leb, ◌==◌, if◌then◌else◌,
}
use gs_emu.Word.{u32, not32}
use gs_emu.Bus.{Bus}
use gs_emu.Riscv.Csr.{
  csr_mstatus, csr_mcause, csr_mepc, csr_mtval, csr_mtvec, csr_misa, csr_medeleg, csr_scause,
  csr_sepc, csr_stval, csr_stvec, csr_sstatus, status_mpp, status_sie, status_spie, status_spp,
}
use gs_emu.Riscv.Machine.{
  Cmd, Machine, ◌>>=◌, ◌>>◌, skip, get_s, get_gpr, set_gpr, get_csr, set_csr, get_csr_field,
  set_csr_field, get_cur_pri, set_cur_pri, recy_exception, dnpc_and_check, nemutrap, prv_s,
  excp_none, excp_u_ecall, excp_m_ecall,
}
use gs_emu.Riscv.Operand.{decode_operand}
use gs_emu.Riscv.Instr.{select, instpats}
use gs_emu.Riscv.Exec.{exec}

module _ {B : Type 0} where
  unfoldable pub get_exception : Cmd B ℕ
  get_exception m = some (m.exception, m)

  unfoldable pub get_exception_tval : Cmd B ℕ
  get_exception_tval m = some (m.exception_tval, m)

  -- The three assignments that keep the interrupt enable: MPIE goes to 0 and then to MIE, MIE to 0.
  unfoldable pub save_mie : Cmd B (Unit {0})
  save_mie = do
    a ← get_csr csr_mstatus
    set_csr csr_mstatus (bit_and a (not32 0x80))
    b ← get_csr csr_mstatus
    set_csr csr_mstatus (bit_or (bit_and b 0x8 * 2 ^ 4) b)
    c ← get_csr csr_mstatus
    set_csr csr_mstatus (bit_and c (not32 0x8))

  -- The `switch` on `R(17)`: both of its cases stop the emulator.
  unfoldable pub ecall_exit : Cmd B (Unit {0})
  ecall_exit = do
    s ← get_s
    call ← get_gpr 17
    ret ← get_gpr 10
    if call == 93 || call == 0x5352_5354 then nemutrap s.pc ret else skip

  -- `illegal_instruction(have_RISCVException, RISCVException_tval)`. The exception is read anew at
  -- each place where the macro names it, and `dnpc_and_check` may have changed it.
  unfoldable pub illegal_instruction : Cmd B (Unit {0})
  illegal_instruction = do
    p ← get_cur_pri
    t ← get_csr csr_mstatus
    set_csr csr_mstatus (bit_or (bit_and t (not32 status_mpp)) (u32 (p * 2 ^ 11)))
    cause ← get_exception
    set_csr csr_mcause cause
    s ← get_s
    set_csr csr_mepc s.pc
    tval ← get_exception_tval
    set_csr csr_mtval tval
    save_mie
    tvec ← get_csr csr_mtvec
    dnpc_and_check tvec
    now ← get_exception
    if ltb now excp_u_ecall || ltb excp_m_ecall now then skip else ecall_exit

  -- The branch for a delegated exception.
  unfoldable pub supervisor_trap : Cmd B (Unit {0})
  supervisor_trap = do
    cause ← get_exception
    set_csr csr_scause cause
    s ← get_s
    set_csr csr_sepc s.pc
    tval ← get_exception_tval
    set_csr csr_stval tval
    a ← get_csr_field csr_sstatus status_sie
    set_csr_field csr_sstatus status_spie a
    b ← get_csr_field csr_mstatus status_sie
    set_csr_field csr_mstatus status_spie b
    set_csr_field csr_sstatus status_sie 0
    tvec ← get_csr csr_stvec
    dnpc_and_check tvec
    p ← get_cur_pri
    set_csr_field csr_sstatus status_spp p
    set_cur_pri prv_s
    set_csr_field csr_mstatus status_spp prv_s
    recy_exception

  -- `cur_pri <= PRV_S && csr(CSR_MEDELEG) & (1 << have_RISCVException)`.
  unfoldable pub is_delegated : Machine B → ℕ → Bool
  is_delegated m medeleg = leb m.cur_pri prv_s && not (bit_and medeleg (2 ^ m.exception) == 0)

  unfoldable pub take_exception : Cmd B (Unit {0})
  take_exception = do
    cause ← get_exception
    d ← get_csr csr_medeleg
    if cause == excp_none then skip else (λ m.
        (if is_delegated m d then supervisor_trap else (do illegal_instruction; recy_exception)) m)

  -- `R(0) = 0; csr(CSR_MISA) &= ~0x4`.
  unfoldable pub reset_zero : Cmd B (Unit {0})
  reset_zero = do set_gpr 0 0; t ← get_csr csr_misa; set_csr csr_misa (bit_and t (not32 0x4))

module _ (bus : Bus) (mem_all_access : Bool) where
  -- `INSTPAT_START` to `INSTPAT_END`.
  unfoldable pub run_row : Cmd bus.State (Unit {0})
  run_row = do
    s ← get_s
    elim (select instpats s.inst) [
      | none ↦ λ m. none
      | some r ↦ do o ← decode_operand s.inst r.operand_type; exec bus mem_all_access r.name o
    ]

  unfoldable pub decode_exec : Cmd bus.State (Unit {0})
  decode_exec = do s ← get_s; dnpc_and_check s.snpc; run_row; reset_zero; take_exception

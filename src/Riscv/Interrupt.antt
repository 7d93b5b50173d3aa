-- ===== src/Riscv/Interrupt.antt =====
-- src/isa/riscv32/inst.c: `find_irq_type_val`, `irp_and` and `isa_exec_once`; include/cpu/ifetch.h.
use gs_emu.Base.{
  ℕ, zero, suc, ◌+◌, ◌*◌, ◌%◌, ◌^◌, bit_and, bit_or, Bool, true, false, ◌&&◌, not, Option, none,
  some, ltb, ◌==◌, if◌then◌else◌,
}
use gs_emu.Word.{u32, u64, not32, sub32}
use gs_emu.Bus.{Bus}
use gs_emu.Riscv.Csr.{
  csr_mip, csr_mie, csr_mstatus, csr_mideleg, csr_sstatus, csr_sie, csr_sip, csr_mcause, csr_mepc,
  csr_mtvec, status_mie, status_mpie, status_mpp, mip_mtip,
}
use gs_emu.Riscv.Machine.{
  Machine, Cmd, pure, skip, ◌>>=◌, ◌>>◌, get_s, get_csr, set_csr, get_csr_field, set_csr_field,
  get_cur_pri, set_cur_pri, dnpc_and_check, vaddr_read, mr, prv_s, prv_m,
}
use gs_emu.Riscv.Exec.{clint_mmio, mtimelo, mtimehi, mtimecmplo, mtimecmphi}
use gs_emu.Riscv.Trap.{decode_exec}

abbrev pub no_irq : ℕ
no_irq = 0xffff_ffff

-- The `while` of `find_irq_type_val`, with fuel; `none` means that the fuel ran out.
unfoldable pub irq_loop : ℕ → ℕ → ℕ → Option ℕ
irq_loop zero x y = none
irq_loop (suc fuel) x y =
    let rest = irq_loop fuel (x + 1) (u32 (y * 2)) in
    if y == 0
    then some no_irq
    else if bit_and y 0x8000_0000 == 0x8000_0000 && not (sub32 31 x % 2 == 0)
    then some (sub32 31 x)
    else rest

-- `x = XLEN - 12; y <<= x`. The word is empty after 32 shifts at most.
unfoldable pub find_irq_type_val : ℕ → Option ℕ
find_irq_type_val y = irq_loop 33 20 (u32 (y * 2 ^ 20))

module _ {B : Type 0} where
  -- `cause`, `epc`, the vector, the interrupt enable and the mode.
  unfoldable pub enter_interrupt : ℕ → Cmd B (Unit {0})
  enter_interrupt irq = do
    set_csr csr_mcause (bit_or irq 0x8000_0000)
    s ← get_s
    set_csr csr_mepc s.pc
    tvec ← get_csr csr_mtvec
    vectored ← get_csr_field csr_mtvec 0x1
    dnpc_and_check (u64 (tvec + sub32 (u32 (4 * irq)) 1 * vectored))
    mie ← get_csr_field csr_mstatus status_mie
    set_csr_field csr_mstatus status_mpie mie
    t ← get_csr csr_mstatus
    set_csr csr_mstatus (bit_and t (not32 status_mie))
    p ← get_cur_pri
    set_csr_field csr_mstatus status_mpp p
    set_cur_pri prv_m

  -- `csr(CSR_MIDELEG) != 0 && cur_pri == PRV_S && (csr(CSR_SSTATUS) & 0x8)` with a pending S
  -- interrupt: the early `return 1`. The other branches of that `if` only print.
  unfoldable pub is_supervisor_irq : Cmd B Bool
  is_supervisor_irq = do
    mideleg ← get_csr csr_mideleg
    p ← get_cur_pri
    sstatus ← get_csr csr_sstatus
    sie ← get_csr csr_sie
    sip ← get_csr csr_sip
    pure (
        not (mideleg == 0)
        && ((p == prv_s && not (bit_and sstatus 0x8 == 0))
            && not (bit_and (bit_and sie sip) 0x0aaa == 0)))

  -- The two ways to `return 1`.
  unfoldable pub take_irq : Bool → ℕ → Cmd B Bool
  take_irq super irq =
      if super
      then pure true
      else if irq == no_irq
      then pure false
      else (do enter_interrupt irq; pure true)

  unfoldable pub take_found : Bool → Option ℕ → Cmd B Bool
  take_found super none = λ m. none
  take_found super (some irq) = take_irq super irq

  unfoldable pub check_interrupts : Cmd B Bool
  check_interrupts = do
    mstatus ← get_csr csr_mstatus
    mie ← get_csr csr_mie
    mip ← get_csr csr_mip
    super ← is_supervisor_irq
    if bit_and mstatus 0x8 == 0
        then pure false
        else take_found super (find_irq_type_val (bit_and (bit_and mie mip) 0x0aaa))

-- `(*pc) += len`, and the word that goes to `s->isa.inst.val`.
abbrev pub fetched : {B : Type 0} → Machine B → ℕ → Machine B
fetched m v = record m { s = record (m.s) { snpc = u32 (m.s.snpc + 4); inst = v } }

module _ (bus : Bus) (mem_all_access : Bool) where
  abbrev clint : ℕ → Cmd bus.State ℕ
  clint offset = mr bus mem_all_access (clint_mmio + offset) 4

  -- `Mr(MTIMEHI) > Mr(MTIMECMPHI) || Mr(MTIMELO) > Mr(MTIMECMPLO)`.
  unfoldable pub timer_test : Cmd bus.State Bool
  timer_test = do
    hi ← clint mtimehi
    cmphi ← clint mtimecmphi
    if ltb cmphi hi
        then pure true
        else (do lo ← clint mtimelo; cmplo ← clint mtimecmplo; pure (ltb cmplo lo))

  -- `irp_and`: whether an interrupt took the place of the instruction.
  unfoldable pub irp_and : Cmd bus.State Bool
  irp_and = do
    timer ← timer_test
    set_csr_field csr_mip mip_mtip (if timer then 1 else 0)
    check_interrupts

  -- `inst_fetch(&s->snpc, 4)`.
  unfoldable pub inst_fetch : Cmd bus.State (Unit {0})
  inst_fetch = do s ← get_s; v ← vaddr_read bus mem_all_access s.snpc 4; λ m. some (tt, fetched m v)

  unfoldable pub isa_exec_once : Cmd bus.State (Unit {0})
  isa_exec_once = do
    inst_fetch
    taken ← irp_and
    if taken then skip else decode_exec bus mem_all_access

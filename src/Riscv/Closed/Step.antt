-- ===== src/Riscv/Closed/Step.antt =====
-- The whole instruction.
use gs_emu.Base.{ℕ, ◌≡◌, Option-cases, inl, inr, Bool, Option, none, some}
use gs_emu.Bus.{Bus}
use gs_emu.Riscv.Machine.{Machine, ◌>>=◌, get_s, vaddr_read}
use gs_emu.Riscv.Operand.{decode_operand}
use gs_emu.Riscv.Instr.{Row, select, instpats}
use gs_emu.Riscv.Exec.{exec}
use gs_emu.Riscv.Trap.{
  get_exception, get_exception_tval, save_mie, ecall_exit, illegal_instruction, supervisor_trap,
  take_exception, reset_zero, run_row, decode_exec,
}
use gs_emu.Riscv.Interrupt.{
  enter_interrupt, take_irq, take_found, is_supervisor_irq, check_interrupts, timer_test, irp_and,
  inst_fetch, fetched, isa_exec_once,
}
use gs_emu.Riscv.Keeps.{Keeps, keeps, Keeps-bind, Keeps-none, Keeps-state}
use gs_emu.Riscv.Closed.Primitives.{Closed, ClosedBus, parts, get_s-Keeps}
use gs_emu.Riscv.Closed.Instructions.{decode_operand-Keeps, exec-Keeps}

module _ (bus : Bus) (mem_all_access : Bool) where
  pub vaddr_read-some :
      (a n v : ℕ) (m : Machine bus.State) (b : bus.State)
      → bus.read a n m.bus ≡ some (v, b)
      → vaddr_read bus mem_all_access a n m ≡ some (v, record m { bus = b })
  unfolding vaddr_read
  vaddr_read-some a n v m b h = rw (h, vaddr_read)

  pub vaddr_read-none :
      (a n : ℕ) (m : Machine bus.State)
      → bus.read a n m.bus ≡ none
      → vaddr_read bus mem_all_access a n m ≡ none
  unfolding vaddr_read
  vaddr_read-none a n m h = rw (h, vaddr_read)

  pub inst_fetch-some :
      (v : ℕ) (m : Machine bus.State) (b : bus.State)
      → bus.read m.s.snpc 4 m.bus ≡ some (v, b)
      → inst_fetch bus mem_all_access m ≡ some (tt, fetched (record m { bus = b }) v)
  unfolding inst_fetch ◌>>=◌ get_s
  inst_fetch-some v m b h = rw (vaddr_read-some m.s.snpc 4 v m b h, ◌>>=◌)

  pub inst_fetch-none :
      (m : Machine bus.State)
      → bus.read m.s.snpc 4 m.bus ≡ none
      → inst_fetch bus mem_all_access m ≡ none
  unfolding inst_fetch ◌>>=◌ get_s
  inst_fetch-none m h = rw (vaddr_read-none m.s.snpc 4 m h, ◌>>=◌)

module _ {B : Type 0} {P : Machine B → Type 0} (closed : Closed P) where
  get_exception-Keeps : Keeps P get_exception
  unfolding get_exception
  get_exception-Keeps = keeps λ m h. h

  get_exception_tval-Keeps : Keeps P get_exception_tval
  unfolding get_exception_tval
  get_exception_tval-Keeps = keeps λ m h. h

  save_mie-Keeps : Keeps P save_mie
  unfolding save_mie
  save_mie-Keeps = search parts depth 16

  ecall_exit-Keeps : Keeps P ecall_exit
  unfolding ecall_exit
  ecall_exit-Keeps = search parts depth 16

  illegal_instruction-Keeps : Keeps P illegal_instruction
  unfolding illegal_instruction
  illegal_instruction-Keeps =
      search
        (parts, get_exception-Keeps, get_exception_tval-Keeps, save_mie-Keeps, ecall_exit-Keeps)
        depth 32

  supervisor_trap-Keeps : Keeps P supervisor_trap
  unfolding supervisor_trap
  supervisor_trap-Keeps = search (parts, get_exception-Keeps, get_exception_tval-Keeps) depth 40

  take_exception-Keeps : Keeps P take_exception
  unfolding take_exception
  take_exception-Keeps =
      search
        (parts, get_exception-Keeps, Keeps-state, supervisor_trap-Keeps, illegal_instruction-Keeps)
        depth 12

  reset_zero-Keeps : Keeps P reset_zero
  unfolding reset_zero
  reset_zero-Keeps = search parts depth 12

  enter_interrupt-Keeps : (irq : ℕ) → Keeps P (enter_interrupt irq)
  unfolding enter_interrupt
  enter_interrupt-Keeps irq = search parts depth 40

  is_supervisor_irq-Keeps : Keeps P is_supervisor_irq
  unfolding is_supervisor_irq
  is_supervisor_irq-Keeps = search parts depth 16

  take_irq-Keeps : (b : Bool) (i : ℕ) → Keeps P (take_irq b i)
  unfolding take_irq
  take_irq-Keeps b i = search (parts, enter_interrupt-Keeps)

  take_found-Keeps : (b : Bool) (r : Option ℕ) → Keeps P (take_found b r)
  unfolding take_found
  take_found-Keeps b none = Keeps-none
  take_found-Keeps b (some irq) = take_irq-Keeps b irq

  pub check_interrupts-Keeps : Keeps P check_interrupts
  unfolding check_interrupts
  check_interrupts-Keeps = search (parts, is_supervisor_irq-Keeps, take_found-Keeps) depth 20

module _ (bus : Bus) (mem_all_access : Bool) {P : Machine bus.State → Type 0} (closed : Closed P)
    (closed_bus : ClosedBus bus P) where
  row_case :
      (inst : ℕ) (r : Option Row)
      → Keeps P (elim r [
        | none ↦ λ m. none
        | some r ↦ do o ← decode_operand inst r.operand_type; exec bus mem_all_access r.name o
      ])
  row_case inst none = Keeps-none
  row_case inst (some r) = search (parts, decode_operand-Keeps, exec-Keeps)

  run_row-Keeps : Keeps P (run_row bus mem_all_access)
  unfolding run_row
  run_row-Keeps = Keeps-bind get_s-Keeps λ s. row_case s.inst (select instpats s.inst)

  pub decode_exec-Keeps : Keeps P (decode_exec bus mem_all_access)
  unfolding decode_exec
  decode_exec-Keeps = search (parts, run_row-Keeps, reset_zero-Keeps, take_exception-Keeps) depth 12

  timer_test-Keeps : Keeps P (timer_test bus mem_all_access)
  unfolding timer_test
  timer_test-Keeps = search parts depth 12

  irp_and-Keeps : Keeps P (irp_and bus mem_all_access)
  unfolding irp_and
  irp_and-Keeps = search (parts, timer_test-Keeps, check_interrupts-Keeps) depth 12

  inst_fetch-Keeps : Keeps P (inst_fetch bus mem_all_access)
  inst_fetch-Keeps = keeps λ m h. elim (Option-cases (bus.read m.s.snpc 4 m.bus)) [
    | inl bad ↦ rw (inst_fetch-none bus mem_all_access m bad) tt
    | inr ((v, b), good) ↦
        let small = bus.read_lt m.s.snpc 4 v m.bus b good in
        let read = closed_bus.on_read m.s.snpc 4 v m b h good in
        rw (inst_fetch-some bus mem_all_access v m b good)
          (closed_bus.on_fetch (record m { bus = b }) v small read)
  ]

  pub isa_exec_once-Keeps : Keeps P (isa_exec_once bus mem_all_access)
  unfolding isa_exec_once
  isa_exec_once-Keeps = search (parts, inst_fetch-Keeps, irp_and-Keeps, decode_exec-Keeps) depth 12

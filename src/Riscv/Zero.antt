-- ===== src/Riscv/Zero.antt =====
-- `R(0)` is 0 after every instruction: the body of a row may write it, `decode_exec` resets it.
use gs_emu.Base.{ℕ, ◌≡◌, refl, Bool, Option, none, some, Option-cases, inl, inr}
use gs_emu.Bus.{Bus}
use gs_emu.Riscv.Machine.{
  Machine, RunState, get_gpr, set_gpr, get_csr, set_csr, get_csr_field, set_csr_field, get_cur_pri,
  set_cur_pri, get_s, set_dnpc, trap_peek_exception, recy_exception, dnpc_and_check, set_nemu_state,
  nemutrap, vaddr_read, mr,
}
use gs_emu.Riscv.Trap.{
  get_exception, get_exception_tval, save_mie, ecall_exit, illegal_instruction, supervisor_trap,
  take_exception, reset_zero, decode_exec,
}
use gs_emu.Riscv.Interrupt.{
  enter_interrupt, is_supervisor_irq, take_irq, take_found, check_interrupts, timer_test, irp_and,
  inst_fetch, isa_exec_once,
}
use gs_emu.Riscv.Keeps.{
  Keeps, keeps, After-some, Keeps-run, Keeps-none, Keeps-state, blocks, Makes, makes, Makes-then,
  Makes-keep, Keeps-of_Makes,
}
use gs_emu.Riscv.Closed.Step.{vaddr_read-some, vaddr_read-none, inst_fetch-some, inst_fetch-none}

abbrev pub IsZero : {B : Type 0} → Machine B → Type 0
IsZero m = m.gpr 0 ≡ 0

module _ {B : Type 0} where
  set_csr-IsZero : (i v : ℕ) → Keeps (IsZero {B = B}) (set_csr i v)
  unfolding set_csr
  set_csr-IsZero i v = keeps λ m h. h

  set_cur_pri-IsZero : (v : ℕ) → Keeps (IsZero {B = B}) (set_cur_pri v)
  unfolding set_cur_pri
  set_cur_pri-IsZero v = keeps λ m h. h

  set_dnpc-IsZero : (v : ℕ) → Keeps (IsZero {B = B}) (set_dnpc v)
  unfolding set_dnpc
  set_dnpc-IsZero v = keeps λ m h. h

  trap_peek_exception-IsZero : (x y : ℕ) → Keeps (IsZero {B = B}) (trap_peek_exception x y)
  unfolding trap_peek_exception
  trap_peek_exception-IsZero x y = keeps λ m h. h

  get_gpr-IsZero : (i : ℕ) → Keeps (IsZero {B = B}) (get_gpr i)
  unfolding get_gpr
  get_gpr-IsZero i = keeps λ m h. h

  get_csr-IsZero : (i : ℕ) → Keeps (IsZero {B = B}) (get_csr i)
  unfolding get_csr
  get_csr-IsZero i = keeps λ m h. h

  get_cur_pri-IsZero : Keeps (IsZero {B = B}) get_cur_pri
  unfolding get_cur_pri
  get_cur_pri-IsZero = keeps λ m h. h

  get_s-IsZero : Keeps (IsZero {B = B}) get_s
  unfolding get_s
  get_s-IsZero = keeps λ m h. h

  get_exception-IsZero : Keeps (IsZero {B = B}) get_exception
  unfolding get_exception
  get_exception-IsZero = keeps λ m h. h

  get_exception_tval-IsZero : Keeps (IsZero {B = B}) get_exception_tval
  unfolding get_exception_tval
  get_exception_tval-IsZero = keeps λ m h. h

  set_nemu_state-IsZero : (st : RunState) (a b : ℕ) → Keeps (IsZero {B = B}) (set_nemu_state st a b)
  unfolding set_nemu_state
  set_nemu_state-IsZero st a b = keeps λ m h. h

ruleset simple = (
  blocks, set_csr-IsZero, set_cur_pri-IsZero, set_dnpc-IsZero, trap_peek_exception-IsZero,
  get_gpr-IsZero, get_csr-IsZero, get_cur_pri-IsZero, get_s-IsZero, get_exception-IsZero,
  get_exception_tval-IsZero, set_nemu_state-IsZero,
)

module _ {B : Type 0} where
  get_csr_field-IsZero : (i k : ℕ) → Keeps (IsZero {B = B}) (get_csr_field i k)
  unfolding get_csr_field
  get_csr_field-IsZero i k = search simple

  set_csr_field-IsZero : (i k v : ℕ) → Keeps (IsZero {B = B}) (set_csr_field i k v)
  unfolding set_csr_field
  set_csr_field-IsZero i k v = search simple

  recy_exception-IsZero : Keeps (IsZero {B = B}) recy_exception
  unfolding recy_exception
  recy_exception-IsZero = search simple

  dnpc_and_check-IsZero : (t : ℕ) → Keeps (IsZero {B = B}) (dnpc_and_check t)
  unfolding dnpc_and_check
  dnpc_and_check-IsZero t = search simple

  nemutrap-IsZero : (a b : ℕ) → Keeps (IsZero {B = B}) (nemutrap a b)
  unfolding nemutrap
  nemutrap-IsZero a b = search simple

ruleset zeros = (
  simple, get_csr_field-IsZero, set_csr_field-IsZero, recy_exception-IsZero, dnpc_and_check-IsZero,
  nemutrap-IsZero,
)

module _ {B : Type 0} where
  save_mie-IsZero : Keeps (IsZero {B = B}) save_mie
  unfolding save_mie
  save_mie-IsZero = search zeros depth 16

  ecall_exit-IsZero : Keeps (IsZero {B = B}) ecall_exit
  unfolding ecall_exit
  ecall_exit-IsZero = search zeros depth 16

  illegal_instruction-IsZero : Keeps (IsZero {B = B}) illegal_instruction
  unfolding illegal_instruction
  illegal_instruction-IsZero = search (zeros, save_mie-IsZero, ecall_exit-IsZero) depth 32

  supervisor_trap-IsZero : Keeps (IsZero {B = B}) supervisor_trap
  unfolding supervisor_trap
  supervisor_trap-IsZero = search zeros depth 40

  take_exception-IsZero : Keeps (IsZero {B = B}) take_exception
  unfolding take_exception
  take_exception-IsZero =
      search (zeros, Keeps-state, supervisor_trap-IsZero, illegal_instruction-IsZero) depth 12

  enter_interrupt-IsZero : (irq : ℕ) → Keeps (IsZero {B = B}) (enter_interrupt irq)
  unfolding enter_interrupt
  enter_interrupt-IsZero irq = search zeros depth 40

  take_irq-IsZero : (b : Bool) (i : ℕ) → Keeps (IsZero {B = B}) (take_irq b i)
  unfolding take_irq
  take_irq-IsZero b i = search (zeros, enter_interrupt-IsZero)

  take_found-IsZero : (b : Bool) (r : Option ℕ) → Keeps (IsZero {B = B}) (take_found b r)
  unfolding take_found
  take_found-IsZero b none = Keeps-none
  take_found-IsZero b (some irq) = take_irq-IsZero b irq

  is_supervisor_irq-IsZero : Keeps (IsZero {B = B}) is_supervisor_irq
  unfolding is_supervisor_irq
  is_supervisor_irq-IsZero = search zeros depth 16

  check_interrupts-IsZero : Keeps (IsZero {B = B}) check_interrupts
  unfolding check_interrupts
  check_interrupts-IsZero = search (zeros, is_supervisor_irq-IsZero, take_found-IsZero) depth 20

  reset_zero-IsZero : Makes (IsZero {B = B}) reset_zero
  unfolding reset_zero
  reset_zero-IsZero = Makes-keep set_zero λ u. search zeros depth 8
    where
      set_zero : Makes (IsZero {B = B}) (set_gpr 0 0)
      set_zero = makes λ m. unfold set_gpr in refl

module _ (bus : Bus) (mem_all_access : Bool) where
  decode_exec-IsZero : Makes (IsZero {B = bus.State}) (decode_exec bus mem_all_access)
  unfolding decode_exec
  decode_exec-IsZero = Makes-then _ λ s.
      Makes-then _ λ u. Makes-then _ λ v. Makes-keep reset_zero-IsZero λ w. take_exception-IsZero

  vaddr_read-IsZero : (a n : ℕ) → Keeps (IsZero {B = bus.State}) (vaddr_read bus mem_all_access a n)
  vaddr_read-IsZero a n = keeps λ m h. elim (Option-cases (bus.read a n m.bus)) [
    | inl bad ↦ rw (vaddr_read-none bus mem_all_access a n m bad) tt
    | inr ((v, b), good) ↦ rw (vaddr_read-some bus mem_all_access a n v m b good) h
  ]

  mr-IsZero : (a n : ℕ) → Keeps (IsZero {B = bus.State}) (mr bus mem_all_access a n)
  unfolding mr
  mr-IsZero a n = search (zeros, vaddr_read-IsZero)

  timer_test-IsZero : Keeps (IsZero {B = bus.State}) (timer_test bus mem_all_access)
  unfolding timer_test
  timer_test-IsZero = search (zeros, mr-IsZero) depth 12

  irp_and-IsZero : Keeps (IsZero {B = bus.State}) (irp_and bus mem_all_access)
  unfolding irp_and
  irp_and-IsZero = search (zeros, timer_test-IsZero, check_interrupts-IsZero) depth 12

  inst_fetch-IsZero : Keeps (IsZero {B = bus.State}) (inst_fetch bus mem_all_access)
  inst_fetch-IsZero = keeps λ m h. elim (Option-cases (bus.read m.s.snpc 4 m.bus)) [
    | inl bad ↦ rw (inst_fetch-none bus mem_all_access m bad) tt
    | inr ((v, b), good) ↦ rw (inst_fetch-some bus mem_all_access v m b good) h
  ]

  isa_exec_once-Keeps : Keeps (IsZero {B = bus.State}) (isa_exec_once bus mem_all_access)
  unfolding isa_exec_once
  isa_exec_once-Keeps =
      search (zeros, inst_fetch-IsZero, irp_and-IsZero, Keeps-of_Makes decode_exec-IsZero) depth 12

  -- Register 0 holds 0 after one instruction, or the interrupt that takes its place, when it
  -- held 0 before and no assertion fails, whatever register the instruction names as its
  -- destination.
  pub isa_exec_once-IsZero :
      (m t : Machine bus.State)
      → IsZero m
      → isa_exec_once bus mem_all_access m ≡ some (tt, t)
      → IsZero t
  isa_exec_once-IsZero m t h e = After-some IsZero e (Keeps-run isa_exec_once-Keeps m h)

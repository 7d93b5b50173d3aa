-- ===== src/Riscv/OnBus.antt =====
-- What the memory side keeps through every instruction of src/isa/riscv32/inst.c, when reads and
-- writes keep it.
use gs_emu.Base.{ℕ, ◌≡◌, Bool, some}
use gs_emu.Bus.{Bus}
use gs_emu.Riscv.Machine.{
  Machine, set_gpr, set_csr, set_cur_pri, set_dnpc, trap_peek_exception, set_nemu_state, insert_amw,
  delete_amw,
}
use gs_emu.Riscv.Interrupt.{isa_exec_once}
use gs_emu.Riscv.Keeps.{keeps, After-some, Keeps-run}
use gs_emu.Riscv.Closed.Primitives.{Closed, ClosedBus}
use gs_emu.Riscv.Closed.Step.{isa_exec_once-Keeps}

-- Reads and writes that succeed keep the property.
pub record BusKeeps (bus : Bus) (Q : bus.State → Type 0) : Type 0 where
  pub reads : (a n v : ℕ) (s t : bus.State) → Q s → bus.read a n s ≡ some (v, t) → Q t
  pub writes : (a n v : ℕ) (s t : bus.State) → Q s → bus.write a n v s ≡ some t → Q t

pub bus-Closed : {B : Type 0} (Q : B → Type 0) → Closed (λ (m : Machine B). Q m.bus)
unfolding set_gpr set_csr set_cur_pri set_dnpc trap_peek_exception set_nemu_state insert_amw
    delete_amw
bus-Closed Q = record {
  on_gpr = λ i v. keeps λ m h. h;
  on_csr = λ i v. keeps λ m h. h;
  on_cur_pri = λ v. keeps λ m h. h;
  on_dnpc = λ v. keeps λ m h. h;
  on_exception = λ x y. keeps λ m h. h;
  on_nemu_state = λ st a b. keeps λ m h. h;
  on_insert = λ w. keeps λ m h. h;
  on_delete = λ w. keeps λ m h. h;
}

module _ (bus : Bus) (Q : bus.State → Type 0) (k : BusKeeps bus Q) where
  pub bus-ClosedBus : ClosedBus bus (λ m. Q m.bus)
  bus-ClosedBus = record {
    on_read = λ a n v m b h e. k.reads a n v m.bus b h e;
    on_write = λ a n v m b h e. k.writes a n v m.bus b h e;
    on_fetch = λ m v l h. h;
  }

  -- One instruction keeps what all reads and writes of the bus keep.
  pub isa_exec_once-keeps_bus :
      (mem_all_access : Bool) (m t : Machine bus.State)
      → Q m.bus
      → isa_exec_once bus mem_all_access m ≡ some (tt, t)
      → Q t.bus
  isa_exec_once-keeps_bus mem_all_access m t h e =
      After-some (λ m. Q m.bus) e
        (Keeps-run (isa_exec_once-Keeps bus mem_all_access (bus-Closed Q) bus-ClosedBus) m h)

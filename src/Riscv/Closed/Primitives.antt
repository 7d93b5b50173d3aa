-- ===== src/Riscv/Closed/Primitives.antt =====
-- Properties of the machine that every part of its commands keeps, and the commands of
-- src/isa/riscv32/inst.c that are put together from one or two parts.
use gs_emu.Base.{ℕ, ◌^◌, ◌<◌, ◌≡◌, Bool, some, Option-cases, inl, inr}
use gs_emu.Bus.{Bus}
use gs_emu.Riscv.Machine.{
  Machine, RunState, get_gpr, set_gpr, get_csr, set_csr, get_csr_field, set_csr_field, get_cur_pri,
  set_cur_pri, get_s, set_dnpc, trap_peek_exception, recy_exception, dnpc_and_check, set_nemu_state,
  nemutrap, insert_amw, delete_amw, search_amw, vaddr_read, vaddr_write, mr, mw,
}
use gs_emu.Riscv.Interrupt.{fetched}
use gs_emu.Riscv.Keeps.{Keeps, keeps, After, blocks}

-- The commands that write a part of the state keep the property.
pub record Closed {B : Type 0} (P : Machine B → Type 0) : Type 0 where
  pub on_gpr : (i v : ℕ) → Keeps P (set_gpr i v)
  pub on_csr : (i v : ℕ) → Keeps P (set_csr i v)
  pub on_cur_pri : (v : ℕ) → Keeps P (set_cur_pri v)
  pub on_dnpc : (v : ℕ) → Keeps P (set_dnpc v)
  pub on_exception : (x y : ℕ) → Keeps P (trap_peek_exception x y)
  pub on_nemu_state : (st : RunState) (a b : ℕ) → Keeps P (set_nemu_state st a b)
  pub on_insert : (w : ℕ) → Keeps P (insert_amw w)
  pub on_delete : (w : ℕ) → Keeps P (delete_amw w)

-- A read, a write and the fetch of a word keep it.
pub record ClosedBus (bus : Bus) (P : Machine bus.State → Type 0) : Type 0 where
  pub on_read :
      (a n v : ℕ) (m : Machine bus.State) (b : bus.State)
      → P m
      → bus.read a n m.bus ≡ some (v, b)
      → P (record m { bus = b })
  pub on_write :
      (a n v : ℕ) (m : Machine bus.State) (b : bus.State)
      → P m
      → bus.write a n v m.bus ≡ some b
      → P (record m { bus = b })
  pub on_fetch : (m : Machine bus.State) (v : ℕ) → v < 2 ^ 32 → P m → P (fetched m v)

-- A command that only reads the registers keeps every property.
module _ {B : Type 0} {P : Machine B → Type 0} where
  pub get_gpr-Keeps : (i : ℕ) → Keeps P (get_gpr i)
  unfolding get_gpr
  get_gpr-Keeps i = keeps λ m h. h

  pub get_csr-Keeps : (i : ℕ) → Keeps P (get_csr i)
  unfolding get_csr
  get_csr-Keeps i = keeps λ m h. h

  pub get_cur_pri-Keeps : Keeps P get_cur_pri
  unfolding get_cur_pri
  get_cur_pri-Keeps = keeps λ m h. h

  pub get_s-Keeps : Keeps P get_s
  unfolding get_s
  get_s-Keeps = keeps λ m h. h

  pub search_amw-Keeps : (w : ℕ) → Keeps P (search_amw w)
  unfolding search_amw
  search_amw-Keeps w = keeps λ m h. h

module _ {B : Type 0} {P : Machine B → Type 0} (closed : Closed P) where
  pub set_gpr-Keeps : (i v : ℕ) → Keeps P (set_gpr i v)
  set_gpr-Keeps = closed.on_gpr

  pub set_csr-Keeps : (i v : ℕ) → Keeps P (set_csr i v)
  set_csr-Keeps = closed.on_csr

  pub set_cur_pri-Keeps : (v : ℕ) → Keeps P (set_cur_pri v)
  set_cur_pri-Keeps = closed.on_cur_pri

  pub set_dnpc-Keeps : (v : ℕ) → Keeps P (set_dnpc v)
  set_dnpc-Keeps = closed.on_dnpc

  pub trap_peek_exception-Keeps : (x y : ℕ) → Keeps P (trap_peek_exception x y)
  trap_peek_exception-Keeps = closed.on_exception

  pub set_nemu_state-Keeps : (st : RunState) (a b : ℕ) → Keeps P (set_nemu_state st a b)
  set_nemu_state-Keeps = closed.on_nemu_state

  pub insert_amw-Keeps : (w : ℕ) → Keeps P (insert_amw w)
  insert_amw-Keeps = closed.on_insert

  pub delete_amw-Keeps : (w : ℕ) → Keeps P (delete_amw w)
  delete_amw-Keeps = closed.on_delete

  pub get_csr_field-Keeps : (i k : ℕ) → Keeps P (get_csr_field i k)
  unfolding get_csr_field
  get_csr_field-Keeps i k = search (blocks, get_csr-Keeps)

  pub set_csr_field-Keeps : (i k v : ℕ) → Keeps P (set_csr_field i k v)
  unfolding set_csr_field
  set_csr_field-Keeps i k v = search (blocks, get_csr-Keeps, set_csr-Keeps)

  pub recy_exception-Keeps : Keeps P recy_exception
  unfolding recy_exception
  recy_exception-Keeps = trap_peek_exception-Keeps _ _

  pub dnpc_and_check-Keeps : (t : ℕ) → Keeps P (dnpc_and_check t)
  unfolding dnpc_and_check
  dnpc_and_check-Keeps t = search (blocks, trap_peek_exception-Keeps, set_dnpc-Keeps)

  pub nemutrap-Keeps : (a b : ℕ) → Keeps P (nemutrap a b)
  unfolding nemutrap
  nemutrap-Keeps a b = set_nemu_state-Keeps _ a b

module _ (bus : Bus) (mem_all_access : Bool) {P : Machine bus.State → Type 0}
    (closed_bus : ClosedBus bus P) where
  pub vaddr_read-Keeps : (a n : ℕ) → Keeps P (vaddr_read bus mem_all_access a n)
  unfolding vaddr_read
  vaddr_read-Keeps a n = keeps λ m h. elim (Option-cases (bus.read a n m.bus)) [
    | inl bad ↦ rw (vaddr_read, bad) tt
    | inr ((v, b), good) ↦ rw (vaddr_read, good) (closed_bus.on_read a n v m b h good)
  ]

  pub vaddr_write-Keeps : (a n v : ℕ) → Keeps P (vaddr_write bus mem_all_access a n v)
  unfolding vaddr_write
  vaddr_write-Keeps a n v = keeps λ m h. elim (Option-cases (bus.write a n v m.bus)) [
    | inl bad ↦ rw (vaddr_write, bad) tt
    | inr (b, good) ↦ rw (vaddr_write, good) (closed_bus.on_write a n v m b h good)
  ]

module _ (bus : Bus) (mem_all_access : Bool) {P : Machine bus.State → Type 0} (closed : Closed P)
    (closed_bus : ClosedBus bus P) where
  pub mr-Keeps : (a n : ℕ) → Keeps P (mr bus mem_all_access a n)
  unfolding mr
  mr-Keeps a n = search (blocks, vaddr_read-Keeps, trap_peek_exception-Keeps)

  pub mw-Keeps : (a n v : ℕ) → Keeps P (mw bus mem_all_access a n v)
  unfolding mw
  mw-Keeps a n v = search (blocks, vaddr_write-Keeps, trap_peek_exception-Keeps)

pub ruleset parts = (
  blocks, set_gpr-Keeps, set_csr-Keeps, set_cur_pri-Keeps, set_dnpc-Keeps,
  trap_peek_exception-Keeps, get_gpr-Keeps, get_csr-Keeps, get_cur_pri-Keeps, get_s-Keeps,
  search_amw-Keeps, insert_amw-Keeps, delete_amw-Keeps, get_csr_field-Keeps, set_csr_field-Keeps,
  recy_exception-Keeps, dnpc_and_check-Keeps, nemutrap-Keeps, mr-Keeps, mw-Keeps, vaddr_read-Keeps,
)

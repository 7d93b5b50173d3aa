-- ===== src/Riscv/Words.antt =====
-- The machine holds words: every register and every field of the decoder is below 2 ^ 32, before and
-- after each instruction of src/isa/riscv32/inst.c.
use gs_emu.Base.{ℕ, ◌+◌, ◌^◌, ◌<◌, ◌≡◌, Bool, some, arith}
use gs_emu.Word.{u32}
use gs_emu.Bus.{Bus}
use gs_emu.Riscv.Machine.{
  Machine, put, set_gpr, set_csr, set_cur_pri, set_dnpc, trap_peek_exception, set_nemu_state,
  insert_amw, delete_amw,
}
use gs_emu.Riscv.Csr.{check_csr_idx}
use gs_emu.Riscv.Interrupt.{fetched, isa_exec_once}
use gs_emu.Riscv.Keeps.{keeps, After-some, Keeps-run}
use gs_emu.Riscv.Closed.Primitives.{Closed, ClosedBus}
use gs_emu.Riscv.Closed.Step.{isa_exec_once-Keeps}

-- Every register is a word.
pub record IsWords {B : Type 0} (m : Machine B) : Type 0 where
  pub gpr_lt : (i : ℕ) → m.gpr i < 2 ^ 32
  pub csr_lt : (i : ℕ) → m.csr i < 2 ^ 32
  pub pc_lt : m.pc < 2 ^ 32
  pub cur_pri_lt : m.cur_pri < 2 ^ 32
  pub exception_lt : m.exception < 2 ^ 32
  pub exception_tval_lt : m.exception_tval < 2 ^ 32
  pub s_pc_lt : m.s.pc < 2 ^ 32
  pub snpc_lt : m.s.snpc < 2 ^ 32
  pub dnpc_lt : m.s.dnpc < 2 ^ 32
  pub inst_lt : m.s.inst < 2 ^ 32

put-lt : (f : ℕ → ℕ) (i v : ℕ) → ((j : ℕ) → f j < 2 ^ 32) → (j : ℕ) → put f i (u32 v) j < 2 ^ 32
put-lt f i v h j = ground (arith, h j)

u32-lt : (v : ℕ) → u32 v < 2 ^ 32
u32-lt v = omega arith

pub IsWords-Closed : {B : Type 0} → Closed (IsWords {B = B})
unfolding set_gpr set_csr set_cur_pri set_dnpc trap_peek_exception set_nemu_state insert_amw
    delete_amw
IsWords-Closed = record {
  on_gpr = λ i v. keeps λ m h. assumption (put-lt m.gpr i v h.gpr_lt);
  on_csr = λ i v. keeps λ m h. assumption (put-lt m.csr (check_csr_idx i) v h.csr_lt);
  on_cur_pri = λ v. keeps λ m h. assumption (u32-lt v);
  on_dnpc = λ v. keeps λ m h. assumption (u32-lt v);
  on_exception = λ x y. keeps λ m h. assumption (u32-lt x, u32-lt y);
  on_nemu_state = λ st a b. keeps λ m h. assumption;
  on_insert = λ w. keeps λ m h. assumption;
  on_delete = λ w. keeps λ m h. assumption;
}

-- What the parts that the memory system keeps from the state.
with_bus : {B : Type 0} (m : Machine B) (b : B) → IsWords m → IsWords (record m { bus = b })
with_bus m b h = assumption

fetched-IsWords :
    {B : Type 0} (m : Machine B) (v : ℕ) → v < 2 ^ 32 → IsWords m → IsWords (fetched m v)
fetched-IsWords m v lt h = let next : u32 (m.s.snpc + 4) < 2 ^ 32 = omega arith in assumption

module _ (bus : Bus) where
  IsWords-ClosedBus : ClosedBus bus IsWords
  IsWords-ClosedBus = record {
    on_read = λ a n v m b h e. with_bus m b h;
    on_write = λ a n v m b h e. with_bus m b h;
    on_fetch = fetched-IsWords;
  }

  -- One instruction, or the interrupt that takes its place, leaves every register and every
  -- field of the decoder below 2 ^ 32, when they were so before and no assertion fails.
  pub isa_exec_once-IsWords :
      (mem_all_access : Bool) (m t : Machine bus.State)
      → IsWords m
      → isa_exec_once bus mem_all_access m ≡ some (tt, t)
      → IsWords t
  isa_exec_once-IsWords mem_all_access m t h e =
      After-some IsWords e
        (Keeps-run (isa_exec_once-Keeps bus mem_all_access IsWords-Closed IsWords-ClosedBus) m h)

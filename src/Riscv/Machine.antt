-- ===== src/Riscv/Machine.antt =====
-- The state of the processor (src/isa/riscv32/include/isa-def.h `riscv32_CPU_state`, init.c's globals,
-- include/cpu/decode.h `Decode`, include/utils.h `NEMUState`), and the commands that read and write
-- it. A command gives `none` where the program ends by a failed assertion.
use gs_emu.Base.{ℕ, ◌%◌, Bool, true, ◌||◌, not, Option, none, some, List, ◌==◌, if◌then◌else◌}
use gs_emu.Word.{u32}
use gs_emu.Bus.{Bus}
use gs_emu.Riscv.Amw.{Node, insert_node, delete_node, search_node}
use gs_emu.Riscv.Csr.{check_csr_idx, get_field, set_field}

-- `NEMU_RUNNING`, `NEMU_STOP`, `NEMU_END`, `NEMU_ABORT`, `NEMU_QUIT`.
pub data RunState : Type 0 where
  running stop end abort quit : RunState

-- `Decode`: the instruction under way. It outlives the instruction.
pub record Decoding : Type 0 where
  pub pc : ℕ
  pub snpc : ℕ
  pub dnpc : ℕ
  pub inst : ℕ

pub record NemuState : Type 0 where
  pub state : RunState
  pub halt_pc : ℕ
  pub halt_ret : ℕ

pub record Machine (B : Type 0) : Type 0 where
  pub gpr : ℕ → ℕ
  pub csr : ℕ → ℕ
  pub amw : List Node
  pub pc : ℕ
  pub cur_pri : ℕ
  pub exception : ℕ
  pub exception_tval : ℕ
  pub nemu_state : NemuState
  pub s : Decoding
  pub bus : B

-- Privilege modes.
abbrev pub prv_s : ℕ
prv_s = 1

abbrev pub prv_m : ℕ
prv_m = 3

-- `RISCVException`; `RISCV_EXCP_NONE` is -1 in a `word_t`.
abbrev pub excp_none : ℕ
excp_none = 0xffff_ffff

abbrev pub excp_inst_addr_mis : ℕ
excp_inst_addr_mis = 0

abbrev pub excp_illegal_inst : ℕ
excp_illegal_inst = 2

abbrev pub excp_load_addr_mis : ℕ
excp_load_addr_mis = 4

abbrev pub excp_store_amo_addr_mis : ℕ
excp_store_amo_addr_mis = 6

abbrev pub excp_u_ecall : ℕ
excp_u_ecall = 8

abbrev pub excp_m_ecall : ℕ
excp_m_ecall = 11

-- A write into an array of words.
abbrev pub put : (ℕ → ℕ) → ℕ → ℕ → ℕ → ℕ
put f i v j = if j == i then v else f j

abbrev pub Cmd : Type 0 → Type 0 → Type 0
Cmd B A = Machine B → Option (A × Machine B)

module _ {B : Type 0} where
  abbrev pub pure : {A : Type 0} → A → Cmd B A
  pure a m = some (a, m)

  abbrev pub skip : Cmd B (Unit {0})
  skip = pure tt

  infixl 5 ◌>>=◌ ◌>>◌
  unfoldable pub ◌>>=◌ : {A C : Type 0} → Cmd B A → (A → Cmd B C) → Cmd B C
  ◌>>=◌ c f m = elim (c m) [ none ↦ none | some (a, m') ↦ f a m' ]

  abbrev pub ◌>>◌ : {C : Type 0} → Cmd B (Unit {0}) → Cmd B C → Cmd B C
  c >> d = c >>= λ _. d

  -- `R(i)`. The five bits of an operand are always below 32.
  unfoldable pub get_gpr : ℕ → Cmd B ℕ
  get_gpr i m = some (m.gpr i, m)

  unfoldable pub set_gpr : ℕ → ℕ → Cmd B (Unit {0})
  set_gpr i v m = some (tt, record m { gpr = put m.gpr i (u32 v) })

  -- `csr(idx)`.
  unfoldable pub get_csr : ℕ → Cmd B ℕ
  get_csr idx m = some (m.csr (check_csr_idx idx), m)

  unfoldable pub set_csr : ℕ → ℕ → Cmd B (Unit {0})
  set_csr idx v m = some (tt, record m { csr = put m.csr (check_csr_idx idx) (u32 v) })

  -- `set_field(csr(idx), mask, val)`.
  unfoldable pub set_csr_field : ℕ → ℕ → ℕ → Cmd B (Unit {0})
  set_csr_field idx mask v = do r ← get_csr idx; set_csr idx (set_field r mask v)

  unfoldable pub get_csr_field : ℕ → ℕ → Cmd B ℕ
  get_csr_field idx mask = do r ← get_csr idx; pure (get_field r mask)

  unfoldable pub get_cur_pri : Cmd B ℕ
  get_cur_pri m = some (m.cur_pri, m)

  unfoldable pub set_cur_pri : ℕ → Cmd B (Unit {0})
  set_cur_pri v m = some (tt, record m { cur_pri = u32 v })

  unfoldable pub get_s : Cmd B Decoding
  get_s m = some (m.s, m)

  unfoldable pub set_dnpc : ℕ → Cmd B (Unit {0})
  set_dnpc v m = some (tt, record m { s = record (m.s) { dnpc = u32 v } })

  -- `trap_peek_exception(_x1, _x2)`.
  unfoldable pub trap_peek_exception : ℕ → ℕ → Cmd B (Unit {0})
  trap_peek_exception x1 x2 m = some (tt, record m { exception = u32 x1; exception_tval = u32 x2 })

  -- `recy_exception()`.
  unfoldable pub recy_exception : Cmd B (Unit {0})
  recy_exception = trap_peek_exception excp_none 0

  -- `dnpc_and_check(target)`, with no C extension.
  unfoldable pub dnpc_and_check : ℕ → Cmd B (Unit {0})
  dnpc_and_check target =
      if not (target % 4 == 0)
      then trap_peek_exception excp_inst_addr_mis target
      else set_dnpc target

  -- `set_nemu_state(state, pc, halt_ret)`, with differential testing switched off.
  unfoldable pub set_nemu_state : RunState → ℕ → ℕ → Cmd B (Unit {0})
  set_nemu_state st pc ret m =
      some
        (tt, record m { nemu_state = record { state = st; halt_pc = u32 pc; halt_ret = u32 ret } })

  -- `NEMUTRAP(thispc, code)`.
  unfoldable pub nemutrap : ℕ → ℕ → Cmd B (Unit {0})
  nemutrap thispc code = set_nemu_state end thispc code

  unfoldable pub insert_amw : ℕ → Cmd B (Unit {0})
  insert_amw w m = some (tt, record m { amw = insert_node m.amw w true })

  unfoldable pub delete_amw : ℕ → Cmd B (Unit {0})
  delete_amw w m = some (tt, record m { amw = delete_node m.amw w })

  unfoldable pub search_amw : ℕ → Cmd B (Option Node)
  search_amw w m = some (search_node m.amw w, m)

-- The memory system, and `MEM_ALL_ACCESS`.
module _ (bus : Bus) (mem_all_access : Bool) where
  unfoldable pub vaddr_read : ℕ → ℕ → Cmd bus.State ℕ
  vaddr_read a n m = elim (bus.read a n m.bus) [
    | none ↦ none
    | some (v, b) ↦ some (v, record m { bus = b })
  ]

  unfoldable pub vaddr_write : ℕ → ℕ → ℕ → Cmd bus.State (Unit {0})
  vaddr_write a n v m = elim (bus.write a n v m.bus) [
    | none ↦ none
    | some b ↦ some (tt, record m { bus = b })
  ]

  -- `Mr(addr, len)`.
  unfoldable pub mr : ℕ → ℕ → Cmd bus.State ℕ
  mr addr len =
      if mem_all_access || addr % len == 0
      then vaddr_read addr len
      else (do trap_peek_exception excp_load_addr_mis addr; pure 0)

  -- `Mw(addr, len, data)`.
  unfoldable pub mw : ℕ → ℕ → ℕ → Cmd bus.State (Unit {0})
  mw addr len data' =
      if mem_all_access || addr % len == 0
      then vaddr_write addr len data'
      else trap_peek_exception excp_store_amo_addr_mis addr

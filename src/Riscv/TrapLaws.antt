-- ===== src/Riscv/TrapLaws.antt =====
-- What the entry of a trap, `mret` and the entry of an interrupt leave behind.
use gs_emu.Base.{ℕ, ◌%◌, ◌^◌, ◌<◌, ◌≡◌, bit_or, none, some, arith, ◌==◌, if◌then◌else◌, ◌∙◌, Option}
use gs_emu.Word.{u32}
use gs_emu.Riscv.Csr.{
  check_csr_idx, search_csr, csr_mstatus, csr_mcause, csr_mepc, csr_mtval, csr_mtvec,
}
use gs_emu.Riscv.Machine.{
  Machine, Cmd, ◌>>=◌, ◌>>◌, get_csr, set_csr, get_csr_field, set_csr_field, get_s, get_gpr,
  get_cur_pri, set_cur_pri, dnpc_and_check, trap_peek_exception, set_dnpc, nemutrap, set_nemu_state,
  prv_m,
}
use gs_emu.Riscv.Exec.{exec_mret}
use gs_emu.Riscv.Trap.{get_exception, get_exception_tval, save_mie, ecall_exit, illegal_instruction}
use gs_emu.Riscv.Interrupt.{enter_interrupt}
use gs_emu.Riscv.Keeps.{Returns}
use gs_emu.Riscv.Status.{
  trap_mstatus, trap_mstatus-with_status, with_status, mie_of, mpie_of, mpp_of, mret_mstatus,
  mret_mode, mret_mode-mpp_of, mret_mstatus-with_status, irq_mstatus, irq_mstatus-with_status,
}

-- The control register with the number `idx`.
abbrev pub csr_of : {B : Type 0} → Machine B → ℕ → ℕ
csr_of m idx = m.csr (check_csr_idx idx)

-- Where `dnpc_and_check` leaves `dnpc`.
abbrev pub checked_dnpc : {B : Type 0} → Machine B → ℕ → ℕ
checked_dnpc m target = if target % 4 == 0 then u32 target else m.s.dnpc

-- The state `t` after the entry of a trap from `m`.
abbrev pub Trapped : {B : Type 0} → Machine B → ℕ → Machine B → Type 0
Trapped m status t =
    (csr_of t csr_mcause ≡ u32 m.exception)
    × (csr_of t csr_mepc ≡ u32 m.s.pc)
    × (csr_of t csr_mtval ≡ u32 m.exception_tval)
    × (csr_of t csr_mstatus ≡ status)
    × (t.cur_pri ≡ m.cur_pri)
    × (t.gpr ≡ m.gpr)
    × (t.s.dnpc ≡ checked_dnpc m (csr_of m csr_mtvec))

-- The state `t` after the entry of the interrupt `irq` from `m`.
abbrev pub Interrupted : {B : Type 0} → Machine B → ℕ → ℕ → Machine B → Type 0
Interrupted m irq status t =
    (csr_of t csr_mcause ≡ u32 (bit_or irq 0x8000_0000))
    × (csr_of t csr_mepc ≡ u32 m.s.pc)
    × (csr_of t csr_mstatus ≡ status)
    × (t.cur_pri ≡ prv_m)
    × (t.gpr ≡ m.gpr)

-- The state `t` after `mret` from `m`.
abbrev pub Returned : {B : Type 0} → Machine B → ℕ → ℕ → Machine B → Type 0
Returned m status mode t =
    (csr_of t csr_mstatus ≡ status)
    × (t.cur_pri ≡ mode)
    × (t.s.dnpc ≡ u32 (csr_of m csr_mepc))
    × (t.gpr ≡ m.gpr)

module _ {B : Type 0} where
  enters :
      (m : Machine B)
      → Returns (Trapped m (trap_mstatus m.cur_pri (csr_of m csr_mstatus))) (illegal_instruction m)
  unfolding illegal_instruction ◌>>=◌ get_csr set_csr get_s get_gpr get_cur_pri get_exception
      get_exception_tval save_mie ecall_exit dnpc_and_check trap_peek_exception set_dnpc nemutrap
      set_nemu_state check_csr_idx search_csr
  enters m = ground arith

  returns :
      (m : Machine B)
      → Returns
          (Returned m (mret_mstatus (csr_of m csr_mstatus)) (mret_mode (csr_of m csr_mstatus)))
          (exec_mret m)
  unfolding exec_mret ◌>>=◌ get_csr set_csr get_csr_field set_csr_field set_dnpc set_cur_pri
      check_csr_idx search_csr
  returns m = ground arith

  interrupts :
      (m : Machine B) (irq : ℕ)
      → Returns
          (Interrupted m irq (irq_mstatus m.cur_pri (csr_of m csr_mstatus)))
          (enter_interrupt irq m)
  unfolding enter_interrupt ◌>>=◌ get_csr set_csr get_s get_csr_field set_csr_field get_cur_pri
      set_cur_pri dnpc_and_check trap_peek_exception set_dnpc check_csr_idx search_csr
  interrupts m irq = ground arith

  -- The entry of a trap returns, when the mode is below 4 and mstatus is a word: mcause, mepc
  -- and mtval hold the exception, the address of the instruction and the value of the exception;
  -- mstatus has the old mode in MPP, the old MIE in MPIE and a cleared MIE, its other digits
  -- unchanged; the mode and the general registers are as before; `dnpc` is mtvec when that is a
  -- multiple of four, and unchanged otherwise.
  pub illegal_instruction-Trapped :
      (m : Machine B)
      → m.cur_pri < 4
      → csr_of m csr_mstatus < 2 ^ 32
      → Returns
          (Trapped m
            (with_status (csr_of m csr_mstatus) m.cur_pri (mie_of (csr_of m csr_mstatus)) 0))
          (illegal_instruction m)
  illegal_instruction-Trapped m hp ht =
      rw (← trap_mstatus-with_status m.cur_pri (csr_of m csr_mstatus) hp ht) (enters m)

  -- `mret` returns, when mstatus is a word: `dnpc` is mepc, the mode is the old MPP, MIE is the
  -- old MPIE, MPIE is set, MPP is zero, the other digits of mstatus and the general registers
  -- are as before.
  pub exec_mret-Returned :
      (m : Machine B)
      → csr_of m csr_mstatus < 2 ^ 32
      → Returns
          (Returned m
            (with_status (csr_of m csr_mstatus) 0 1 (mpie_of (csr_of m csr_mstatus)))
            (mpp_of (csr_of m csr_mstatus)))
          (exec_mret m)
  exec_mret-Returned m ht =
      rw
        (
          ← mret_mode-mpp_of (csr_of m csr_mstatus) ht,
          ← mret_mstatus-with_status (csr_of m csr_mstatus) ht,
        )
        (returns m)

  -- The entry of an interrupt returns, when the mode is below 4 and mstatus is a word: mcause
  -- holds the number with the top digit set, mepc the address of the instruction; mstatus has
  -- the old mode in MPP, the old MIE in MPIE and a cleared MIE, its other digits unchanged; the
  -- mode is M and the general registers are as before.
  pub enter_interrupt-Interrupted :
      (m : Machine B) (irq : ℕ)
      → m.cur_pri < 4
      → csr_of m csr_mstatus < 2 ^ 32
      → Returns
          (Interrupted m irq
            (with_status (csr_of m csr_mstatus) m.cur_pri (mie_of (csr_of m csr_mstatus)) 0))
          (enter_interrupt irq m)
  enter_interrupt-Interrupted m irq hp ht =
      rw (← irq_mstatus-with_status m.cur_pri (csr_of m csr_mstatus) hp ht) (interrupts m irq)

  pub Returns-map :
      {A : Type 0} (P Q : Machine B → Type 0) (r : Option (A × Machine B))
      → Returns P r
      → ((t : Machine B) → P t → Q t)
      → Returns Q r
  Returns-map P Q none h k = elim h [ ]
  Returns-map P Q (some (a, t)) h k = k t h

  Returns-elim :
      {A C : Type 0} (P Q : Machine B → Type 0) (f : A → Cmd B C) (r : Option (A × Machine B))
      → Returns P r
      → ((a : A) (t : Machine B) → P t → Returns Q (f a t))
      → Returns Q (elim r [ none ↦ none | some (a, t) ↦ f a t ])
  Returns-elim P Q f none h k = elim h [ ]
  Returns-elim P Q f (some (a, t)) h k = k a t h

  pub Returns-bind :
      {A C : Type 0} (P Q : Machine B → Type 0) (c : Cmd B A) (f : A → Cmd B C) (m : Machine B)
      → Returns P (c m)
      → ((a : A) (t : Machine B) → P t → Returns Q (f a t))
      → Returns Q ((c >>= f) m)
  unfolding ◌>>=◌
  Returns-bind P Q c f m h k = Returns-elim P Q f (c m) h k

  -- The state `t` after a trap or an interrupt from `m` and an `mret` at once.
  abbrev pub Resumed : Machine B → Machine B → Type 0
  Resumed m t =
      (csr_of t csr_mstatus
        ≡ with_status (csr_of m csr_mstatus) 0 1 (mie_of (csr_of m csr_mstatus)))
      × (t.cur_pri ≡ m.cur_pri)
      × (t.s.dnpc ≡ u32 m.s.pc)
      × (t.gpr ≡ m.gpr)

  resumes :
      (m t : Machine B)
      → m.cur_pri < 4
      → csr_of m csr_mstatus < 2 ^ 32
      → csr_of t csr_mepc ≡ u32 m.s.pc
      → csr_of t csr_mstatus
        ≡ with_status (csr_of m csr_mstatus) m.cur_pri (mie_of (csr_of m csr_mstatus)) 0
      → t.gpr ≡ m.gpr
      → Returns (Resumed m) (exec_mret t)
  resumes m t hp ht pc status gpr =
      let old = csr_of m csr_mstatus in
      let new = csr_of t csr_mstatus in
      let small : new < 2 ^ 32 = omega arith in
      let mpie : mpie_of new ≡ mie_of old = omega arith in
      let mpp : mpp_of new ≡ m.cur_pri = omega arith in
      let whole : with_status new 0 1 (mpie_of new) ≡ with_status old 0 1 (mie_of old) =
        omega arith in
      Returns-map (Returned t (with_status new 0 1 (mpie_of new)) (mpp_of new)) (Resumed m)
        (exec_mret t) (exec_mret-Returned t small)
        (λ u (a, b, c, d). (a ∙ whole, b ∙ mpp, c ∙ omega arith, d ∙ gpr))

  -- The entry of a trap with an `mret` at once returns, when the mode is below 4 and mstatus is
  -- a word: `dnpc` is the address of the instruction that trapped, the mode, MIE and the general
  -- registers are those before the trap, MPIE is set and MPP is zero, and the rest of mstatus is
  -- as before.
  pub trap-mret :
      (m : Machine B)
      → m.cur_pri < 4
      → csr_of m csr_mstatus < 2 ^ 32
      → Returns (Resumed m) ((illegal_instruction >> exec_mret) m)
  trap-mret m hp ht =
      let P =
        Trapped m
          (with_status (csr_of m csr_mstatus) m.cur_pri (mie_of (csr_of m csr_mstatus)) 0) in
      Returns-bind P (Resumed m) illegal_instruction (λ a. exec_mret) m
        (illegal_instruction-Trapped m hp ht)
        (λ a t (_, pc, _, status, _, gpr, _). resumes m t hp ht pc status gpr)

  -- The entry of any interrupt with an `mret` at once returns, when the mode is below 4 and
  -- mstatus is a word: `dnpc` is the address of the interrupted instruction, the mode, MIE and
  -- the general registers are those before the interrupt, MPIE is set and MPP is zero, and the
  -- rest of mstatus is as before.
  pub interrupt-mret :
      (m : Machine B) (irq : ℕ)
      → m.cur_pri < 4
      → csr_of m csr_mstatus < 2 ^ 32
      → Returns (Resumed m) ((enter_interrupt irq >> exec_mret) m)
  interrupt-mret m irq hp ht =
      let P =
        Interrupted m irq
          (with_status (csr_of m csr_mstatus) m.cur_pri (mie_of (csr_of m csr_mstatus)) 0) in
      Returns-bind P (Resumed m) (enter_interrupt irq) (λ a. exec_mret) m
        (enter_interrupt-Interrupted m irq hp ht)
        (λ a t (_, pc, status, _, gpr). resumes m t hp ht pc status gpr)

-- ===== src/Riscv/DelegateLaws.antt =====
-- The branches of `decode_exec` for an exception: the entry into the mode S and into the mode M.
use gs_emu.Base.{
  ◌*◌, ◌-◌, ◌/◌, ◌%◌, ◌<◌, ◌≤◌, ◌^◌, ◌≡◌, ◌≢◌, ◌⊎◌, inl, inr, ◌∙◌, ap, refl, ap, ℕ, true, false,
  leb, not, ◌&&◌, ◌==◌, bit_and, Bool-cases, arith,
}
use gs_emu.Word.{u32, bit_and_field}
use native.Mathlib.Nat.{one-le-pow}
use gs_emu.Riscv.Csr.{
  check_csr_idx, search_csr, csr_mstatus, csr_sstatus, csr_medeleg, csr_scause, csr_sepc, csr_stval,
  csr_stvec, csr_mepc, csr_mcause,
}
use gs_emu.Riscv.Machine.{
  Machine, ◌>>=◌, ◌>>◌, get_csr, set_csr, get_csr_field, set_csr_field, get_s, get_cur_pri,
  set_cur_pri, dnpc_and_check, trap_peek_exception, recy_exception, set_dnpc, excp_none,
}
use gs_emu.Riscv.Trap.{
  get_exception, get_exception_tval, supervisor_trap, take_exception, is_delegated,
  illegal_instruction,
}
use gs_emu.Riscv.Keeps.{Returns}
use gs_emu.Riscv.TrapLaws.{csr_of, checked_dnpc, Trapped, Returns-bind, illegal_instruction-Trapped}
use gs_emu.Riscv.Status.{with_status, mie_of}
use gs_emu.Riscv.SupervisorStatus.{
  with_supervisor, sie_of, trap_sstatus, trap_sstatus-with_supervisor, delegated_mstatus,
  delegated_mstatus-with_supervisor,
}

-- The state `t` after an exception in `m` that goes to the mode S, with sstatus and mstatus given.
abbrev Delegated : {B : Type 0} → Machine B → ℕ → ℕ → Machine B → Type 0
Delegated m sstatus mstatus t =
    (csr_of t csr_scause ≡ u32 m.exception)
    × (csr_of t csr_sepc ≡ u32 m.s.pc)
    × (csr_of t csr_stval ≡ u32 m.exception_tval)
    × (t.cur_pri ≡ 1)
    × (t.exception ≡ excp_none)
    × (t.s.dnpc ≡ checked_dnpc m (csr_of m csr_stvec))
    × (csr_of t csr_mepc ≡ csr_of m csr_mepc)
    × (csr_of t csr_mcause ≡ csr_of m csr_mcause)
    × (t.gpr ≡ m.gpr)
    × (csr_of t csr_sstatus ≡ sstatus)
    × (csr_of t csr_mstatus ≡ mstatus)

-- In `m` the exception goes to the mode S: the mode is U or S, and the digit of the exception in
-- medeleg is set.
abbrev pub Handed : {B : Type 0} → Machine B → Type 0
Handed m = (m.cur_pri ≤ 1) × (csr_of m csr_medeleg / 2 ^ m.exception % 2 ≡ 1)

-- The state `t` after an exception in `m` that goes to the mode S: the old mode is in SPP of sstatus,
-- the old SIE in SPIE and SIE is cleared; in mstatus SPP is set and SIE copied to SPIE.
abbrev pub IntoSupervisor : {B : Type 0} → Machine B → Machine B → Type 0
IntoSupervisor m =
    Delegated m (with_supervisor (csr_of m csr_sstatus) m.cur_pri (sie_of (csr_of m csr_sstatus)) 0)
      (with_supervisor (csr_of m csr_mstatus) 1 (sie_of (csr_of m csr_mstatus))
        (sie_of (csr_of m csr_mstatus)))

-- The state `t` after an exception in `m` that goes to the mode M.
abbrev pub IntoMachine : {B : Type 0} → Machine B → Machine B → Type 0
IntoMachine m t =
    Trapped m (with_status (csr_of m csr_mstatus) m.cur_pri (mie_of (csr_of m csr_mstatus)) 0) t
    × (t.exception ≡ excp_none)

one_digit : (d k : ℕ) → bit_and d (2 ^ k) ≡ d / 2 ^ k % 2 * 2 ^ k
one_digit d k =
    let same : 2 ^ k ≡ (2 ^ 1 - 1) * 2 ^ k = omega arith in
    ap (bit_and d) same ∙ bit_and_field 1 k d

module _ {B : Type 0} where
  supervisor_trap-raw :
      (m : Machine B)
      → Returns
          (Delegated m
            (trap_sstatus m.cur_pri (csr_of m csr_sstatus))
            (delegated_mstatus (csr_of m csr_mstatus)))
          (supervisor_trap m)
  unfolding supervisor_trap ◌>>=◌ get_csr set_csr get_csr_field set_csr_field get_s get_cur_pri
      set_cur_pri get_exception get_exception_tval dnpc_and_check trap_peek_exception recy_exception
      set_dnpc check_csr_idx search_csr
  supervisor_trap-raw m = ground arith

  supervisor_trap-IntoSupervisor :
      (m : Machine B)
      → m.cur_pri ≤ 1
      → csr_of m csr_sstatus < 2 ^ 32
      → csr_of m csr_mstatus < 2 ^ 32
      → Returns (IntoSupervisor m) (supervisor_trap m)
  supervisor_trap-IntoSupervisor m hp hs hm =
      rw
        (
          ← trap_sstatus-with_supervisor m.cur_pri (csr_of m csr_sstatus) (omega arith) hs,
          ← delegated_mstatus-with_supervisor (csr_of m csr_mstatus) hm,
        )
        (supervisor_trap-raw m)

  -- The test of the code is the condition.
  is_delegated-Handed :
      (m : Machine B)
      → ((is_delegated m (csr_of m csr_medeleg) ≡ true) × Handed m)
        ⊎ ((is_delegated m (csr_of m csr_medeleg) ≡ false) × (Handed m → ⊥))
  unfolding is_delegated
  is_delegated-Handed m =
      let d = csr_of m csr_medeleg in
      let k = m.exception in
      let digit = one_digit d k in
      let pos = one-le-pow k 2 (omega arith) in
      elim (Bool-cases (leb m.cur_pri 1 && not (d / 2 ^ k % 2 * 2 ^ k == 0))) [
        | inl set ↦ inl (rw digit set, (ground arith, set_digit (d / 2 ^ k) (2 ^ k) (ground arith)))
        | inr kept ↦ inr (
          rw digit kept,
          λ (low, set_to_1). clear_digit m.cur_pri (d / 2 ^ k) (2 ^ k) low pos set_to_1 kept,
        )
      ]
    where
      set_digit : (x p : ℕ) → x % 2 * p ≢ 0 → x % 2 ≡ 1
      set_digit x p h = ground arith

      clear_digit :
          (c x p : ℕ) → c ≤ 1 → 1 ≤ p → x % 2 ≡ 1 → (leb c 1 && not (x % 2 * p == 0)) ≡ false → ⊥
      clear_digit c x p h g e f =
          let whole : (x % 2 * p == 0) ≡ false = rw e (ground arith) in
          let low : leb c 1 ≡ true = ground arith in cc (rw (whole, low) at f)

  pub take_exception-supervisor :
      (m : Machine B)
      → m.exception ≢ excp_none
      → is_delegated m (csr_of m csr_medeleg) ≡ true
      → take_exception m ≡ supervisor_trap m
  unfolding take_exception ◌>>=◌ get_exception get_csr
  take_exception-supervisor m some_exception to_s =
      let pending : (m.exception == excp_none) ≡ false = ground arith in rw (pending, to_s) refl

  take_exception-machine :
      (m : Machine B)
      → m.exception ≢ excp_none
      → is_delegated m (csr_of m csr_medeleg) ≡ false
      → take_exception m ≡ (illegal_instruction >> recy_exception) m
  unfolding take_exception ◌>>=◌ get_exception get_csr
  take_exception-machine m some_exception to_m =
      let pending : (m.exception == excp_none) ≡ false = ground arith in rw (pending, to_m) refl

  take_exception-IntoMachine :
      (m : Machine B)
      → m.cur_pri < 4
      → csr_of m csr_mstatus < 2 ^ 32
      → m.exception ≢ excp_none
      → is_delegated m (csr_of m csr_medeleg) ≡ false
      → Returns (IntoMachine m) (take_exception m)
  unfolding recy_exception trap_peek_exception
  take_exception-IntoMachine m hp ht some_exception to_m =
      let status = with_status (csr_of m csr_mstatus) m.cur_pri (mie_of (csr_of m csr_mstatus)) 0 in
      rw (take_exception-machine m some_exception to_m) (
        Returns-bind (Trapped m status) (IntoMachine m) illegal_instruction (λ a. recy_exception) m
          (illegal_instruction-Trapped m hp ht) (λ a t h. (h, refl)))

  -- The end of an instruction with an exception pending returns, when the mode is below 4 and
  -- sstatus and mstatus are words. When the mode is U or S and the digit of the exception in
  -- medeleg is set, it goes to the mode S: scause, sepc and stval hold the exception, the
  -- address of the instruction and the value of the exception, the old mode is in SPP of
  -- sstatus, its SIE in SPIE and cleared, mstatus has SPP set and its SIE in SPIE, their other
  -- digits unchanged, `dnpc` is stvec when that is a multiple of four and unchanged otherwise,
  -- and mepc, mcause and the general registers are as before. In every other case it goes to M,
  -- as `illegal_instruction-Trapped` says. No exception is pending then.
  pub take_exception-Handed :
      (m : Machine B)
      → m.cur_pri < 4
      → csr_of m csr_sstatus < 2 ^ 32
      → csr_of m csr_mstatus < 2 ^ 32
      → m.exception ≢ excp_none
      → (Handed m × Returns (IntoSupervisor m) (take_exception m))
        ⊎ ((Handed m → ⊥) × Returns (IntoMachine m) (take_exception m))
  take_exception-Handed m hp hs ht some_exception = elim (is_delegated-Handed m) [
    | inl (to_s, handed) ↦ inl (
      handed,
      rw (take_exception-supervisor m some_exception to_s)
          (supervisor_trap-IntoSupervisor m handed.0 hs ht),
    )
    | inr (to_m, kept) ↦ inr (kept, take_exception-IntoMachine m hp ht some_exception to_m)
  ]

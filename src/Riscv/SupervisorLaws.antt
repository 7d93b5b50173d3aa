-- ===== src/Riscv/SupervisorLaws.antt =====
-- `sret`, and the entry of a delegated exception with an `sret` at once.
use gs_emu.Base.{ℕ, ◌<◌, ◌^◌, ◌≡◌, ◌≢◌, true, ◌∙◌, arith}
use gs_emu.Word.{u32}
use gs_emu.Riscv.Csr.{
  check_csr_idx, search_csr, csr_mstatus, csr_medeleg, csr_sstatus, csr_sepc, csr_mepc, csr_mcause,
}
use gs_emu.Riscv.Machine.{
  Machine, ◌>>=◌, ◌>>◌, get_csr, set_csr, get_csr_field, set_csr_field, get_s, get_cur_pri,
  set_cur_pri, dnpc_and_check, trap_peek_exception, recy_exception, set_dnpc, excp_none,
}
use gs_emu.Riscv.Exec.{exec_sret}
use gs_emu.Riscv.Trap.{
  get_exception, get_exception_tval, supervisor_trap, take_exception, is_delegated,
}
use gs_emu.Riscv.Keeps.{Returns}
use gs_emu.Riscv.TrapLaws.{csr_of, Returns-bind, Returns-map}
use gs_emu.Riscv.DelegateLaws.{take_exception-supervisor}
use gs_emu.Riscv.SupervisorStatus.{
  with_supervisor, sie_of, trap_sstatus, trap_sstatus-with_supervisor, delegated_mstatus,
  delegated_mstatus-with_supervisor, left, left-with_supervisor, enabled, enabled-with_supervisor,
  sret_mode, sret_mode-spp_of,
}

-- What a delegated exception in `m` leaves for `sret`.
abbrev Entered : {B : Type 0} → Machine B → Machine B → Type 0
Entered m t =
    (csr_of t csr_sepc ≡ u32 m.s.pc)
    × (csr_of t csr_sstatus ≡ trap_sstatus m.cur_pri (csr_of m csr_sstatus))
    × (csr_of t csr_mstatus ≡ delegated_mstatus (csr_of m csr_mstatus))
    × (csr_of t csr_mepc ≡ csr_of m csr_mepc)
    × (csr_of t csr_mcause ≡ csr_of m csr_mcause)
    × (t.exception ≡ excp_none)
    × (t.gpr ≡ m.gpr)

-- What `sret` does, as the row computes it.
abbrev Left : {B : Type 0} → Machine B → Machine B → Type 0
Left m t =
    (csr_of t csr_sstatus ≡ left (enabled (csr_of m csr_sstatus)))
    × (csr_of t csr_mstatus ≡ left (csr_of m csr_mstatus))
    × (t.cur_pri ≡ sret_mode (csr_of m csr_sstatus))
    × (t.s.dnpc ≡ u32 (csr_of m csr_sepc))
    × (csr_of t csr_mepc ≡ csr_of m csr_mepc)
    × (csr_of t csr_mcause ≡ csr_of m csr_mcause)
    × (t.exception ≡ m.exception)
    × (t.gpr ≡ m.gpr)

-- The state `t` after a delegated exception in `m` and an `sret` at once.
abbrev pub ResumedBySret : {B : Type 0} → Machine B → Machine B → Type 0
ResumedBySret m t =
    (csr_of t csr_sstatus
      ≡ with_supervisor (csr_of m csr_sstatus) 0 1 (sie_of (csr_of m csr_sstatus)))
    × (csr_of t csr_mstatus
        ≡ with_supervisor (csr_of m csr_mstatus) 0 1 (sie_of (csr_of m csr_mstatus)))
    × (t.cur_pri ≡ m.cur_pri)
    × (t.s.dnpc ≡ u32 m.s.pc)
    × (csr_of t csr_mepc ≡ csr_of m csr_mepc)
    × (csr_of t csr_mcause ≡ csr_of m csr_mcause)
    × (t.exception ≡ excp_none)
    × (t.gpr ≡ m.gpr)

module _ {B : Type 0} where
  enters : (m : Machine B) → Returns (Entered m) (supervisor_trap m)
  unfolding supervisor_trap ◌>>=◌ get_csr set_csr get_csr_field set_csr_field get_s get_cur_pri
      set_cur_pri get_exception get_exception_tval dnpc_and_check trap_peek_exception recy_exception
      set_dnpc check_csr_idx search_csr
  enters m = ground arith

  leaves : (m : Machine B) → Returns (Left m) (exec_sret m)
  unfolding exec_sret ◌>>=◌ get_csr set_csr get_csr_field set_cur_pri set_dnpc check_csr_idx
      search_csr
  leaves m = ground arith

  is_delegated-mode : (m : Machine B) (d : ℕ) → is_delegated m d ≡ true → m.cur_pri < 2
  unfolding is_delegated
  is_delegated-mode m d h = ground arith

  resumes :
      (m t : Machine B)
      → m.cur_pri < 2
      → csr_of m csr_sstatus < 2 ^ 32
      → csr_of m csr_mstatus < 2 ^ 32
      → Entered m t
      → Returns (ResumedBySret m) (exec_sret t)
  resumes m t hp hs hm (pc, sstatus, mstatus, mepc, mcause, exception, gpr) =
      let old = csr_of m csr_sstatus in
      let new = csr_of t csr_sstatus in
      let entered : new ≡ with_supervisor old m.cur_pri (sie_of old) 0 =
        sstatus ∙ trap_sstatus-with_supervisor m.cur_pri old hp hs in
      let small : new < 2 ^ 32 = omega arith in
      let off : sie_of new ≡ 0 = omega arith in
      let on : enabled new ≡ with_supervisor old m.cur_pri (sie_of old) (sie_of old) =
        enabled-with_supervisor new small off ∙ omega arith in
      let at_end : left (enabled new) ≡ with_supervisor old 0 1 (sie_of old) = rw on (
        left-with_supervisor (with_supervisor old m.cur_pri (sie_of old) (sie_of old)) (omega arith)
        ∙ omega arith) in
      let mode : sret_mode new ≡ m.cur_pri = sret_mode-spp_of new small off ∙ omega arith in
      let was = csr_of m csr_mstatus in
      let marked : csr_of t csr_mstatus ≡ with_supervisor was 1 (sie_of was) (sie_of was) =
        mstatus ∙ delegated_mstatus-with_supervisor was hm in
      let unmarked : left (csr_of t csr_mstatus) ≡ with_supervisor was 0 1 (sie_of was) =
        left-with_supervisor (csr_of t csr_mstatus) (omega arith) ∙ omega arith in
      Returns-map (Left t) (ResumedBySret m) (exec_sret t) (leaves t) (λ u (a, b, c, d, e, f, g, h).
        (
          a ∙ at_end,
          b ∙ unmarked,
          c ∙ mode,
          d ∙ omega arith,
          e ∙ mepc,
          f ∙ mcause,
          g ∙ exception,
          h ∙ gpr,
        ))

  -- An exception that medeleg hands to the mode S from the modes U and S, with an `sret` at
  -- once, returns, when sstatus and mstatus are words: `dnpc` is the address of the instruction
  -- that trapped, the mode, SIE of both registers and the general registers are those before,
  -- SPIE is set and SPP zero in both, their other digits, mepc and mcause are as before, and no
  -- exception is pending.
  pub take_exception-sret :
      (m : Machine B)
      → csr_of m csr_sstatus < 2 ^ 32
      → csr_of m csr_mstatus < 2 ^ 32
      → m.exception ≢ excp_none
      → is_delegated m (csr_of m csr_medeleg) ≡ true
      → Returns (ResumedBySret m) ((take_exception >> exec_sret) m)
  take_exception-sret m hs hm some_exception to_s =
      let hp = is_delegated-mode m (csr_of m csr_medeleg) to_s in
      Returns-bind (Entered m) (ResumedBySret m) take_exception (λ a. exec_sret) m
        (rw (take_exception-supervisor m some_exception to_s) (enters m))
        (λ a t h. resumes m t hp hs hm h)

-- ===== src/Riscv/InitLaws.antt =====
-- The state after a reset (src/isa/riscv32/init.c).
use gs_emu.Base.{◌<◌, ◌^◌, ◌≡◌, arith, refl, some}
use gs_emu.Riscv.Csr.{check_csr_idx, search_csr, csr_mstatus, csr_medeleg}
use gs_emu.Riscv.Machine.{
  Machine, ◌>>=◌, set_gpr, set_csr, set_cur_pri, recy_exception, trap_peek_exception, prv_m,
  excp_none,
}
use gs_emu.Riscv.Init.{reset_vector, pmem_dtb, clear_amw, csr_init, set_pc, restart}
use gs_emu.Riscv.Keeps.{Keeps, keeps, Keeps-run, Returns, After-some}
use gs_emu.Riscv.Words.{IsWords, IsWords-Closed}
use gs_emu.Riscv.Closed.Primitives.{parts}
use gs_emu.Riscv.TrapLaws.{csr_of}
use gs_emu.Riscv.Zero.{IsZero}

-- The state `t` after a reset.
abbrev pub Reset : {B : Type 0} → Machine B → Machine B → Type 0
Reset m t =
    (t.pc ≡ reset_vector)
    × (IsZero t)
    × (t.gpr 11 ≡ pmem_dtb)
    × (t.cur_pri ≡ prv_m)
    × (t.exception ≡ excp_none)
    × (csr_of t csr_mstatus ≡ 0x1800)
    × (csr_of t csr_medeleg ≡ 0)
    × (t.bus ≡ m.bus)

module _ {B : Type 0} where
  -- A reset returns: the machine starts at 0x80000000 in the mode M with no exception pending,
  -- register 0 is 0, register 11 points to the device tree, mstatus is 0x1800, medeleg is 0, and
  -- the memory is as before.
  pub restart-Reset : (m : Machine B) → Returns (Reset m) (restart m)
  unfolding restart csr_init clear_amw set_pc ◌>>=◌ set_gpr set_csr set_cur_pri recy_exception
      trap_peek_exception check_csr_idx search_csr
  restart-Reset m = (refl, refl, refl, refl, refl, refl, refl, refl)

  clear_amw-Keeps : Keeps (IsWords {B = B}) clear_amw
  unfolding clear_amw
  clear_amw-Keeps = keeps λ m h. assumption

  set_pc-Keeps : Keeps (IsWords {B = B}) (set_pc reset_vector)
  unfolding set_pc
  set_pc-Keeps = keeps λ m h. let small : reset_vector < 2 ^ 32 = omega arith in assumption

  csr_init-Keeps : Keeps (IsWords {B = B}) csr_init
  unfolding csr_init
  csr_init-Keeps = search (parts, IsWords-Closed, clear_amw-Keeps) depth 40

  restart-Keeps : Keeps (IsWords {B = B}) restart
  unfolding restart
  restart-Keeps = search (parts, IsWords-Closed, csr_init-Keeps, set_pc-Keeps) depth 20

  -- A reset that returns leaves every register and every field of the decoder below 2 ^ 32, when
  -- they were so before.
  pub restart-IsWords : (m t : Machine B) → IsWords m → restart m ≡ some (tt, t) → IsWords t
  restart-IsWords m t h e = After-some IsWords e (Keeps-run restart-Keeps m h)

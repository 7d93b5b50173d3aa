-- ===== src/Riscv/Init.antt =====
-- src/isa/riscv32/init.c: `csr_init` and `restart`, for the modes M, S and U and with no reference
-- machine. `RESET_VECTOR` is 0x80000000 and `PMEM_DTB` is 20 MB below the end of physical memory.
use gs_emu.Base.{ℕ, [], some, ◌+◌, ◌-◌, ◌*◌}
use gs_emu.Memory.IoMap.{mbase, msize}
use gs_emu.Riscv.Csr.{
  csr_mstatus, csr_mhartid, csr_marchid, csr_pmpaddr0, csr_pmpcfg0, csr_tdata1, csr_tinfo, csr_dcsr,
  csr_misa, csr_medeleg, zero_csr,
}
use gs_emu.Riscv.Machine.{Cmd, ◌>>◌, set_gpr, set_csr, set_cur_pri, recy_exception, prv_m}

abbrev pub reset_vector : ℕ
reset_vector = 0x8000_0000

abbrev pub pmem_dtb : ℕ
pmem_dtb = mbase + msize - 1024 * 1024 * 20

module _ {B : Type 0} where
  -- `cpu.amw = NULL`.
  unfoldable pub clear_amw : Cmd B (Unit {0})
  clear_amw m = some (tt, record m { amw = [] })

  unfoldable pub csr_init : Cmd B (Unit {0})
  csr_init = do
    set_csr csr_mstatus 0
    set_csr csr_mhartid 0
    set_csr csr_mstatus 0x1800
    set_csr csr_marchid 5
    set_csr csr_pmpaddr0 0xffff_ffff
    set_csr csr_pmpcfg0 0x1f
    set_csr zero_csr 0
    set_csr csr_tdata1 0xf000_0000
    set_csr csr_tinfo 0x807c
    set_csr csr_dcsr 0x4000_0000
    set_csr csr_misa 0x4014_1101
    set_csr csr_medeleg 0
    set_cur_pri prv_m
    recy_exception
    clear_amw

  -- `cpu.pc = v`.
  unfoldable pub set_pc : ℕ → Cmd B (Unit {0})
  set_pc v m = some (tt, record m { pc = v })

  unfoldable pub restart : Cmd B (Unit {0})
  restart = do set_pc reset_vector; set_gpr 0 0; set_gpr 10 0; set_gpr 11 pmem_dtb; csr_init

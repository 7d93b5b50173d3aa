-- ===== src/Riscv/Exec/System.antt =====
-- src/isa/riscv32/inst.c: RV32A, Zicsr and the privileged instructions.
use gs_emu.Base.{ℕ, ◌+◌, ◌*◌, bit_and, bit_or, bit_xor, Bool, none, some, ltb, ◌==◌, if◌then◌else◌}
use gs_emu.Word.{u32, not32, slt32}
use gs_emu.Bus.{Bus}
use gs_emu.Riscv.Csr.{
  check_csr_idx, nr_csr, csr_mstatus, csr_mepc, csr_sepc, csr_sstatus, status_mie, status_spie,
  status_mpie, status_spp, status_mpp,
}
use gs_emu.Riscv.Machine.{
  Cmd, ◌>>=◌, ◌>>◌, skip, get_s, get_gpr, set_gpr, get_csr, set_csr, get_csr_field, set_csr_field,
  get_cur_pri, set_cur_pri, set_dnpc, trap_peek_exception, nemutrap, insert_amw, delete_amw,
  search_amw, mr, mw, excp_illegal_inst, excp_u_ecall,
}
use gs_emu.Riscv.Operand.{Operands}
use gs_emu.Riscv.Instr.{Instr}

-- `CONFIG_CLINT_MMIO` of src/device/Kconfig, and the offsets of isa-def.h.
abbrev pub clint_mmio : ℕ
clint_mmio = 0x1100_0000

abbrev pub mtimecmplo : ℕ
mtimecmplo = 0x4000

abbrev pub mtimecmphi : ℕ
mtimecmphi = 0x4004

abbrev pub mtimelo : ℕ
mtimelo = 0xbff8

abbrev pub mtimehi : ℕ
mtimehi = 0xbffc

module _ {B : Type 0} where
  -- `CSR_RW_CHECK(i) body`.
  unfoldable pub csr_rw_check : ℕ → Cmd B (Unit {0}) → Cmd B (Unit {0})
  csr_rw_check i body =
      if check_csr_idx i == nr_csr
      then (do s ← get_s; trap_peek_exception excp_illegal_inst s.inst)
      else body

  -- `t = csr(imm); csr(imm) = f t; R(rd) = t`. `CSR_W_MSTATUS_CHECK` refuses nothing here, since
  -- there are modes beside M.
  unfoldable pub csr_access : Operands → (ℕ → ℕ) → Cmd B (Unit {0})
  csr_access o f = csr_rw_check o.imm do t ← get_csr o.imm; set_csr o.imm (f t); set_gpr o.rd t

  unfoldable pub exec_ecall : Cmd B (Unit {0})
  exec_ecall = do
    p ← get_cur_pri
    s ← get_s
    trap_peek_exception (excp_u_ecall + p) s.pc
    call ← get_gpr 17
    ret ← get_gpr 10
    if call == 8 then nemutrap s.pc ret else skip

  unfoldable pub exec_ebreak : Cmd B (Unit {0})
  exec_ebreak = do s ← get_s; set_csr csr_mepc s.pc; ret ← get_gpr 10; nemutrap s.pc ret

  unfoldable pub exec_sret : Cmd B (Unit {0})
  exec_sret = do
    e ← get_csr csr_sepc
    set_dnpc e
    t ← get_csr csr_sstatus
    spie ← get_csr_field csr_sstatus status_spie
    set_csr csr_sstatus (bit_or t (spie * 2))
    spp ← get_csr_field csr_sstatus status_spp
    set_cur_pri spp
    u ← get_csr csr_sstatus
    set_csr csr_sstatus (bit_or (bit_and u (not32 status_spp)) status_spie)
    v ← get_csr csr_mstatus
    set_csr csr_mstatus (bit_or (bit_and v (not32 status_spp)) status_spie)

  unfoldable pub exec_mret : Cmd B (Unit {0})
  exec_mret = do
    e ← get_csr csr_mepc
    set_dnpc e
    mpie ← get_csr_field csr_mstatus status_mpie
    set_csr_field csr_mstatus status_mie mpie
    set_csr_field csr_mstatus status_mpie 1
    mpp ← get_csr_field csr_mstatus status_mpp
    set_cur_pri mpp
    set_csr_field csr_mstatus status_mpp 0

module _ (bus : Bus) (mem_all_access : Bool) where
  abbrev load : ℕ → ℕ → Cmd bus.State ℕ
  load = mr bus mem_all_access

  abbrev store : ℕ → ℕ → ℕ → Cmd bus.State (Unit {0})
  store = mw bus mem_all_access

  -- `t = Mr(src1, 4); Mw(src1, 4, f t src2); R(rd) = t`.
  unfoldable pub amo_access : Operands → (ℕ → ℕ → ℕ) → Cmd bus.State (Unit {0})
  amo_access o f = do t ← load o.src1 4; store o.src1 4 (f t o.src2); set_gpr o.rd t

  unfoldable pub exec_lr : Operands → Cmd bus.State (Unit {0})
  exec_lr o = do t ← load o.src1 4; set_gpr o.rd t; insert_amw o.src1

  unfoldable pub exec_sc : Operands → Cmd bus.State (Unit {0})
  exec_sc o = do
    found ← search_amw o.src1
    elim found [
      | none ↦ set_gpr o.rd 1
      | some node ↦
          if node.reserved
          then (do store o.src1 4 o.src2; set_gpr o.rd 0; delete_amw o.src1)
          else set_gpr o.rd 1
    ]

  unfoldable pub exec_amo : Instr → Operands → Cmd bus.State (Unit {0})
  exec_amo Instr.lr_w o = exec_lr o
  exec_amo Instr.sc_w o = exec_sc o
  exec_amo Instr.amoswap_w o = amo_access o (λ t b. b)
  exec_amo Instr.amoadd_w o = amo_access o (λ t b. u32 (t + b))
  exec_amo Instr.amoxor_w o = amo_access o (λ t b. bit_xor t b)
  exec_amo Instr.amoand_d o = amo_access o (λ t b. bit_and t b)
  exec_amo Instr.amoor_w o = amo_access o (λ t b. bit_or t b)
  exec_amo Instr.amomin_w o = amo_access o (λ t b. if slt32 t b then t else b)
  exec_amo Instr.amomax_w o = amo_access o (λ t b. if slt32 b t then t else b)
  exec_amo Instr.amominu_w o = amo_access o (λ t b. if ltb t b then t else b)
  exec_amo Instr.amomaxu_w o = amo_access o (λ t b. if ltb b t then t else b)
  exec_amo _ o = skip

  -- `wfi` sleeps, and moves the low half of the clock on.
  unfoldable pub exec_wfi : Cmd bus.State (Unit {0})
  exec_wfi = do t ← load (clint_mmio + mtimelo) 4; store (clint_mmio + mtimelo) 4 (u32 (t + 2000))

  unfoldable pub exec_system : Instr → Operands → Cmd bus.State (Unit {0})
  exec_system Instr.ecall o = exec_ecall
  exec_system Instr.ebreak o = exec_ebreak
  exec_system Instr.csrrw o = csr_access o (λ t. o.src1)
  exec_system Instr.csrrc o = csr_access o (λ t. bit_and t (not32 o.src1))
  exec_system Instr.csrrs o = csr_access o (λ t. bit_or t o.src1)
  exec_system Instr.csrrwi o = csr_access o (λ t. o.src1)
  exec_system Instr.csrrci o = csr_access o (λ t. bit_and t (not32 o.src1))
  exec_system Instr.csrrsi o = csr_access o (λ t. bit_or t o.src1)
  exec_system Instr.sret o = exec_sret
  exec_system Instr.mret o = exec_mret
  exec_system Instr.wfi o = exec_wfi
  exec_system Instr.inv o = do s ← get_s; trap_peek_exception excp_illegal_inst s.inst
  exec_system _ o = skip

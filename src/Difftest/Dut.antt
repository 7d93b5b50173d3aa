-- ===== src/Difftest/Dut.antt =====
-- src/cpu/difftest/dut.c with CONFIG_DIFFTEST, and src/isa/riscv32/difftest/dut.c. The reference is a shared object that is loaded: its functions are
-- parameters. So are `abs` of the C library, and the number that `scanf` reads (`none`: no number).
-- `none` as a result is a `panic` or a failed assertion.
use gs_emu.Base.{
  ℕ, zero, suc, ◌+◌, ◌-◌, ◌^◌, Bool, true, false, ◌&&◌, not, Option, none, some, ltb, ◌==◌,
  if◌then◌else◌,
}
use gs_emu.Word.{u32, sub32}
use gs_emu.Bus.{Bus}
use gs_emu.Riscv.Machine.{Machine, abort}
use gs_emu.Riscv.Exec.{clint_mmio, mtimelo}

-- The choice of the reference for riscv in Kconfig; Spike is the default.
pub data RefKind : Type 0 where
  qemu spike minirv32i : RefKind

-- `riscv32_CPU_state`, what `ref_difftest_regcpy` copies.
pub record CpuState : Type 0 where
  pub gpr : ℕ → ℕ
  pub csr : ℕ → ℕ
  pub pc : ℕ

-- `ref_difftest_exec(1)`, and `ref_difftest_regcpy` in its two directions. The third copy hands over
-- a buffer of 8 bytes, and what is in it afterwards is used as a time.
pub record Reference (R : Type 0) : Type 0 where
  pub exec : R → R
  pub to_dut : R → CpuState
  pub to_ref : CpuState → R → R
  pub time : R → ℕ × R

pub record Difftest (B R : Type 0) : Type 0 where
  pub cpu : Machine B
  pub reference : R
  pub is_skip_ref : Bool
  pub skip_dut_nr_inst : ℕ
  pub skip_dut_one_inst : Bool

abbrev pub cpu_state : {B : Type 0} → Machine B → CpuState
cpu_state m = record { gpr = m.gpr; csr = m.csr; pc = m.pc }

-- `while (nr_ref -- > 0)`.
unfoldable pub exec_ref : {R : Type 0} → Reference R → ℕ → R → R
exec_ref ref zero r = r
exec_ref ref (suc nr_ref) r = exec_ref ref nr_ref (ref.exec r)

module _ (abs : ℕ → ℕ) where
  -- `abs(dert) > 0x100`, both 32 digits with a sign.
  abbrev pub is_far : ℕ → ℕ → Bool
  is_far a b = let m = abs (sub32 a b) in ltb m (2 ^ 31) && ltb 0x100 m

  abbrev pub differs : ℕ → ℕ → Bool
  differs a b = not (a == b) && is_far a b

  -- The errors in the first `n` general registers.
  unfoldable pub gpr_errors : ℕ → (ℕ → ℕ) → (ℕ → ℕ) → ℕ
  gpr_errors zero r c = 0
  gpr_errors (suc n) r c = (if differs (r n) (c n) then 1 else 0) + gpr_errors n r c

-- `NR_CSR-1`, where `NR_CSR` stands for `1+37`.
abbrev nr_checked_csr : ℕ
nr_checked_csr = 37

-- The errors in the first `n` control registers.
unfoldable pub csr_errors : ℕ → (ℕ → ℕ) → (ℕ → ℕ) → ℕ
csr_errors zero r c = 0
csr_errors (suc n) r c = (if not (r n == c n) then 1 else 0) + csr_errors n r c

-- The loop over the control registers, which is there for Spike only.
abbrev pub csr_part : RefKind → (ℕ → ℕ) → (ℕ → ℕ) → ℕ
csr_part spike r c = csr_errors nr_checked_csr r c
csr_part qemu r c = 0
csr_part minirv32i r c = 0

module _ {B R : Type 0} where
  unfoldable pub difftest_skip_ref_one : Difftest B R → Difftest B R
  difftest_skip_ref_one d = record d { skip_dut_one_inst = true }

  -- With mini-rv32ima it returns early.
  unfoldable pub difftest_skip_ref : RefKind → Difftest B R → Difftest B R
  difftest_skip_ref minirv32i d = record d { is_skip_ref = false }
  difftest_skip_ref qemu d = record d { is_skip_ref = true; skip_dut_nr_inst = 0 }
  difftest_skip_ref spike d = record d { is_skip_ref = true; skip_dut_nr_inst = 0 }

module _ {B R : Type 0} (kind : RefKind) (ref : Reference R) where
  unfoldable pub difftest_skip_dut : ℕ → ℕ → Difftest B R → Difftest B R
  difftest_skip_dut nr_ref nr_dut d = record d {
    skip_dut_nr_inst = d.skip_dut_nr_inst + nr_dut;
    reference = exec_ref ref nr_ref d.reference;
  }

  -- The question at a wrong `pc`: 0 goes on; 1 and 2 skip and fall to `return !error`.
  abbrev pub ask : Option ℕ → Difftest B R → Bool × Difftest B R
  ask none d = (false, d)
  ask (some skip) d =
      if skip == 0
      then (true, d)
      else (if skip == 1
          then (false, difftest_skip_dut 1 0 d)
          else (if skip == 2 then (false, difftest_skip_ref_one d) else (false, d)))

  module _ (abs : ℕ → ℕ) where
    unfoldable pub isa_difftest_checkregs : Option ℕ → CpuState → Difftest B R → Bool × Difftest B R
    isa_difftest_checkregs answer r d =
        if not (d.cpu.pc == r.pc)
        then ask answer d
        else (gpr_errors abs 32 r.gpr d.cpu.gpr + csr_part kind r.csr d.cpu.csr == 0, d)

    -- `checkregs(ref, pc)`.
    unfoldable pub checkregs : Option ℕ → CpuState → ℕ → Difftest B R → Difftest B R
    checkregs answer r pc d =
        let (same, d') = isa_difftest_checkregs answer r d in
        if same then d' else record d' {
          cpu = record (d'.cpu) {
            nemu_state = record (d'.cpu.nemu_state) { state = abort; halt_pc = u32 pc };
          };
        }

-- What the code asks of the bus: `paddr_write` for the time.
module _ {R : Type 0} (kind : RefKind) (ref : Reference R) (abs : ℕ → ℕ) (bus : Bus) where
  -- The branch `skip_dut_nr_inst > 0`.
  unfoldable pub catch_up : Option ℕ → ℕ → ℕ → Difftest bus.State R → Option (Difftest bus.State R)
  catch_up answer pc npc d =
      if (ref.to_dut d.reference).pc == npc
      then some (
          checkregs kind ref abs answer (ref.to_dut d.reference) npc
            (record d { skip_dut_nr_inst = 0 }))
      else (if d.skip_dut_nr_inst - 1 == 0
          then none
          else some (record d { skip_dut_nr_inst = d.skip_dut_nr_inst - 1 }))

  -- The copy of the time and the comparison. The write goes to a region of a device, and the search
  -- of it (`find_mapid_by_addr` of include/device/map.h) calls `difftest_skip_ref`.
  unfoldable pub step_both : Option ℕ → ℕ → Difftest bus.State R → Option (Difftest bus.State R)
  step_both answer pc d =
      let (now, r) = ref.time (ref.exec d.reference) in
      elim (bus.write (clint_mmio + mtimelo) 8 (u32 now) d.cpu.bus) [
        | none ↦ none
        | some b ↦ some (
            checkregs kind ref abs answer (ref.to_dut r) pc (
              difftest_skip_ref kind
                (record d { cpu = record (d.cpu) { bus = b }; reference = r })))
      ]

  unfoldable pub difftest_step :
      Option ℕ → ℕ → ℕ → Difftest bus.State R → Option (Difftest bus.State R)
  difftest_step answer pc npc d =
      if d.skip_dut_one_inst
      then some (record d { skip_dut_one_inst = false })
      else (if ltb 0 d.skip_dut_nr_inst
          then catch_up answer pc npc d
          else (if d.is_skip_ref
              then some (record d {
                reference = ref.to_ref (cpu_state d.cpu) d.reference;
                is_skip_ref = false;
              })
              else step_both answer pc d))

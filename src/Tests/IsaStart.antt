-- ===== src/Tests/IsaStart.antt =====
-- Runs of the images that src/isa/mips32/init.c and src/isa/loongarch32r/init.c put into memory.
use gs_emu.Base.{ℕ, suc, ◌≡◌, refl, Option, none, some}
use gs_emu.Decode.Pattern.{pattern_decode, pattern_loop, instpat_test}
use gs_emu.Memory.Host.{load, store, host_read, host_write}
use gs_emu.Memory.IoMap.{in_pmem}
use gs_emu.Memory.Physical.{Memory, guest_to_host, paddr_read, paddr_write}
use gs_emu.Memory.PhysicalLaws.{memory_bus}
use gs_emu.Riscv.Machine.{end}
use gs_emu.Monitor.Load.{put_words}
use gs_emu.Isa.Core.{
  Cpu, select, set_gpr, set_nemu_state, nemutrap, restart, mr, mw, inst_fetch, run_row,
  fetch_and_run,
}
use gs_emu.Isa.Mips32
use gs_emu.Isa.Loongarch32r
use gs_emu.Isa.Start.{mips32_img, loongarch32r_img, init_isa, exec_once, execute, start_run}

-- The run returns, and has ended at the address by the trap with the value 0.
abbrev EndsAt : {B : Type 0} → ℕ → Option (Cpu B) → Type 0
EndsAt pc none = ⊥
EndsAt pc (some d) = d.nemu_state ≡ record { state = end; halt_pc = pc; halt_ret = 0 }

module _ {D : Type 0} (c : Cpu (Memory D)) (n : ℕ) where
  mips32_img-EndsAt : EndsAt 0x8000_000c (
      start_run
        (Mips32.isa_exec_once (memory_bus D))
        (suc (suc (suc (suc n))))
        (init_isa mips32_img c))
  unfolding start_run execute exec_once init_isa restart put_words Mips32.isa_exec_once
      Mips32.exec_inst Mips32.exec Mips32.decode_operand Mips32.imm_i fetch_and_run run_row
      inst_fetch mr mw set_gpr set_nemu_state nemutrap select pattern_decode pattern_loop
      instpat_test paddr_read paddr_write guest_to_host host_read host_write load store in_pmem
  mips32_img-EndsAt = refl

  loongarch32r_img-EndsAt : EndsAt 0x8000_000c (
      start_run
        (Loongarch32r.isa_exec_once (memory_bus D))
        (suc (suc (suc (suc n))))
        (init_isa loongarch32r_img c))
  unfolding start_run execute exec_once init_isa restart put_words Loongarch32r.isa_exec_once
      Loongarch32r.exec_inst Loongarch32r.exec Loongarch32r.decode_operand Loongarch32r.simm12
      Loongarch32r.simm20 fetch_and_run run_row inst_fetch mr mw set_gpr set_nemu_state nemutrap
      select pattern_decode pattern_loop instpat_test paddr_read paddr_write guest_to_host host_read
      host_write load store in_pmem
  loongarch32r_img-EndsAt = refl

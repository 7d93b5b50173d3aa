-- ===== src/Tests/Run.antt =====
-- A whole run of the emulator, and the theorems on runs at that one.
use gs_emu.Base.{ℕ, ◌≡◌, refl, false, Option, none, some, List, [], ◌∷◌}
use gs_emu.Decode.Pattern.{pattern_decode, pattern_loop, instpat_test}
use gs_emu.Memory.Host.{load, store, host_read, host_write}
use gs_emu.Memory.IoMap.{
  in_pmem, map_inside, fetch_map, invoke_callback, map_read, map_write, mmio_read, mmio_write,
}
use gs_emu.Memory.Physical.{guest_to_host, paddr_read, paddr_write}
use gs_emu.Riscv.Csr.{check_csr_idx, search_csr, get_field, set_field}
use gs_emu.Riscv.Machine.{
  ◌>>=◌, get_gpr, set_gpr, get_csr, set_csr, get_csr_field, set_csr_field, get_cur_pri, get_s,
  set_dnpc, trap_peek_exception, recy_exception, dnpc_and_check, set_nemu_state, nemutrap,
  vaddr_read, vaddr_write, mr, mw,
}
use gs_emu.Riscv.Operand.{decode_operand, imm_i}
use gs_emu.Riscv.Instr.{select}
use gs_emu.Riscv.Exec.{exec, exec_group, group, exec_alu, exec_system, exec_ebreak}
use gs_emu.Riscv.Trap.{
  get_exception, take_exception, is_delegated, reset_zero, run_row, decode_exec,
}
use gs_emu.Riscv.Interrupt.{
  is_supervisor_irq, check_interrupts, timer_test, irp_and, inst_fetch, isa_exec_once,
}
use gs_emu.Cpu.Run.{Emulator, exec_once, execute, cpu_exec}
use gs_emu.Tests.Fixture.{bus, emulator, quiet}

-- The registers 1 and 2, the state and the number of instructions.
abbrev seen : Option (Emulator bus.State) → List ℕ
seen none = []
seen (some e) = e.cpu.gpr 1 ∷ e.cpu.gpr 2 ∷ e.g_nr_guest_inst ∷ e.cpu.nemu_state.halt_pc ∷ []

runs_program : seen (cpu_exec bus false quiet 10 0 1 emulator) ≡ 5 ∷ 25 ∷ 3 ∷ 0x8000_0008 ∷ []
unfolding cpu_exec execute exec_once isa_exec_once inst_fetch irp_and timer_test check_interrupts
    is_supervisor_irq decode_exec reset_zero run_row take_exception is_delegated get_exception exec
    exec_group group exec_alu exec_system exec_ebreak select decode_operand imm_i ◌>>=◌ get_gpr
    set_gpr get_csr set_csr get_csr_field set_csr_field get_cur_pri get_s set_dnpc
    trap_peek_exception recy_exception dnpc_and_check set_nemu_state nemutrap vaddr_read vaddr_write
    mr mw check_csr_idx search_csr get_field set_field guest_to_host paddr_read paddr_write in_pmem
    map_inside fetch_map invoke_callback map_read map_write mmio_read mmio_write load store
    host_read host_write pattern_decode pattern_loop instpat_test
runs_program = refl

abbrev after : Option (Emulator bus.State) → Emulator bus.State
after none = emulator
after (some e) = e

abbrev finished : Emulator bus.State
finished = after (cpu_exec bus false quiet 10 0 1 emulator)

finishes : cpu_exec bus false quiet 10 0 1 emulator ≡ some finished
unfolding cpu_exec execute exec_once isa_exec_once inst_fetch irp_and timer_test check_interrupts
    is_supervisor_irq decode_exec reset_zero run_row take_exception is_delegated get_exception exec
    exec_group group exec_alu exec_system exec_ebreak select decode_operand imm_i ◌>>=◌ get_gpr
    set_gpr get_csr set_csr get_csr_field set_csr_field get_cur_pri get_s set_dnpc
    trap_peek_exception recy_exception dnpc_and_check set_nemu_state nemutrap vaddr_read vaddr_write
    mr mw check_csr_idx search_csr get_field set_field guest_to_host paddr_read paddr_write in_pmem
    map_inside fetch_map invoke_callback map_read map_write mmio_read mmio_write load store
    host_read host_write pattern_decode pattern_loop instpat_test
finishes = refl

abbrev executed : Emulator bus.State
executed = after (execute bus false quiet 10 emulator)

executes : execute bus false quiet 10 emulator ≡ some executed
unfolding execute exec_once isa_exec_once inst_fetch irp_and timer_test check_interrupts
    is_supervisor_irq decode_exec reset_zero run_row take_exception is_delegated get_exception exec
    exec_group group exec_alu exec_system exec_ebreak select decode_operand imm_i ◌>>=◌ get_gpr
    set_gpr get_csr set_csr get_csr_field set_csr_field get_cur_pri get_s set_dnpc
    trap_peek_exception recy_exception dnpc_and_check set_nemu_state nemutrap vaddr_read vaddr_write
    mr mw check_csr_idx search_csr get_field set_field guest_to_host paddr_read paddr_write in_pmem
    map_inside fetch_map invoke_callback map_read map_write mmio_read mmio_write load store
    host_read host_write pattern_decode pattern_loop instpat_test
executes = refl

-- ===== src/Tests/Differential.antt =====
-- The comparison at concrete inputs.
use gs_emu.Base.{
  inl, Bool, some, Option, ℕ, ◌+◌, ◌-◌, ◌*◌, ◌≡◌, ◌^◌, refl, false, none, ltb, ◌==◌, if◌then◌else◌,
  arith,
}
use gs_emu.Decode.Pattern.{pattern_decode, pattern_loop, instpat_test}
use gs_emu.Memory.Host.{load, store, host_read, host_write}
use gs_emu.Memory.IoMap.{
  in_pmem, map_inside, fetch_map, invoke_callback, map_read, map_write, mmio_read, mmio_write,
}
use gs_emu.Memory.Physical.{Memory, guest_to_host, paddr_read, paddr_write}
use gs_emu.Riscv.Csr.{check_csr_idx, search_csr, get_field, set_field}
use gs_emu.Riscv.Machine.{
  Machine, abort, ◌>>=◌, get_gpr, set_gpr, get_csr, set_csr, get_csr_field, set_csr_field,
  get_cur_pri, get_s, set_dnpc, trap_peek_exception, recy_exception, dnpc_and_check, set_nemu_state,
  nemutrap, vaddr_read, vaddr_write, mr, mw,
}
use gs_emu.Riscv.Operand.{decode_operand, imm_i}
use gs_emu.Riscv.Instr.{select}
use gs_emu.Riscv.Exec.{exec, exec_group, group, exec_alu, exec_system, exec_ebreak}
use gs_emu.Riscv.Trap.{
  get_exception, take_exception, is_delegated, reset_zero, run_row, decode_exec,
}
use gs_emu.Riscv.Interrupt.{
  is_supervisor_irq, check_interrupts, timer_test, irp_and, inst_fetch, isa_exec_once,
}
use gs_emu.Cpu.Run.{exec_once}
use gs_emu.Difftest.Dut.{Reference, Difftest, spike, checkregs}
use gs_emu.Difftest.Run.{noted_read, noted_write, finds_map, noted_bus, with_bus, exec_checked}
use gs_emu.Difftest.RunLaws.{exec_checked-copies}
use gs_emu.Difftest.DutLaws.{IsAbs, Differ, checkregs-Far}
use gs_emu.Tests.Fixture.{bus, start, only_left, Dev, memory}

-- A reference that counts its instructions in its program counter.
abbrev counter : Reference ℕ
counter = record {
  exec = λ n. n + 1;
  to_dut = λ n. record { gpr = λ i. if i == 5 then 600 else 0; csr = λ i. 0; pc = 4 * n };
  to_ref = λ c n. n;
  time = λ n. (n, n);
}

abbrev magnitude : ℕ → ℕ
magnitude x = if ltb x (2 ^ 31) then x else 2 ^ 32 - x

magnitude-IsAbs : IsAbs magnitude
magnitude-IsAbs = record { positive = λ x h. ground arith; negative = λ x h k. ground arith }

abbrev comparing : Difftest bus.State ℕ
comparing = record {
  cpu = start;
  reference = 0x2000_0000;
  is_skip_ref = false;
  skip_dut_nr_inst = 0;
  skip_dut_one_inst = false;
}

-- Register 5 is 600 away.
checkregs-Far_example :
    Differ magnitude magnitude-IsAbs spike (counter.to_dut 0x2000_0000) comparing
    × (checkregs spike counter magnitude none (counter.to_dut 0x2000_0000) 4 comparing
        ≡ record comparing {
          cpu = record (comparing.cpu) {
            nemu_state = record (comparing.cpu.nemu_state) { state = abort; halt_pc = 4 };
          };
        })
checkregs-Far_example =
    only_left
      (checkregs-Far magnitude magnitude-IsAbs spike counter none (counter.to_dut 0x2000_0000) 4
        comparing (λ i h. (ground arith, omega arith, ground arith)) refl)
      (λ same. same.0 (inl (5, omega arith, (omega arith, omega arith))))

abbrev noted_next : Option (Unit {0} × Machine (Memory Dev × Bool)) → Machine (Memory Dev × Bool)
noted_next none = with_bus start (memory, false)
noted_next (some (u, m)) = m

abbrev noted_start : Machine (Memory Dev × Bool)
noted_start = with_bus comparing.cpu (comparing.cpu.bus, false)

abbrev executed : Machine (Memory Dev × Bool)
executed = noted_next (exec_once (noted_bus Dev) false noted_start)

executes : exec_once (noted_bus Dev) false noted_start ≡ some (tt, executed)
unfolding noted_read noted_write finds_map exec_once isa_exec_once inst_fetch irp_and timer_test
    check_interrupts is_supervisor_irq decode_exec reset_zero run_row take_exception is_delegated
    get_exception exec exec_group group exec_alu exec_system exec_ebreak select decode_operand imm_i
    ◌>>=◌ get_gpr set_gpr get_csr set_csr get_csr_field set_csr_field get_cur_pri get_s set_dnpc
    trap_peek_exception recy_exception dnpc_and_check set_nemu_state nemutrap vaddr_read vaddr_write
    mr mw check_csr_idx search_csr get_field set_field guest_to_host in_pmem paddr_read paddr_write
    map_inside fetch_map invoke_callback map_read map_write mmio_read mmio_write load store
    host_read host_write pattern_decode pattern_loop instpat_test
executes = refl

-- With Spike, which is far away, the first instruction of the program ends in a copy.
exec_checked-copies_example :
    exec_checked spike counter magnitude false none comparing
    ≡ some (record comparing {
      cpu = with_bus executed executed.bus.0;
      reference = 0x2000_0000;
      is_skip_ref = false;
      skip_dut_nr_inst = 0;
    })
exec_checked-copies_example =
    exec_checked-copies false spike counter magnitude none comparing executed (λ e. cc) refl
      executes

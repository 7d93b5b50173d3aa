-- ===== src/Tests/Monitor.antt =====
-- A start of the emulator with an image, and a run from there.
use gs_emu.Base.{ℕ, ◌≡◌, refl, true, false, Option, none, some, List, [], ◌∷◌, length, arith}
use gs_emu.Decode.Pattern.{pattern_decode, pattern_loop, instpat_test}
use gs_emu.Memory.Host.{load, store, host_read, host_write}
use gs_emu.Memory.IoMap.{
  new_space, add_mmio_map, in_pmem, map_inside, fetch_map, invoke_callback, map_read, map_write,
  mmio_read, mmio_write,
}
use gs_emu.Memory.IoMapLaws.{Disjoint}
use gs_emu.Memory.Physical.{Memory, guest_to_host, paddr_read, paddr_write}
use gs_emu.Riscv.Csr.{check_csr_idx, search_csr, get_field, set_field}
use gs_emu.Riscv.Machine.{
  Machine, ◌>>=◌, get_gpr, set_gpr, get_csr, set_csr, get_csr_field, set_csr_field, get_cur_pri,
  get_s, set_cur_pri, set_dnpc, trap_peek_exception, recy_exception, dnpc_and_check, set_nemu_state,
  nemutrap, vaddr_read, vaddr_write, mr, mw,
}
use gs_emu.Riscv.Operand.{decode_operand, imm_i}
use gs_emu.Riscv.Instr.{select}
use gs_emu.Riscv.Exec.{exec, exec_group, group, exec_alu, exec_system, exec_ebreak}
use gs_emu.Riscv.Trap.{
  get_exception, take_exception, is_delegated, reset_zero, run_row, decode_exec,
}
use gs_emu.Riscv.Interrupt.{
  is_supervisor_irq, check_interrupts, timer_test, irp_and, inst_fetch, isa_exec_once,
}
use gs_emu.Riscv.Init.{clear_amw, csr_init, set_pc, restart}
use gs_emu.Cpu.Run.{Emulator, exec_once, execute, cpu_exec}
use gs_emu.Device.SdCard.{File}
use gs_emu.Device.Clock.{device_update, poll_events, clint_update, vga_update_screen, init_clint}
use gs_emu.Device.Setup.{Config, Setup, D, init_map, init_device, init_clint_region, add_region}
use gs_emu.System.Step.{System, system_bus, update_devices, instruction, here, later}
use gs_emu.System.Invariant.{IsSound}
use gs_emu.System.Runs.{World, device_update_by}
use gs_emu.Monitor.Args.{Opt, Args, parse_args}
use gs_emu.Monitor.Load.{put_words, put_bytes, input_file_load, load_files, load_img}
use gs_emu.Monitor.Init.{Host, no_args, fresh_cpu, fresh_devices, init_isa, init_monitor}
use gs_emu.Monitor.LoadLaws.{At, kernel_place, dtb_place}
use gs_emu.Monitor.InitLaws.{Started}
use gs_emu.Monitor.StartLaws.{init_monitor-starts, reached-IsSound}

-- No image of a card.
abbrev pub no_file : File
no_file = record { F = Unit {0}; fseek = λ p h. h; fread = λ h. (none, h); fwrite = λ w h. h }

abbrev pub clint_only : Config
clint_only = record {
  has_serial = false;
  has_timer = false;
  has_vga = false;
  has_keyboard = false;
  has_audio = false;
  has_sdcard = false;
  has_clint = true;
  has_syscon = false;
  serial_mmio = 0;
  rtc_mmio = 0;
  vga_ctl_mmio = 0;
  fb_addr = 0;
  i8042_data_mmio = 0;
  audio_ctl_mmio = 0;
  sb_addr = 0;
  sb_size = 0;
  sdcard_ctl_mmio = 0;
  clint_mmio = 0x1100_0000;
  syscon_mmio = 0;
  screen_w = 400;
  screen_h = 300;
}

-- addi x1, x0, 5; mul x2, x1, x1; ebreak.
abbrev program : List ℕ
program = 0x93 ∷ 0x00 ∷ 0x50 ∷ 0x00 ∷ 0x33 ∷ 0x81 ∷ 0x10 ∷ 0x02 ∷ 0x73 ∷ 0x00 ∷ 0x10 ∷ 0x00 ∷ []

abbrev pub host : Host (Unit {0})
host = record {
  read_file = λ name. some program;
  pmem = λ a. 0;
  io_space = λ a. 0;
  terminal = record { waiting = []; hung_up = false; is_eofd = false; output = [] };
  card_image = none;
}

abbrev pub options : List Opt
options = Opt.batch ∷ Opt.mode (some 1) ∷ Opt.image [] ∷ []

abbrev pub args : Args
args = record no_args { is_batch_mode = true; cur_pri = 1; img_file = some [] }

abbrev regions : Setup (D no_file)
regions = record {
  p_space = 4096;
  space = init_clint 0 (λ a. 0);
  maps =
      record {
        low = 0x1100_0000;
        high = 0x1100_ffff;
        space = 0;
        callback = some (λ offset len is_write io. some io);
      }
      ∷ [];
}

sets_up : init_device no_file clint_only (init_map host.io_space) ≡ some regions
unfolding init_device init_clint_region add_region new_space add_mmio_map in_pmem
sets_up = refl

init_monitor-starts_example :
    (m : Machine (Memory (D no_file))) × (init_monitor no_file clint_only host options
      ≡ some (args, m))
    × Started no_file host args m
    × At m.bus.pmem 0 program
    × At m.bus.pmem (length program) []
    × At m.bus.pmem kernel_place []
    × At m.bus.pmem dtb_place []
unfolding parse_args
init_monitor-starts_example =
    init_monitor-starts no_file clint_only host options args regions program [] [] [] refl sets_up
      (refl, omega arith) refl refl refl (omega arith) (omega arith) (omega arith) (omega arith)

abbrev machine_of : Option (Args × System no_file) → System no_file → System no_file
machine_of none m = m
machine_of (some (a, m)) n = m

abbrev pub booted : System no_file
booted =
    machine_of (init_monitor no_file clint_only host options)
      (fresh_cpu 0 (record { pmem = λ a. 0; maps = []; io = (λ a. 0, fresh_devices host) }))

pub boots : init_monitor no_file clint_only host options ≡ some (args, booted)
unfolding init_monitor parse_args init_device init_clint_region add_region new_space add_mmio_map
    in_pmem init_isa restart csr_init clear_amw set_pc load_img load_files input_file_load ◌>>=◌
    set_gpr set_csr set_cur_pri recy_exception trap_peek_exception guest_to_host check_csr_idx
    search_csr
boots = refl

abbrev next : Option (Unit {0} × System no_file) → System no_file
next none = booted
next (some (u, m)) = m

abbrev ran : System no_file
ran = next (exec_once (system_bus no_file) false booted)

runs : exec_once (system_bus no_file) false booted ≡ some (tt, ran)
unfolding init_monitor parse_args init_device init_clint_region add_region new_space add_mmio_map
    in_pmem init_isa restart csr_init clear_amw set_pc load_img load_files input_file_load put_bytes
    put_words init_clint set_cur_pri exec_once isa_exec_once inst_fetch irp_and timer_test
    check_interrupts is_supervisor_irq decode_exec reset_zero run_row take_exception is_delegated
    get_exception exec exec_group group exec_alu exec_system exec_ebreak select decode_operand imm_i
    ◌>>=◌ get_gpr set_gpr get_csr set_csr get_csr_field set_csr_field get_cur_pri get_s set_dnpc
    trap_peek_exception recy_exception dnpc_and_check set_nemu_state nemutrap vaddr_read vaddr_write
    mr mw check_csr_idx search_csr get_field set_field guest_to_host paddr_read paddr_write
    map_inside fetch_map invoke_callback map_read map_write mmio_read mmio_write load store
    host_read host_write pattern_decode pattern_loop instpat_test
runs = refl

reached-IsSound_example : IsSound no_file booted.bus.maps ran × Disjoint ran.bus.maps
reached-IsSound_example =
    reached-IsSound no_file clint_only host options args booted ran (λ k. k) 0 false boots
      (later here (instruction runs))

abbrev pub quiet_host : System no_file → World
quiet_host m = record { now = 20000; events = []; us = 0; terminal = host.terminal }

abbrev emulator : Emulator (Memory (D no_file))
emulator = record { cpu = booted; g_nr_guest_inst = 0; g_timer = 0; g_print_step = false }

abbrev run_of : Option (Emulator (Memory (D no_file))) → Emulator (Memory (D no_file))
run_of none = emulator
run_of (some e) = e

abbrev finished : Emulator (Memory (D no_file))
finished = run_of (
    cpu_exec (system_bus no_file) false (device_update_by no_file (λ k. k) 0 false quiet_host) 10 0
      1 emulator)

finishes :
    cpu_exec
      (system_bus no_file)
      false
      (device_update_by no_file (λ k. k) 0 false quiet_host)
      10
      0
      1
      emulator
    ≡ some finished
unfolding init_monitor parse_args init_device init_clint_region add_region new_space add_mmio_map
    in_pmem init_isa restart csr_init clear_amw set_pc load_img load_files input_file_load put_bytes
    put_words init_clint set_cur_pri update_devices device_update poll_events clint_update
    vga_update_screen cpu_exec execute exec_once isa_exec_once inst_fetch irp_and timer_test
    check_interrupts is_supervisor_irq decode_exec reset_zero run_row take_exception is_delegated
    get_exception exec exec_group group exec_alu exec_system exec_ebreak select decode_operand imm_i
    ◌>>=◌ get_gpr set_gpr get_csr set_csr get_csr_field set_csr_field get_cur_pri get_s set_dnpc
    trap_peek_exception recy_exception dnpc_and_check set_nemu_state nemutrap vaddr_read vaddr_write
    mr mw check_csr_idx search_csr get_field set_field guest_to_host paddr_read paddr_write
    map_inside fetch_map invoke_callback map_read map_write mmio_read mmio_write load store
    host_read host_write pattern_decode pattern_loop instpat_test
finishes = refl

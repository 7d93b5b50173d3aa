-- ===== src/Tests/Main.antt =====
-- The program as a whole on a start with an image: the batch mode, and a session that is left by `q`.
use gs_emu.Base.{ℕ, ◌≡◌, ◌↔◌, ◌++◌, Bool, refl, false, Option, none, some, List, [], ◌∷◌}
use gs_emu.Decode.Pattern.{pattern_decode, pattern_loop, instpat_test}
use gs_emu.Memory.Host.{load, store, host_read, host_write}
use gs_emu.Memory.IoMap.{
  new_space, add_mmio_map, in_pmem, map_inside, fetch_map, invoke_callback, map_read, map_write,
  mmio_read, mmio_write,
}
use gs_emu.Memory.IoMapLaws.{Disjoint}
use gs_emu.Memory.Physical.{Memory, guest_to_host, paddr_read, paddr_write}
use gs_emu.Riscv.Csr.{check_csr_idx, search_csr, get_field, set_field}
use gs_emu.Riscv.Machine.{
  ◌>>=◌, get_gpr, set_gpr, get_csr, set_csr, get_csr_field, set_csr_field, get_cur_pri, get_s,
  set_cur_pri, set_dnpc, trap_peek_exception, recy_exception, dnpc_and_check, set_nemu_state,
  nemutrap, vaddr_read, vaddr_write, mr, mw,
}
use gs_emu.Riscv.Operand.{decode_operand, imm_i}
use gs_emu.Riscv.Instr.{select}
use gs_emu.Riscv.Exec.{exec, exec_group, group, exec_alu, exec_system, exec_ebreak}
use gs_emu.Riscv.Trap.{
  get_exception, take_exception, is_delegated, reset_zero, run_row, decode_exec,
}
use gs_emu.Riscv.Interrupt.{
  is_supervisor_irq, check_interrupts, timer_test, irp_and, inst_fetch, isa_exec_once,
}
use gs_emu.Riscv.Init.{clear_amw, csr_init, set_pc, restart}
use gs_emu.Cpu.Run.{Emulator, exec_once, execute, cpu_exec}
use gs_emu.Device.Clock.{device_update, poll_events, clint_update, vga_update_screen, init_clint}
use gs_emu.Device.Setup.{D, init_device, init_clint_region, add_region}
use gs_emu.System.Step.{System, system_bus, update_devices, Reach}
use gs_emu.System.Invariant.{IsSound}
use gs_emu.System.Runs.{device_update_by}
use gs_emu.Monitor.Args.{Opt, Args, parse_args}
use gs_emu.Monitor.Load.{put_words, put_bytes, input_file_load, load_files, load_img}
use gs_emu.Monitor.Init.{init_isa, init_monitor}
use gs_emu.Cpu.Run.{set_state, is_exit_status_bad}
use gs_emu.Riscv.Machine.{quit}
use gs_emu.Riscv.Instr.{codes}
use gs_emu.Sdb.Outcome.{Outcome, ok}
use gs_emu.Sdb.Command.{
  Sdb, with_cpu, cmd_c, cmd_si, handler, one_line, find_command, read_lines, sdb_mainloop,
}
use gs_emu.Monitor.Main.{session_of, engine_start, main}
use gs_emu.Monitor.MainLaws.{EndsWell, main-Reach, main-quit}
use gs_emu.Tests.Monitor.{no_file, clint_only, host, options, args, booted, quiet_host}

abbrev clock : Emulator (Memory (D no_file)) → ℕ × ℕ
clock e = (0, 1)

abbrev number_in : List ℕ → ℕ
number_in s = 0

abbrev nothing : List ℕ → List ℕ → Option (ℕ × ℕ)
nothing p s = none

-- Every line is one word.
abbrev one_word : List ℕ → List ℕ → Option (List ℕ × List ℕ)
one_word [] delims = none
one_word (c ∷ cs) delims = some (c ∷ cs, [])

abbrev run_main : List Opt → List (List ℕ) → Outcome (Bool × Sdb (Memory (D no_file)))
run_main opts lines =
    main no_file (λ k. k) 0 false quiet_host clock nothing number_in number_in one_word clint_only
      host opts 5 lines

abbrev at_end : Outcome (Bool × Sdb (Memory (D no_file))) → Sdb (Memory (D no_file))
at_end (ok (b, s)) = s
at_end _ = session_of no_file args booted

ends_well : run_main options [] ≡ ok (false, at_end (run_main options []))
unfolding main engine_start sdb_mainloop cmd_c is_exit_status_bad init_monitor parse_args
    init_device init_clint_region add_region new_space add_mmio_map in_pmem init_isa restart
    csr_init clear_amw set_pc load_img load_files input_file_load put_bytes put_words init_clint
    set_cur_pri update_devices device_update poll_events clint_update vga_update_screen cpu_exec
    execute exec_once isa_exec_once inst_fetch irp_and timer_test check_interrupts is_supervisor_irq
    decode_exec reset_zero run_row take_exception is_delegated get_exception exec exec_group group
    exec_alu exec_system exec_ebreak select decode_operand imm_i ◌>>=◌ get_gpr set_gpr get_csr
    set_csr get_csr_field set_csr_field get_cur_pri get_s set_dnpc trap_peek_exception
    recy_exception dnpc_and_check set_nemu_state nemutrap vaddr_read vaddr_write mr mw check_csr_idx
    search_csr get_field set_field guest_to_host paddr_read paddr_write map_inside fetch_map
    invoke_callback map_read map_write mmio_read mmio_write load store host_read host_write
    pattern_decode pattern_loop instpat_test
ends_well = refl

main-Reach_example :
    (a : Args) × (m : System no_file) × (init_monitor no_file clint_only host options ≡ some (a, m))
    × Reach no_file (λ k. k) 0 false m (at_end (run_main options [])).emu.cpu
    × IsSound no_file m.bus.maps (at_end (run_main options [])).emu.cpu
    × Disjoint (at_end (run_main options [])).emu.cpu.bus.maps
    × ((false ≡ false) ↔ EndsWell (at_end (run_main options [])).emu.cpu.nemu_state)
main-Reach_example =
    main-Reach no_file (λ k. k) 0 false quiet_host clock nothing number_in number_in one_word
      clint_only host options 5 [] false (at_end (run_main options [])) ends_well

-- The same start outside the batch mode, and the command `si`.
abbrev by_hand : List Opt
by_hand = Opt.mode (some 1) ∷ Opt.image [] ∷ []

abbrev by_hand_args : Args
by_hand_args = record args { is_batch_mode = false }

boots_by_hand : init_monitor no_file clint_only host by_hand ≡ some (by_hand_args, booted)
unfolding init_monitor parse_args init_device init_clint_region add_region new_space add_mmio_map
    in_pmem init_isa restart csr_init clear_amw set_pc load_img load_files input_file_load put_bytes
    put_words init_clint set_cur_pri update_devices device_update poll_events clint_update
    vga_update_screen cpu_exec execute exec_once isa_exec_once inst_fetch irp_and timer_test
    check_interrupts is_supervisor_irq decode_exec reset_zero run_row take_exception is_delegated
    get_exception exec exec_group group exec_alu exec_system exec_ebreak select decode_operand imm_i
    ◌>>=◌ get_gpr set_gpr get_csr set_csr get_csr_field set_csr_field get_cur_pri get_s set_dnpc
    trap_peek_exception recy_exception dnpc_and_check set_nemu_state nemutrap vaddr_read vaddr_write
    mr mw check_csr_idx search_csr get_field set_field guest_to_host paddr_read paddr_write
    map_inside fetch_map invoke_callback map_read map_write mmio_read mmio_write load store
    host_read host_write pattern_decode pattern_loop instpat_test
boots_by_hand = refl

abbrev step_session : Outcome (Sdb (Memory (D no_file)))
step_session =
    read_lines (system_bus no_file) false (device_update_by no_file (λ k. k) 0 false quiet_host)
      clock nothing number_in number_in one_word 5 (codes "si" ∷ [])
      (session_of no_file by_hand_args booted)

abbrev session_end : Outcome (Sdb (Memory (D no_file))) → Sdb (Memory (D no_file))
session_end (ok s) = s
session_end _ = session_of no_file by_hand_args booted

abbrev stepped : Sdb (Memory (D no_file))
stepped = session_end step_session

steps_once : step_session ≡ ok stepped
unfolding read_lines one_line find_command handler cmd_si init_monitor parse_args init_device
    init_clint_region add_region new_space add_mmio_map in_pmem init_isa restart csr_init clear_amw
    set_pc load_img load_files input_file_load put_bytes put_words init_clint set_cur_pri
    update_devices device_update poll_events clint_update vga_update_screen cpu_exec execute
    exec_once isa_exec_once inst_fetch irp_and timer_test check_interrupts is_supervisor_irq
    decode_exec reset_zero run_row take_exception is_delegated get_exception exec exec_group group
    exec_alu exec_system exec_ebreak select decode_operand imm_i ◌>>=◌ get_gpr set_gpr get_csr
    set_csr get_csr_field set_csr_field get_cur_pri get_s set_dnpc trap_peek_exception
    recy_exception dnpc_and_check set_nemu_state nemutrap vaddr_read vaddr_write mr mw check_csr_idx
    search_csr get_field set_field guest_to_host paddr_read paddr_write map_inside fetch_map
    invoke_callback map_read map_write mmio_read mmio_write load store host_read host_write
    pattern_decode pattern_loop instpat_test
steps_once = refl

main-quit_example :
    run_main by_hand ((codes "si" ∷ []) ++ codes "q" ∷ (codes "c" ∷ []))
    ≡ ok (false, with_cpu (set_state stepped.emu.cpu quit) stepped)
main-quit_example =
    main-quit no_file (λ k. k) 0 false quiet_host clock nothing number_in number_in one_word
      clint_only host by_hand 5 (codes "si" ∷ []) (codes "c" ∷ []) (codes "q") [] by_hand_args
      booted stepped boots_by_hand refl refl steps_once

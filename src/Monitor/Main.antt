-- ===== src/Monitor/Main.antt =====
-- `main` of src/nemu-main.c and `engine_start` of src/engine/interpreter/init.c: the start, the
-- session of the debugger, and the exit status.
use gs_emu.Base.{ℕ, Bool, false, Option, none, some, List, []}
use gs_emu.Memory.Physical.{Memory}
use gs_emu.Cpu.Run.{Emulator, is_exit_status_bad}
use gs_emu.Sdb.Outcome.{Outcome, ok, fault, ◌>>=◌}
use gs_emu.Sdb.Command.{Sdb, sdb_mainloop}
use gs_emu.Device.SdCard.{File}
use gs_emu.Device.Setup.{Config, D}
use gs_emu.System.Step.{System, system_bus}
use gs_emu.System.Runs.{World, device_update_by}
use gs_emu.Monitor.Args.{Opt, Args}
use gs_emu.Monitor.Init.{Host, init_monitor}

module _ (file : File) where
  -- The debugger after `init_monitor`. The counters of the run are zero as the program starts.
  abbrev pub session_of : Args → System file → Sdb (Memory (D file))
  session_of a m = record {
    emu = record { cpu = m; g_nr_guest_inst = 0; g_timer = 0; g_print_step = false };
    is_batch_mode = a.is_batch_mode;
    printed = [];
  }

  module _ (keymap : ℕ → ℕ) (clint_base : ℕ) (mem_all_access : Bool) (world : System file → World)
      (clock : Emulator (Memory (D file)) → ℕ × ℕ) (regexec : List ℕ → List ℕ → Option (ℕ × ℕ))
      (atol strtol : List ℕ → ℕ) (strtok : List ℕ → List ℕ → Option (List ℕ × List ℕ)) where
    unfoldable pub engine_start :
        ℕ → List (List ℕ) → Sdb (Memory (D file)) → Outcome (Sdb (Memory (D file)))
    engine_start =
        sdb_mainloop (system_bus file) mem_all_access
          (device_update_by file keymap clint_base mem_all_access world) clock regexec atol strtol
          strtok

    -- The status that `main` returns, and the state at the end. `fuel` bounds the rounds of a command
    -- `c` with an address.
    unfoldable pub main :
        Config → Host file.F → List Opt → ℕ → List (List ℕ) → Outcome (Bool × Sdb (Memory (D file)))
    main c host options fuel lines = elim (init_monitor file c host options) [
      | none ↦ fault
      | some (a, m) ↦ engine_start fuel lines (session_of a m) >>= λ s.
          ok (is_exit_status_bad s.emu.cpu.nemu_state, s)
    ]

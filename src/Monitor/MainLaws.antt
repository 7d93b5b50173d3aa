-- ===== src/Monitor/MainLaws.antt =====
-- What `main` (src/nemu-main.c) comes to.
use gs_emu.Base.{
  ℕ, ◌≡◌, ◌⊎◌, ◌↔◌, refl, ap, sym, subst, Bool, false, Option, some, List, ◌∷◌, ◌++◌, Option-cases,
  inl, inr, arith,
}
use gs_emu.Memory.IoMapLaws.{Disjoint}
use gs_emu.Memory.Physical.{Memory}
use gs_emu.Riscv.Machine.{NemuState, end, quit}
use gs_emu.Riscv.Instr.{codes}
use gs_emu.Cpu.Run.{Emulator, set_state, is_exit_status_bad}
use gs_emu.Sdb.Outcome.{ok, When, Outcome-cases, ok_inj}
use gs_emu.Sdb.Command.{Sdb, with_cpu, read_lines, sdb_mainloop}
use gs_emu.Sdb.CommandLaws.{read_lines-quit}
use gs_emu.Sdb.RunKeeps.{Allows}
use gs_emu.Sdb.SessionKeeps.{sdb_mainloop-keeps}
use gs_emu.Device.SdCard.{File}
use gs_emu.Device.Setup.{Config, D}
use gs_emu.System.Step.{System, system_bus, Reach, here, later, reading, control}
use gs_emu.System.Invariant.{IsSound}
use gs_emu.System.Runs.{World, device_update_by, Reach-trans, cpu_exec-Reach}
use gs_emu.Monitor.Args.{Opt, Args}
use gs_emu.Monitor.Init.{Host, init_monitor}
use gs_emu.Monitor.Main.{session_of, engine_start, main}
use gs_emu.Monitor.StartLaws.{reached-IsSound}

-- The run ended with a good trap, or the debugger was left by its command.
abbrev pub EndsWell : NemuState → Type 0
EndsWell n = ((n.state ≡ end) × (n.halt_ret ≡ 0)) ⊎ (n.state ≡ quit)

module _ (file : File) (keymap : ℕ → ℕ) (clint_base : ℕ) (mem_all_access : Bool)
    (world : System file → World) (clock : Emulator (Memory (D file)) → ℕ × ℕ)
    (regexec : List ℕ → List ℕ → Option (ℕ × ℕ)) (atol strtol : List ℕ → ℕ)
    (strtok : List ℕ → List ℕ → Option (List ℕ × List ℕ)) where
  abbrev From : System file → System file → Type 0
  From m t = Reach file keymap clint_base mem_all_access m t

  reach-Allows :
      (m : System file)
      → Allows
          (system_bus file)
          mem_all_access
          (device_update_by file keymap clint_base mem_all_access world)
          (From m)
  reach-Allows m = record {
    runs = λ n x y e f h ran.
        Reach-trans file keymap clint_base mem_all_access h
          (cpu_exec-Reach file keymap clint_base mem_all_access world n x y e f ran);
    reads = λ a n v t u h e. later h (reading a n v e);
    quits = λ t h. later h (control quit refl);
  }

  engine_start-Reach :
      (fuel : ℕ) (lines : List (List ℕ)) (a : Args) (m : System file) (s : Sdb (Memory (D file)))
      → engine_start file keymap clint_base mem_all_access world clock regexec atol strtol strtok
          fuel lines
          (session_of file a m)
        ≡ ok s
      → From m s.emu.cpu
  unfolding engine_start
  engine_start-Reach fuel lines a m s e = subst (When (λ t. From m t.emu.cpu)) e (
      sdb_mainloop-keeps (system_bus file) mem_all_access
        (device_update_by file keymap clint_base mem_all_access world) clock regexec atol strtol
        strtok (From m) (reach-Allows m) fuel lines (session_of file a m) here)

  exit_status-EndsWell : (n : NemuState) → (is_exit_status_bad n ≡ false) ↔ EndsWell n
  unfolding is_exit_status_bad
  exit_status-EndsWell n = ground arith

  module _ (c : Config) (host : Host file.F) (options : List Opt) where
    main-parts :
        (fuel : ℕ) (lines : List (List ℕ)) (bad : Bool) (s : Sdb (Memory (D file)))
        → main file keymap clint_base mem_all_access world clock regexec atol strtol strtok c host
            options fuel lines
          ≡ ok (bad, s)
        → (a : Args) × (m : System file) × (init_monitor file c host options ≡ some (a, m))
          × (engine_start file keymap clint_base mem_all_access world clock regexec atol strtol
                strtok fuel lines
                (session_of file a m)
              ≡ ok s)
          × (bad ≡ is_exit_status_bad s.emu.cpu.nemu_state)
    unfolding main
    main-parts fuel lines bad s e = elim (Option-cases (init_monitor file c host options)) [
      | inl failed ↦ ground (arith, failed)
      | inr ((a, m), starts) ↦
          elim (Outcome-cases (
            engine_start file keymap clint_base mem_all_access world clock regexec atol strtol
              strtok fuel lines (session_of file a m))) [
                | inl (t, ended) ↦
                    let same = ok_inj (rw (main, starts, ended) at e) in
                    let at_end = ap (λ x. x.1) same in
                    let status : bad ≡ is_exit_status_bad t.emu.cpu.nemu_state =
                      sym (ap (λ x. x.0) same) in
                    (
                      a,
                      m,
                      starts,
                      subst
                          (λ (x : Sdb (Memory (D file))).
                            engine_start file keymap clint_base mem_all_access world clock regexec
                              atol strtol strtok fuel lines (session_of file a m)
                            ≡ ok x)
                          at_end ended,
                      subst
                          (λ (x : Sdb (Memory (D file))).
                            bad ≡ is_exit_status_bad x.emu.cpu.nemu_state)
                          at_end status,
                    )
                | inr failed ↦ elim failed [
                  | inl b ↦ ground (arith, starts, b)
                  | inr b ↦ ground (arith, starts, b)
                ]
              ]
    ]

    -- When `main` returns, the emulator has started, and the state at the end is reached from
    -- that start by steps of the emulator, whatever lines the debugger was given and whatever
    -- the host did between the instructions; that state is sound, no address is in two regions,
    -- and the exit status is good exactly when the program ended with the value 0 in its trap or
    -- the debugger was left by QUIT.
    pub main-Reach :
        (fuel : ℕ) (lines : List (List ℕ)) (bad : Bool) (s : Sdb (Memory (D file)))
        → main file keymap clint_base mem_all_access world clock regexec atol strtol strtok c host
            options fuel lines
          ≡ ok (bad, s)
        → (a : Args) × (m : System file) × (init_monitor file c host options ≡ some (a, m))
          × From m s.emu.cpu
          × IsSound file m.bus.maps s.emu.cpu
          × Disjoint s.emu.cpu.bus.maps
          × ((bad ≡ false) ↔ EndsWell s.emu.cpu.nemu_state)
    main-Reach fuel lines bad s e =
        let (a, m, starts, ran, status) = main-parts fuel lines bad s e in
        let reached = engine_start-Reach fuel lines a m s ran in
        let sound =
          reached-IsSound file c host options a m s.emu.cpu keymap clint_base mem_all_access starts
            reached in
        (
          a,
          m,
          starts,
          reached,
          sound.0,
          sound.1,
          rw status (exit_status-EndsWell s.emu.cpu.nemu_state),
        )

    -- When the emulator starts outside the batch mode and the debugger's session on some lines
    -- returns, a line `q` behind them makes `main` return with a good status, in the state of
    -- that session with QUIT set, whatever lines come behind the `q`, when `strtok` takes that
    -- line to the word `q`.
    pub main-quit :
        (fuel : ℕ) (before after : List (List ℕ)) (line rest : List ℕ) (a : Args) (m : System file)
        (t : Sdb (Memory (D file)))
        → init_monitor file c host options ≡ some (a, m)
        → a.is_batch_mode ≡ false
        → strtok line (codes " ") ≡ some (codes "q", rest)
        → read_lines
            (system_bus file)
            mem_all_access
            (device_update_by file keymap clint_base mem_all_access world)
            clock
            regexec
            atol
            strtol
            strtok
            fuel
            before
            (session_of file a m)
          ≡ ok t
        → main file keymap clint_base mem_all_access world clock regexec atol strtol strtok c host
            options fuel
            (before ++ line ∷ after)
          ≡ ok (false, with_cpu (set_state t.emu.cpu quit) t)
    unfolding main engine_start sdb_mainloop is_exit_status_bad
    main-quit fuel before after line rest a m t starts manual word session =
        let ran =
          read_lines-quit (system_bus file) mem_all_access
            (device_update_by file keymap clint_base mem_all_access world) clock regexec atol strtol
            strtok fuel before after line rest (session_of file a m) t word session in
        rw (main, starts, engine_start, sdb_mainloop, manual) (rw (rw manual at ran) refl)

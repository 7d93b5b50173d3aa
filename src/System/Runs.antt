-- ===== src/System/Runs.antt =====
-- The run of the emulator (src/cpu/cpu-exec.c) with the update of the devices in its loop.
use gs_emu.Word.{u64}
use gs_emu.Base.{
  ℕ, zero, suc, ltb, ◌+◌, ◌-◌, ◌^◌, ◌∙◌, ◌≡◌, refl, sym, subst, Bool, Bool-cases, some, List,
  Option-cases, inl, inr, arith,
}
use gs_emu.Memory.Physical.{Memory}
use gs_emu.Riscv.Machine.{Cmd, running, stop}
use gs_emu.Cpu.Run.{
  Emulator, is_running, is_ended, set_state, exec_once, execute, counted, settle, cpu_exec,
}
use gs_emu.Cpu.Laws.{execute-zero, execute-fails, execute-stops, execute-breaks, execute-next}
use gs_emu.Device.SdCard.{File}
use gs_emu.Device.SetupLaws.{some_inj}
use gs_emu.Device.Serial.{Terminal}
use gs_emu.Device.Clock.{Event}
use gs_emu.Device.Setup.{D}
use gs_emu.System.Step.{
  System, system_bus, update_devices, Reach, Step, with_devices, time, instruction, update, control,
  here, later,
}

-- What the host gives at an update: its time, the events that wait, the clock that a timer reads,
-- and the terminal.
pub record World : Type 0 where
  pub now : ℕ
  pub events : List Event
  pub us : ℕ
  pub terminal : Terminal

module _ (file : File) (keymap : ℕ → ℕ) (clint_base : ℕ) (mem_all_access : Bool) where
  pub Reach-trans :
      {m t u : System file}
      → Reach file keymap clint_base mem_all_access m t
      → Reach file keymap clint_base mem_all_access t u
      → Reach file keymap clint_base mem_all_access m u
  Reach-trans r here = r
  Reach-trans r (later s st) = later (Reach-trans r s) st

  module _ (host : System file → World) where
    -- What the host has done since the last update, and the update.
    abbrev pub device_update_by : Cmd (Memory (D file)) (Unit {0})
    device_update_by m = update_devices file keymap clint_base (host m).now (host m).events (
        with_devices file m
          (record (m.bus.io.1) { us = (host m).us; terminal = (host m).terminal }))

    execute-Reach :
        (n : ℕ) (e f : Emulator (Memory (D file)))
        → execute (system_bus file) mem_all_access device_update_by n e ≡ some f
        → Reach file keymap clint_base mem_all_access e.cpu f.cpu
    execute-Reach zero e f h =
        let same =
          some_inj (rw (execute-zero (system_bus file) mem_all_access device_update_by e) at h) in
        subst
          (λ (x : Emulator (Memory (D file))).
            Reach file keymap clint_base mem_all_access e.cpu x.cpu)
          same here
    execute-Reach (suc n) e f h =
        elim (Option-cases (exec_once (system_bus file) mem_all_access e.cpu)) [
          | inl bad ↦
              cc (h, execute-fails (system_bus file) mem_all_access device_update_by n e bad)
          | inr ((t, m), ran) ↦ elim (Bool-cases (is_running m.nemu_state.state)) [
            | inr ended ↦
                let same = some_inj (
                  sym (
                    execute-stops (system_bus file) mem_all_access device_update_by n e m ran ended)
                  ∙ h) in
                subst
                  (λ (x : Emulator (Memory (D file))).
                    Reach file keymap clint_base mem_all_access e.cpu x.cpu)
                  same (later here (instruction ran))
            | inl going ↦ elim (Option-cases (device_update_by m)) [
              | inl bad ↦ cc (
                h,
                execute-breaks (system_bus file) mem_all_access device_update_by n e m ran going
                    bad,
              )
              | inr ((u, d), updated) ↦
                  let rest =
                    execute-Reach n (counted (system_bus file) mem_all_access device_update_by e d)
                      f
                      (cc (
                        h,
                        execute-next (system_bus file) mem_all_access device_update_by n e m d ran
                            going updated,
                      )) in
                  Reach-trans
                    (later
                      (later (later (later here (instruction ran)) (time (host m).us refl))
                        (Step.terminal (host m).terminal refl))
                      (update _ _ updated))
                    rest
            ]
          ]
        ]

    settle-Reach :
        (e : Emulator (Memory (D file)))
        → Reach file keymap clint_base mem_all_access e.cpu
            (settle (system_bus file) mem_all_access device_update_by e).cpu
    settle-Reach e = elim (Bool-cases (is_running e.cpu.nemu_state.state)) [
      | inl runs ↦ rw (runs, settle) (later here (control stop refl))
      | inr stays ↦ rw (stays, settle) here
    ]

    -- A run of `cpu_exec` that returns, with the update of the devices in its loop and any time,
    -- events and input of the host at each update, is made of steps of the emulator: instructions,
    -- updates, and the changes of the state at its begin and end.
    pub cpu_exec-Reach :
        (n timer_start timer_end : ℕ) (e f : Emulator (Memory (D file)))
        → cpu_exec (system_bus file) mem_all_access device_update_by n timer_start timer_end e
          ≡ some f
        → Reach file keymap clint_base mem_all_access e.cpu f.cpu
    unfolding cpu_exec
    cpu_exec-Reach n timer_start timer_end e f h =
        elim (Bool-cases (is_ended e.cpu.nemu_state.state)) [
          | inl ended ↦
              let same = some_inj (rw (cpu_exec, ended) at h) in
              subst
                (λ (x : Emulator (Memory (D file))).
                  Reach file keymap clint_base mem_all_access e.cpu x.cpu)
                same here
          | inr live ↦
              let e' : Emulator (Memory (D file)) = record e {
                cpu = set_state e.cpu running;
                g_print_step = ltb n 10;
              } in
              elim (Option-cases (execute (system_bus file) mem_all_access device_update_by n e')) [
                | inl bad ↦ ground (arith, live, bad)
                | inr (g, good) ↦
                    let same = some_inj (rw (cpu_exec, live, good) at h) in
                    let ran =
                      Reach-trans (later here (control running refl)) (execute-Reach n e' g good) in
                    subst
                      (λ (x : Emulator (Memory (D file))).
                        Reach file keymap clint_base mem_all_access e.cpu x.cpu)
                      same
                      (Reach-trans ran (
                        settle-Reach (record g {
                          g_timer = u64 (g.g_timer + (timer_end + 2 ^ 64 - timer_start));
                        })))
              ]
        ]

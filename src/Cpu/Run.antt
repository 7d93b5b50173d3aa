-- ===== src/Cpu/Run.antt =====
-- src/cpu/cpu-exec.c `exec_once`, `execute`, `cpu_exec`; src/utils/state.c `is_exit_status_bad`.
-- Traces, messages and statistics are left out; differential testing is switched off here, and on in
-- Difftest/Run. `Decode s`, a local of `execute`, is a part of the machine that `exec_once` sets.
use gs_emu.Base.{ℕ, zero, suc, ◌+◌, ◌-◌, ◌^◌, Bool, true, false, not, Option, none, some, ltb, ◌==◌}
use gs_emu.Word.{u64}
use gs_emu.Bus.{Bus}
use gs_emu.Riscv.Machine.{Machine, Cmd, ◌>>◌, RunState, running, stop, end, abort, quit, NemuState}
use gs_emu.Riscv.Interrupt.{isa_exec_once}

pub record Emulator (B : Type 0) : Type 0 where
  pub cpu : Machine B
  pub g_nr_guest_inst : ℕ
  pub g_timer : ℕ
  pub g_print_step : Bool

abbrev pub is_running : RunState → Bool
is_running running = true
is_running _ = false

abbrev pub is_ended : RunState → Bool
is_ended end = true
is_ended abort = true
is_ended _ = false

-- `is_exit_status_bad`.
unfoldable pub is_exit_status_bad : NemuState → Bool
is_exit_status_bad n = not (elim n.state [ end ↦ n.halt_ret == 0 | quit ↦ true | _ ↦ false ])

abbrev pub set_state : {B : Type 0} → Machine B → RunState → Machine B
set_state m st = record m { nemu_state = record (m.nemu_state) { state = st } }

module _ (bus : Bus) (mem_all_access : Bool) where
  -- `exec_once(s, cpu.pc)`.
  unfoldable pub exec_once : Cmd bus.State (Unit {0})
  exec_once = do
    λ m. some (tt, record m { s = record (m.s) { pc = m.pc; snpc = m.pc } })
    isa_exec_once bus mem_all_access
    λ m. some (tt, record m { pc = m.s.dnpc })

  -- `device_update` of src/device/device.c, which polls the clock and the window system.
  module _ (device_update : Cmd bus.State (Unit {0})) where
    abbrev pub counted : Emulator bus.State → Machine bus.State → Emulator bus.State
    counted e m = record e { cpu = m; g_nr_guest_inst = u64 (e.g_nr_guest_inst + 1) }

    -- `execute(n)`: `n` falls to 0, or an instruction ends the run.
    unfoldable pub execute : ℕ → Emulator bus.State → Option (Emulator bus.State)
    execute zero e = some e
    execute (suc n) e = elim (exec_once e.cpu) [
      | none ↦ none
      | some (_, m) ↦ elim (is_running m.nemu_state.state) [
        | false ↦ some (counted e m)
        | true ↦ elim (device_update m) [ none ↦ none | some (_, d) ↦ execute n (counted e d) ]
      ]
    ]

    -- The `switch` after the run.
    abbrev pub settle : Emulator bus.State → Emulator bus.State
    settle e = elim (is_running e.cpu.nemu_state.state) [
      | true ↦ record e { cpu = set_state e.cpu stop }
      | false ↦ e
    ]

    -- `cpu_exec(n)`; the two times are what `get_time` gives before and after the run.
    unfoldable pub cpu_exec : ℕ → ℕ → ℕ → Emulator bus.State → Option (Emulator bus.State)
    cpu_exec n timer_start timer_end e =
        let e' = record e { g_print_step = ltb n 10 } in
        elim (is_ended e.cpu.nemu_state.state) [
          | true ↦ some e'
          | false ↦ elim (execute n (record e' { cpu = set_state e.cpu running })) [
            | none ↦ none
            | some f ↦ some (
                settle
                  (record f { g_timer = u64 (f.g_timer + (timer_end + 2 ^ 64 - timer_start)) }))
          ]
        ]

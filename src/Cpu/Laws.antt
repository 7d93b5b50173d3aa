-- ===== src/Cpu/Laws.antt =====
-- The run of `cpu_exec` as a whole.
use gs_emu.Base.{
  ℕ, zero, suc, ◌+◌, ◌^◌, ◌<◌, ◌≤◌, ◌≡◌, refl, Bool, true, false, Option, none, some, arith, ltb,
  Bool-cases, Option-cases, inl, inr,
}
use native.Mathlib.Nat.{zero-add, suc-add}
use gs_emu.Word.{u64}
use gs_emu.Bus.{Bus}
use gs_emu.Riscv.Machine.{Machine, Cmd, RunState, running, stop, end, abort, quit}
use gs_emu.Cpu.Run.{Emulator, is_running, is_ended, exec_once, execute, counted, settle, cpu_exec}

is_running-is_ended : (st : RunState) → is_ended st ≡ true → is_running st ≡ false
is_running-is_ended running h = cc
is_running-is_ended stop h = refl
is_running-is_ended end h = refl
is_running-is_ended abort h = refl
is_running-is_ended quit h = refl

module _ (bus : Bus) (mem_all_access : Bool) (device_update : Cmd bus.State (Unit {0})) where
  -- In the states END and ABORT `cpu_exec` executes nothing: it returns the emulator with only
  -- the flag for printing set.
  pub cpu_exec-ended :
      (n t u : ℕ) (e : Emulator bus.State)
      → is_ended e.cpu.nemu_state.state ≡ true
      → cpu_exec bus mem_all_access device_update n t u e
        ≡ some (record e { g_print_step = ltb n 10 })
  unfolding cpu_exec
  cpu_exec-ended n t u e h = rw (h, cpu_exec)

  settle-stops :
      (e : Emulator bus.State)
      → is_running (settle bus mem_all_access device_update e).cpu.nemu_state.state ≡ false
  settle-stops e = ground arith

  -- However a run of the emulator that returns ends, its state is not RUNNING.
  pub cpu_exec-stops :
      (n t u : ℕ) (e f : Emulator bus.State)
      → cpu_exec bus mem_all_access device_update n t u e ≡ some f
      → is_running f.cpu.nemu_state.state ≡ false
  unfolding cpu_exec
  cpu_exec-stops n t u e f h = elim (Bool-cases (is_ended e.cpu.nemu_state.state)) [
    | inl ended ↦
        let same : record e { g_print_step = ltb n 10 } ≡ f =
          cc (h, cpu_exec-ended n t u e ended) in
        rw (← same) (is_running-is_ended e.cpu.nemu_state.state ended)
    | inr live ↦ ground (arith, live)
  ]

  pub execute-zero :
      (e : Emulator bus.State) → execute bus mem_all_access device_update 0 e ≡ some e
  unfolding execute
  execute-zero e = refl

  pub execute-fails :
      (n : ℕ) (e : Emulator bus.State)
      → exec_once bus mem_all_access e.cpu ≡ none
      → execute bus mem_all_access device_update (suc n) e ≡ none
  unfolding execute
  execute-fails n e h = rw (h, execute)

  pub execute-stops :
      (n : ℕ) (e : Emulator bus.State) (m : Machine bus.State)
      → exec_once bus mem_all_access e.cpu ≡ some (tt, m)
      → is_running m.nemu_state.state ≡ false
      → execute bus mem_all_access device_update (suc n) e
        ≡ some (counted bus mem_all_access device_update e m)
  unfolding execute
  execute-stops n e m h r = rw (h, execute) (rw (r, execute))

  pub execute-breaks :
      (n : ℕ) (e : Emulator bus.State) (m : Machine bus.State)
      → exec_once bus mem_all_access e.cpu ≡ some (tt, m)
      → is_running m.nemu_state.state ≡ true
      → device_update m ≡ none
      → execute bus mem_all_access device_update (suc n) e ≡ none
  unfolding execute
  execute-breaks n e m h r d = ground (arith, h, r, d)

  pub execute-next :
      (n : ℕ) (e : Emulator bus.State) (m m' : Machine bus.State)
      → exec_once bus mem_all_access e.cpu ≡ some (tt, m)
      → is_running m.nemu_state.state ≡ true
      → device_update m ≡ some (tt, m')
      → execute bus mem_all_access device_update (suc n) e
        ≡ execute bus mem_all_access device_update n (counted bus mem_all_access device_update e m')
  unfolding execute
  execute-next n e m m' h r d = ground (arith, h, r, d)

  -- When a run of at most n instructions succeeds, the instruction counter, a number of 64
  -- digits, has grown by some k of at most n, modulo 2 ^ 64.
  pub execute-counts :
      (n : ℕ) (e f : Emulator bus.State)
      → e.g_nr_guest_inst < 2 ^ 64
      → execute bus mem_all_access device_update n e ≡ some f
      → (k : ℕ) × (k ≤ n) × (f.g_nr_guest_inst ≡ u64 (e.g_nr_guest_inst + k))
  execute-counts zero e f lt h = (0, omega arith, unfold execute in ground (arith, h))
  execute-counts (suc n) e f lt h = elim (Option-cases (exec_once bus mem_all_access e.cpu)) [
    | inl bad ↦ cc (h, execute-fails n e bad)
    | inr ((t, m), ran) ↦ elim (Bool-cases (is_running m.nemu_state.state)) [
      | inr ended ↦ (1, omega arith, ground (arith, execute-stops n e m ran ended))
      | inl going ↦ elim (Option-cases (device_update m)) [
        | inl bad ↦ cc (h, execute-breaks n e m ran going bad)
        | inr ((u, d), updated) ↦
            let (k, le, eq) =
              execute-counts n (counted bus mem_all_access device_update e d) f (omega arith)
                (cc (h, execute-next n e m d ran going updated)) in
            (suc k, omega arith, omega arith)
      ]
    ]
  ]

  -- What follows `a` instructions of a longer run.
  abbrev pub resume : ℕ → Option (Emulator bus.State) → Option (Emulator bus.State)
  resume b none = none
  resume b (some f) = elim (is_running f.cpu.nemu_state.state) [
    | true ↦ execute bus mem_all_access device_update b f
    | false ↦ some f
  ]

  -- Where the devices leave the state of the emulator alone and the emulator runs, a run of a +
  -- b instructions is a run of a and, if that has not ended the emulation, a run of b.
  pub execute-add :
      ((m m' : Machine bus.State)
        → device_update m ≡ some (tt, m')
        → m'.nemu_state.state ≡ m.nemu_state.state)
      → (a b : ℕ) (e : Emulator bus.State) → is_running e.cpu.nemu_state.state ≡ true
      → execute bus mem_all_access device_update (a + b) e
        ≡ resume b (execute bus mem_all_access device_update a e)
  execute-add quiet zero b e h = rw (zero-add, execute-zero) (rw (h, resume))
  execute-add quiet (suc a) b e h =
      rw suc-add (elim (Option-cases (exec_once bus mem_all_access e.cpu)) [
        | inl bad ↦ rw (execute-fails (a + b) e bad, execute-fails a e bad)
        | inr ((t, m), ran) ↦ elim (Bool-cases (is_running m.nemu_state.state)) [
          | inr ended ↦
              rw (execute-stops (a + b) e m ran ended, execute-stops a e m ran ended) (rw ended)
          | inl going ↦ elim (Option-cases (device_update m)) [
            | inl bad ↦
                rw (execute-breaks (a + b) e m ran going bad, execute-breaks a e m ran going bad)
            | inr ((u, d), updated) ↦
                rw
                  (
                    execute-next (a + b) e m d ran going updated,
                    execute-next a e m d ran going updated,
                  )
                  (execute-add quiet a b (counted bus mem_all_access device_update e d)
                    (rw (quiet m d updated) going))
          ]
        ]
      ])

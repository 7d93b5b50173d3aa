-- ===== src/Sdb/ContinueLaws.antt =====
-- The `while` of `cmd_c` in src/monitor/sdb/sdb.c: single steps up to an address.
use gs_emu.Base.{
  ℕ, zero, suc, ◌+◌, ◌^◌, ◌<◌, ◌≡◌, ◌≢◌, ◌⊎◌, refl, Bool, true, false, ◌&&◌, not, ◌==◌, arith,
  Bool-cases, Option-cases, inl, inr, Option, some, List,
}
use gs_emu.Word.{u64}
use gs_emu.Bus.{Bus}
use gs_emu.Riscv.Machine.{Cmd, RunState, running, stop, end, abort, quit}
use gs_emu.Cpu.Run.{Emulator, cpu_exec, execute, set_state, is_ended}
use gs_emu.Sdb.Outcome.{Outcome, ok, fault, timeout, Outcome-cases}
use gs_emu.Sdb.Command.{Sdb, can_go_on, run, continue_to}

module _ (bus : Bus) (mem_all_access : Bool) (device_update : Cmd bus.State (Unit {0}))
    (clock : Emulator bus.State → ℕ × ℕ) (regexec : List ℕ → List ℕ → Option (ℕ × ℕ))
    (atol strtol : List ℕ → ℕ) (strtok : List ℕ → List ℕ → Option (List ℕ × List ℕ)) where
  -- The debugger has to go on: the address is not reached, and the emulation is RUNNING or in STOP.
  abbrev Waits : ℕ → Sdb bus.State → Type 0
  Waits v s =
      (s.emu.cpu.pc ≢ v)
      × ((s.emu.cpu.nemu_state.state ≡ running) ⊎ (s.emu.cpu.nemu_state.state ≡ stop))

  -- The address is reached, or the emulation is in END, ABORT or QUIT.
  abbrev Done : ℕ → Sdb bus.State → Type 0
  Done v s =
      (s.emu.cpu.pc ≡ v)
      ⊎ ((s.emu.cpu.nemu_state.state ≡ end)
          ⊎ ((s.emu.cpu.nemu_state.state ≡ abort) ⊎ (s.emu.cpu.nemu_state.state ≡ quit)))

  abbrev one_run : Sdb bus.State → Outcome (Sdb bus.State)
  one_run = run bus mem_all_access device_update clock regexec atol strtol strtok 1

  -- Some number of runs of one instruction, the debugger waiting before each.
  pub data Steps (v : ℕ) (t : Sdb bus.State) : ℕ → Sdb bus.State → Type 0 where
    here : Steps v t 0 t
    after :
        {j : ℕ} {s u : Sdb bus.State}
        → Waits v s
        → one_run s ≡ ok u
        → Steps v t j u
        → Steps v t (suc j) s

  abbrev loop : ℕ → ℕ → Sdb bus.State → Outcome (Sdb bus.State)
  loop = continue_to bus mem_all_access device_update clock regexec atol strtol strtok

  can_go_on-cases :
      (st : RunState)
      → ((can_go_on st ≡ true) × ((st ≡ running) ⊎ (st ≡ stop)))
        ⊎ ((can_go_on st ≡ false) × ((st ≡ end) ⊎ ((st ≡ abort) ⊎ (st ≡ quit))))
  can_go_on-cases running = inl (refl, inl refl)
  can_go_on-cases stop = inl (refl, inr refl)
  can_go_on-cases end = inr (refl, inl refl)
  can_go_on-cases abort = inr (refl, inr (inl refl))
  can_go_on-cases quit = inr (refl, inr (inr refl))

  abbrev waits : ℕ → Sdb bus.State → Bool
  waits v s = not (s.emu.cpu.pc == v) && can_go_on s.emu.cpu.nemu_state.state

  waits-cases :
      (v : ℕ) (s : Sdb bus.State)
      → ((waits v s ≡ true) × Waits v s) ⊎ ((waits v s ≡ false) × Done v s)
  waits-cases v s = elim (Bool-cases (s.emu.cpu.pc == v)) [
    | inl e ↦ inr (rw e refl, inl (ground arith))
    | inr e ↦ elim (can_go_on-cases s.emu.cpu.nemu_state.state) [
      | inl (g, w) ↦ inl (rw (e, g) refl, ((λ f. ground (arith, e, f)), w))
      | inr (g, w) ↦ inr (rw (e, g) refl, inr w)
    ]
  ]

  execute_one :
      (e f : Emulator bus.State)
      → execute bus mem_all_access device_update 1 e ≡ some f
      → f.g_nr_guest_inst ≡ u64 (e.g_nr_guest_inst + 1)
  unfolding execute
  execute_one e f h = ground arith

  goes_on : (st : RunState) → (st ≡ running) ⊎ (st ≡ stop) → is_ended st ≡ false
  goes_on st (inl e) = rw e refl
  goes_on st (inr e) = rw e refl

  run_one :
      (v : ℕ) (s u : Sdb bus.State)
      → Waits v s
      → one_run s ≡ ok u
      → u.emu.g_nr_guest_inst ≡ u64 (s.emu.g_nr_guest_inst + 1)
  unfolding cpu_exec
  run_one v s u live h =
      let e' : Emulator bus.State = record (s.emu) {
        g_print_step = true;
        cpu = set_state s.emu.cpu running;
      } in
      let on = goes_on s.emu.cpu.nemu_state.state live.1 in
      elim (Option-cases (execute bus mem_all_access device_update 1 e')) [
        | inl bad ↦ ground (arith, bad, on)
        | inr (f, good) ↦ ground (arith, on, good, execute_one e' f good)
      ]

  Steps-counts :
      (v : ℕ) (t : Sdb bus.State) (k : ℕ) (s : Sdb bus.State)
      → Steps v t k s
      → s.emu.g_nr_guest_inst < 2 ^ 64
      → t.emu.g_nr_guest_inst ≡ u64 (s.emu.g_nr_guest_inst + k)
  Steps-counts v t zero s here h = omega arith
  Steps-counts v t (suc j) s (after {u = u} live step rest) h =
      let one = run_one v s u live step in omega (arith, Steps-counts v t j u rest (omega arith))

  one_run-Ends : (s : Sdb bus.State) → one_run s ≡ timeout → ⊥
  one_run-Ends s e =
      elim (Option-cases
        (cpu_exec bus mem_all_access device_update 1 (clock s.emu).0 (clock s.emu).1 s.emu)) [
          | inl bad ↦ ground (arith, bad, e)
          | inr (f, good) ↦ ground (arith, good, e)
        ]

  -- Before the rounds are used up: the state is reached by fewer single steps than the rounds.
  abbrev Reached : ℕ → ℕ → Sdb bus.State → Sdb bus.State → Type 0
  Reached v fuel s t =
      (k : ℕ) × (k < fuel)
      × Steps v t k s
      × (t.emu.g_nr_guest_inst ≡ u64 (s.emu.g_nr_guest_inst + k))

  -- What the loop comes to from `s`.
  pub data Arrived (v fuel : ℕ) (s : Sdb bus.State) : Outcome (Sdb bus.State) → Type 0 where
    arrived : (t : Sdb bus.State) → Reached v fuel s t → Done v t → Arrived v fuel s (ok t)
    failed :
        (t : Sdb bus.State)
        → Reached v fuel s t
        → Waits v t
        → one_run t ≡ fault
        → Arrived v fuel s fault
    unfinished : (t : Sdb bus.State) → Steps v t fuel s → Arrived v fuel s timeout

  Reached-after :
      (v fuel : ℕ) (s u t : Sdb bus.State)
      → s.emu.g_nr_guest_inst < 2 ^ 64
      → Waits v s
      → one_run s ≡ ok u
      → Reached v fuel u t
      → Reached v (suc fuel) s t
  Reached-after v fuel s u t h w step (k, below, path, counted) =
      (suc k, omega arith, after w step path, Steps-counts v t (suc k) s (after w step path) h)

  Arrived-after :
      (v fuel : ℕ) (s u : Sdb bus.State) (r : Outcome (Sdb bus.State))
      → s.emu.g_nr_guest_inst < 2 ^ 64
      → Waits v s
      → one_run s ≡ ok u
      → Arrived v fuel u r
      → Arrived v (suc fuel) s r
  Arrived-after v fuel s u _ h w step (arrived t path done) =
      arrived t (Reached-after v fuel s u t h w step path) done
  Arrived-after v fuel s u _ h w step (failed t path waits' bad) =
      failed t (Reached-after v fuel s u t h w step path) waits' bad
  Arrived-after v fuel s u _ h w step (unfinished t path) = unfinished t (after w step path)

  Reached-here :
      (v fuel : ℕ) (s : Sdb bus.State) → s.emu.g_nr_guest_inst < 2 ^ 64 → Reached v (suc fuel) s s
  Reached-here v fuel s h = (0, omega arith, here, omega arith)

  -- The loop of `cmd_c` comes to one of three things. It returns a state that fewer single steps
  -- than the rounds given lead to, where the address is reached or the emulation is in END,
  -- ABORT or QUIT. It fails, because in a state that fewer steps lead to the next step fails. Or
  -- it has used up the rounds, as many steps. Before each step the address is not reached and
  -- the emulation is RUNNING or in STOP, and in the first two cases the instruction counter, a
  -- number of 64 digits, has grown by the number of steps, modulo 2 ^ 64.
  pub continue_to-Arrived :
      (v fuel : ℕ) (s : Sdb bus.State)
      → s.emu.g_nr_guest_inst < 2 ^ 64
      → Arrived v fuel s
          (continue_to bus mem_all_access device_update clock regexec atol strtol strtok fuel v s)
  unfolding continue_to
  continue_to-Arrived v zero s h = unfinished s here
  continue_to-Arrived v (suc fuel) s h = elim (waits-cases v s) [
    | inr (stopped, done) ↦ rw (continue_to, stopped) (arrived s (Reached-here v fuel s h) done)
    | inl (live, w) ↦ elim (Outcome-cases (one_run s)) [
      | inl (u, step) ↦
          rw (continue_to, live, step)
            (Arrived-after v fuel s u _ h w step
              (continue_to-Arrived v fuel u (rw (run_one v s u w step) (omega arith))))
      | inr bad ↦ elim bad [
        | inl b ↦ rw (continue_to, live, b) (failed s (Reached-here v fuel s h) w b)
        | inr b ↦ absurd (one_run-Ends s b)
      ]
    ]
  ]

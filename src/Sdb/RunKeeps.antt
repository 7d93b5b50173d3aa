-- ===== src/Sdb/RunKeeps.antt =====
-- What the commands of the debugger (src/monitor/sdb/sdb.c) that run the emulator keep of the processor
-- when a run, a read of memory and the state QUIT keep it.
use gs_emu.Base.{
  ℕ, zero, suc, ◌^◌, ◌-◌, ◌≡◌, Bool, ◌&&◌, not, Option, none, some, List, ◌==◌, Option-cases,
  Bool-cases, inl, inr,
}
use gs_emu.Word.{u32}
use gs_emu.Bus.{Bus}
use gs_emu.Riscv.Machine.{Machine, Cmd, quit, vaddr_read}
use gs_emu.Riscv.Instr.{codes}
use gs_emu.Cpu.Run.{Emulator, cpu_exec, set_state}
use gs_emu.Sdb.Outcome.{Outcome, ok, ◌>>=◌, When, >>=-When, When-if}
use gs_emu.Sdb.Eval.{expr}
use gs_emu.Sdb.EvalKeeps.{Gives}
use gs_emu.Sdb.ExprKeeps.{expr-keeps}
use gs_emu.Sdb.Command.{
  Sdb, Returned, expr_error, say_return, returned_0, returned_1, with_cpu, run, target, with_expr,
  can_go_on, continue_to, cmd_c, cmd_si,
}

-- What a session does to the processor keeps the property.
pub record Allows (bus : Bus) (mem_all_access : Bool) (device_update : Cmd bus.State (Unit {0}))
    (P : Machine bus.State → Type 0) : Type 0 where
  pub runs :
      (n timer_start timer_end : ℕ) (e f : Emulator bus.State)
      → P e.cpu
      → cpu_exec bus mem_all_access device_update n timer_start timer_end e ≡ some f
      → P f.cpu
  pub reads :
      (a n v : ℕ) (m t : Machine bus.State)
      → P m
      → vaddr_read bus mem_all_access a n m ≡ some (v, t)
      → P t
  pub quits : (m : Machine bus.State) → P m → P (set_state m quit)

module _ (bus : Bus) (mem_all_access : Bool) (device_update : Cmd bus.State (Unit {0}))
    (clock : Emulator bus.State → ℕ × ℕ) (regexec : List ℕ → List ℕ → Option (ℕ × ℕ))
    (atol strtol : List ℕ → ℕ) (strtok : List ℕ → List ℕ → Option (List ℕ × List ℕ))
    (P : Machine bus.State → Type 0) (allows : Allows bus mem_all_access device_update P) where
  -- The property of the processor of a session.
  abbrev Holds : Sdb bus.State → Type 0
  Holds s = P s.emu.cpu

  abbrev HoldsAfter : {A : Type 0} → A × Sdb bus.State → Type 0
  HoldsAfter (a, s) = Holds s

  abbrev run_by : ℕ → Sdb bus.State → Outcome (Sdb bus.State)
  run_by = run bus mem_all_access device_update clock regexec atol strtol strtok

  run-keeps : (n : ℕ) (s : Sdb bus.State) → Holds s → When Holds (run_by n s)
  run-keeps n s h =
      elim (Option-cases
        (cpu_exec bus mem_all_access device_update n (clock s.emu).0 (clock s.emu).1 s.emu)) [
          | inl bad ↦ rw (run_by, run, bad) tt
          | inr (e, good) ↦ rw (run_by, run, good) (allows.runs n _ _ s.emu e h good)
        ]

  -- A run and then the value 0.
  run_0-keeps :
      (n : ℕ) (s : Sdb bus.State)
      → Holds s
      → When HoldsAfter (run_by n s >>= λ t. ok (returned_0, t))
  run_0-keeps n s h = >>=-When Holds HoldsAfter (run_by n s) _ (run-keeps n s h) (λ t k. k)

  pub with_expr-keeps :
      (arg : List ℕ) (k : ℕ → Sdb bus.State → Outcome (Returned × Sdb bus.State))
      (s : Sdb bus.State)
      → ((v : ℕ) (t : Sdb bus.State) → Holds t → When HoldsAfter (k v t))
      → Holds s
      → When HoldsAfter
          (with_expr bus mem_all_access device_update clock regexec atol strtol strtok arg k s)
  with_expr-keeps arg k s next h =
      >>=-When (Gives P) HoldsAfter
        (expr (target bus mem_all_access device_update clock regexec atol strtol strtok) atol strtol
          regexec arg s.emu.cpu)
        _ (expr-keeps P _ allows.reads atol strtol regexec arg s.emu.cpu h) go_on
    where
      go_on :
          (r : Option (ℕ × Machine bus.State))
          → Gives P r
          → When HoldsAfter (elim r [
            | none ↦ say_return expr_error returned_1 s
            | some (v, m) ↦ k v (with_cpu m s)
          ])
      go_on none g = h
      go_on (some (v, m)) g = next v (with_cpu m s) g

  continue_to-keeps :
      (fuel v : ℕ) (s : Sdb bus.State)
      → Holds s
      → When Holds
          (continue_to bus mem_all_access device_update clock regexec atol strtol strtok fuel v s)
  unfolding continue_to
  continue_to-keeps zero v s h = tt
  continue_to-keeps (suc fuel) v s h =
      elim (Bool-cases (not (s.emu.cpu.pc == v) && can_go_on s.emu.cpu.nemu_state.state)) [
        | inr stopped ↦ rw (continue_to, stopped) h
        | inl live ↦
            rw (continue_to, live)
              (>>=-When Holds Holds (run_by 1 s) _ (run-keeps 1 s h)
                (λ t k. continue_to-keeps fuel v t k))
      ]

  pub cmd_c-keeps :
      (fuel : ℕ) (rest : List ℕ) (s : Sdb bus.State)
      → Holds s
      → When HoldsAfter
          (cmd_c bus mem_all_access device_update clock regexec atol strtol strtok fuel rest s)
  unfolding cmd_c
  cmd_c-keeps fuel rest s h =
      let all = run_0-keeps (2 ^ 64 - 1) s h in
      let to = λ (arg : List ℕ).
        with_expr-keeps arg
          (λ v t.
            continue_to bus mem_all_access device_update clock regexec atol strtol strtok fuel v t
            >>= λ u. ok (returned_0, u))
          s
          (λ v t k.
            >>=-When Holds HoldsAfter
              (continue_to bus mem_all_access device_update clock regexec atol strtol strtok fuel v
                t)
              _ (continue_to-keeps fuel v t k) (λ u l. l))
          h in
      When-if HoldsAfter s.is_batch_mode _ _ all (elim (Option-cases (strtok rest (codes "\n"))) [
        | inl bare ↦ rw bare all
        | inr ((arg, r), word) ↦ rw word (to arg)
      ])

  pub cmd_si-keeps :
      (rest : List ℕ) (s : Sdb bus.State)
      → Holds s
      → When HoldsAfter
          (cmd_si bus mem_all_access device_update clock regexec atol strtol strtok rest s)
  unfolding cmd_si
  cmd_si-keeps rest s h = elim (Option-cases (strtok rest (codes " "))) [
    | inl bare ↦ rw (cmd_si, bare) (run_0-keeps 1 s h)
    | inr ((arg, r), word) ↦ elim (Bool-cases (u32 (atol arg) == 0)) [
      | inl z ↦ rw (cmd_si, word, z) h
      | inr n ↦ rw (cmd_si, word, n) (run_0-keeps (u32 (atol arg)) s h)
    ]
  ]

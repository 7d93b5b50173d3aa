-- ===== src/Sdb/Command.antt =====
-- src/monitor/sdb/sdb.c: the commands and the loop that reads them. The lines come from
-- `readline`, the end of the input is the end of the list. `strtok`, `atol`, `strtol` and `regexec`
-- of the C library are parameters: `strtok` takes the text left and the delimiters to the next word
-- and the text left behind it. What is printed is a list of `Printed`, the latest last.
mod Table
unfoldable pub use Table.*
use gs_emu.Base.{
  ℕ, zero, suc, ◌+◌, ◌*◌, ◌-◌, ◌^◌, Bool, true, false, ◌&&◌, ◌||◌, not, Option, none, some, List,
  [], ◌∷◌, ◌++◌, ◌==◌, if◌then◌else◌,
}
use gs_emu.Word.{u32}
use gs_emu.Bus.{Bus}
use gs_emu.Riscv.Machine.{Machine, Cmd, RunState, running, stop, quit, vaddr_read}
use gs_emu.Riscv.Names.{isa_reg_str2val, same_text}
use gs_emu.Riscv.Instr.{codes}
use gs_emu.Cpu.Run.{Emulator, cpu_exec, set_state}
use gs_emu.Sdb.Outcome.{Outcome, ok, fault, timeout, ◌>>=◌}
use gs_emu.Sdb.Eval.{Target, expr}

module _ {B : Type 0} where
  abbrev pub say : List Printed → Sdb B → Sdb B
  say ps s = record s { printed = s.printed ++ ps }

  abbrev pub say_return : Printed → Returned → Sdb B → Outcome (Returned × Sdb B)
  say_return v r s = ok (r, say (v ∷ []) s)

  abbrev pub with_cpu : Machine B → Sdb B → Sdb B
  with_cpu m s = record s { emu = record (s.emu) { cpu = m } }

  unfoldable pub cmd_q : Sdb B → Outcome (Returned × Sdb B)
  cmd_q s = ok (returned_minus_1, with_cpu (set_state s.emu.cpu quit) s)

  unfoldable pub cmd_clear : Sdb B → Outcome (Returned × Sdb B)
  cmd_clear s = ok (returned_0, s)

  unfoldable pub cmd_help :
      (List ℕ → List ℕ → Option (List ℕ × List ℕ)) → List ℕ → Sdb B → Outcome (Returned × Sdb B)
  cmd_help strtok rest s = elim (strtok rest (codes " ")) [
    | none ↦ ok (returned_0, say (names_of cmd_table) s)
    | some (arg, _) ↦ elim (find_command cmd_table arg) [
      | none ↦ say_return (unknown_command arg) returned_0 s
      | some _ ↦ say_return (command_help arg) returned_0 s
    ]
  ]

  unfoldable pub cmd_info :
      (List ℕ → List ℕ → Option (List ℕ × List ℕ)) → List ℕ → Sdb B → Outcome (Returned × Sdb B)
  cmd_info strtok rest s = elim (strtok rest (codes " ")) [
    | none ↦ say_return all_registers returned_0 s
    | some (arg, rest') ↦
        if same_text arg (codes "r") || same_text arg (codes "registers")
        then (elim (strtok rest' (codes " ")) [
          | none ↦ say_return all_registers returned_0 s
          | some (name, _) ↦ elim (isa_reg_str2val s.emu.cpu name) [
            | none ↦ say_return (bad_register name) returned_0 s
            | some val ↦ say_return (register name val) returned_0 s
          ]
        ])
        else (if same_text arg (codes "all-registers")
            then say_return all_registers returned_0 s
            else (if same_text arg (codes "w")
                then say_return watch_points returned_0 s
                else (if same_text arg (codes "p")
                    then say_return (privilege s.emu.cpu.cur_pri) returned_0 s
                    else say_return all_registers returned_0 s)))
  ]

module _ (bus : Bus) (mem_all_access : Bool) (device_update : Cmd bus.State (Unit {0}))
    (clock : Emulator bus.State → ℕ × ℕ) (regexec : List ℕ → List ℕ → Option (ℕ × ℕ))
    (atol strtol : List ℕ → ℕ) (strtok : List ℕ → List ℕ → Option (List ℕ × List ℕ)) where
  -- `cpu_exec(n)`; `clock` gives the times before and after the run.
  abbrev pub run : ℕ → Sdb bus.State → Outcome (Sdb bus.State)
  run n s =
      elim (cpu_exec bus mem_all_access device_update n (clock s.emu).0 (clock s.emu).1 s.emu) [
        | none ↦ fault
        | some e ↦ ok (record s { emu = e })
      ]

  abbrev pub target : Target (Machine bus.State)
  target = record {
    isa_reg_str2val = λ name m. isa_reg_str2val m name;
    vaddr_read = λ addr len m. vaddr_read bus mem_all_access addr len m;
  }

  -- `expr(arg, &SUCCESS)` and the message where it fails.
  abbrev pub with_expr :
      List ℕ
      → (ℕ → Sdb bus.State → Outcome (Returned × Sdb bus.State))
      → Sdb bus.State
      → Outcome (Returned × Sdb bus.State)
  with_expr arg k s = expr target atol strtol regexec arg s.emu.cpu >>= λ r. elim r [
    | none ↦ say_return expr_error returned_1 s
    | some (v, m) ↦ k v (with_cpu m s)
  ]

  -- The `while` of `cmd_c`.
  unfoldable pub continue_to : ℕ → ℕ → Sdb bus.State → Outcome (Sdb bus.State)
  continue_to zero expr_value s = timeout
  continue_to (suc fuel) expr_value s =
      elim (not (s.emu.cpu.pc == expr_value) && can_go_on s.emu.cpu.nemu_state.state) [
        | false ↦ ok s
        | true ↦ run 1 s >>= continue_to fuel expr_value
      ]

  -- `cpu_exec(-1)`.
  abbrev pub run_all : Sdb bus.State → Outcome (Returned × Sdb bus.State)
  run_all s = run (2 ^ 64 - 1) s >>= λ s'. ok (returned_0, s')

  unfoldable pub cmd_c : ℕ → List ℕ → Sdb bus.State → Outcome (Returned × Sdb bus.State)
  cmd_c fuel rest s = if s.is_batch_mode then run_all s else (elim (strtok rest (codes "\n")) [
    | none ↦ run_all s
    | some (arg, _) ↦ with_expr arg (λ v t. continue_to fuel v t >>= λ u. ok (returned_0, u)) s
  ])

  -- `N` has 32 bits, so that the test of it holds for 0 only.
  unfoldable pub cmd_si : List ℕ → Sdb bus.State → Outcome (Returned × Sdb bus.State)
  cmd_si rest s = elim (strtok rest (codes " ")) [
    | none ↦ run 1 s >>= λ t. ok (returned_0, t)
    | some (arg, _) ↦
        if u32 (atol arg) == 0
        then say_return (bad_argument arg) returned_1 s
        else (run (u32 (atol arg)) s >>= λ t. ok (returned_0, t))
  ]

  abbrev pub read_byte : ℕ → Machine bus.State → Outcome (ℕ × Machine bus.State)
  read_byte addr m = elim (vaddr_read bus mem_all_access (u32 addr) 1 m) [
    | none ↦ fault
    | some r ↦ ok r
  ]

  -- A row of `cmd_x`; C leaves the order of the four reads open.
  abbrev pub print_row : ℕ → Sdb bus.State → Outcome (Sdb bus.State)
  print_row addr s = read_byte (addr + 3) s.emu.cpu >>= λ r3. read_byte (addr + 2) r3.1 >>= λ r2.
      read_byte (addr + 1) r2.1 >>= λ r1. read_byte addr r1.1 >>= λ r0.
      ok (with_cpu r0.1 (say (memory_row (u32 addr) r3.0 r2.0 r1.0 r0.0 ∷ []) s))

  -- The `for` of `cmd_x`, `n` rows from the row `i` on.
  unfoldable pub print_rows : ℕ → ℕ → ℕ → Sdb bus.State → Outcome (Sdb bus.State)
  print_rows zero i expr_value s = ok s
  print_rows (suc n) i expr_value s =
      print_row (expr_value + 4 * i) s >>= print_rows n (i + 1) expr_value

  unfoldable pub cmd_x : List ℕ → Sdb bus.State → Outcome (Returned × Sdb bus.State)
  cmd_x rest s = elim (strtok rest (codes " ")) [
    | none ↦ print_rows 1 0 0 s >>= λ t. ok (returned_0, t)
    | some (arg, rest') ↦
        if u32 (atol arg) == 0
        then say_return (bad_argument arg) returned_1 s
        else (elim (strtok rest' (codes "\n")) [
          | none ↦ say_return expr_empty returned_1 s
          | some (text, _) ↦
              with_expr text (λ v t. print_rows (u32 (atol arg)) 0 v t >>= λ u. ok (returned_0, u))
                s
        ])
  ]

  unfoldable pub cmd_exp : List ℕ → Sdb bus.State → Outcome (Returned × Sdb bus.State)
  cmd_exp rest s = elim (strtok rest (codes "\n")) [
    | none ↦ say_return expr_empty returned_1 s
    | some (arg, _) ↦ with_expr arg (λ v t. say_return (value v) returned_0 t) s
  ]

  -- `cmd_table[i].handler(args)`; the handlers read their words by `strtok`.
  unfoldable pub handler : ℕ → Command → List ℕ → Sdb bus.State → Outcome (Returned × Sdb bus.State)
  handler fuel do_help rest s = cmd_help strtok rest s
  handler fuel do_c rest s = cmd_c fuel rest s
  handler fuel do_q rest s = cmd_q s
  handler fuel do_si rest s = cmd_si rest s
  handler fuel do_clear rest s = cmd_clear s
  handler fuel do_info rest s = cmd_info strtok rest s
  handler fuel do_x rest s = cmd_x rest s
  handler fuel do_p rest s = cmd_exp rest s

  -- A line: `false` is the `return` of the loop.
  unfoldable pub one_line : ℕ → List ℕ → Sdb bus.State → Outcome (Bool × Sdb bus.State)
  one_line fuel str s = elim (strtok str (codes " ")) [
    | none ↦ ok (true, s)
    | some (cmd, rest) ↦ elim (find_command cmd_table cmd) [
      | none ↦ ok (true, say (unknown_command cmd ∷ []) s)
      | some k ↦ handler fuel k rest s >>= λ r. elim r.0 [
        | returned_minus_1 ↦ ok (false, r.1)
        | _ ↦ ok (true, r.1)
      ]
    ]
  ]

  unfoldable pub read_lines : ℕ → List (List ℕ) → Sdb bus.State → Outcome (Sdb bus.State)
  read_lines fuel [] s = ok s
  read_lines fuel (str ∷ lines) s =
      one_line fuel str s >>= λ r. elim r.0 [ true ↦ read_lines fuel lines r.1 | false ↦ ok r.1 ]

  -- The events of the window system that the loop drops are no part of the state.
  unfoldable pub sdb_mainloop : ℕ → List (List ℕ) → Sdb bus.State → Outcome (Sdb bus.State)
  sdb_mainloop fuel lines s =
      if s.is_batch_mode then (cmd_c fuel [] s >>= λ r. ok r.1) else read_lines fuel lines s

unfoldable pub sdb_set_batch_mode : {B : Type 0} → Sdb B → Sdb B
sdb_set_batch_mode s = record s { is_batch_mode = true }

-- ===== src/Sdb/Command/Table.antt =====
-- src/monitor/sdb/sdb.c: the table of the commands, what they print and return, and the state.
use gs_emu.Base.{ℕ, Bool, true, false, Option, none, some, List, [], ◌∷◌, if◌then◌else◌}
use gs_emu.Riscv.Machine.{RunState, running, stop}
use gs_emu.Riscv.Names.{same_text}
use gs_emu.Riscv.Instr.{codes}
use gs_emu.Cpu.Run.{Emulator}

-- What a command prints.
pub data Printed : Type 0 where
  expr_error expr_empty all_registers watch_points : Printed
  bad_argument bad_register unknown_command command_help : List ℕ → Printed
  register : List ℕ → ℕ → Printed
  privilege value : ℕ → Printed
  memory_row : ℕ → ℕ → ℕ → ℕ → ℕ → Printed

-- What a handler returns: 0, 1 or -1.
pub data Returned : Type 0 where
  returned_0 returned_1 returned_minus_1 : Returned

pub record Sdb (B : Type 0) : Type 0 where
  pub emu : Emulator B
  pub is_batch_mode : Bool
  pub printed : List Printed

-- `cmd_table`, without the descriptions.
pub data Command : Type 0 where
  do_help do_c do_q do_si do_clear do_info do_x do_p : Command

abbrev pub cmd_table : List (List ℕ × Command)
cmd_table =
    (codes "help", do_help)
    ∷ (codes "c", do_c)
    ∷ (codes "q", do_q)
    ∷ (codes "si", do_si)
    ∷ (codes "clear", do_clear)
    ∷ (codes "info", do_info)
    ∷ (codes "x", do_x)
    ∷ (codes "p", do_p)
    ∷ []

-- The `for` over the table.
unfoldable pub find_command : List (List ℕ × Command) → List ℕ → Option Command
find_command [] cmd = none
find_command ((name, k) ∷ rest) cmd =
    let others = find_command rest cmd in if same_text cmd name then some k else others

abbrev pub names_of : List (List ℕ × Command) → List Printed
names_of [] = []
names_of ((name, k) ∷ rest) = command_help name ∷ names_of rest

-- The states in which `cmd_c` goes on.
abbrev pub can_go_on : RunState → Bool
can_go_on running = true
can_go_on stop = true
can_go_on _ = false

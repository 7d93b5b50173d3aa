-- ===== src/Sdb/SessionKeeps.antt =====
-- What a session of the debugger (src/monitor/sdb/sdb.c) keeps of the processor when a run of the
-- emulator, a read of memory and the state QUIT keep it.
use gs_emu.Base.{
  ℕ, zero, suc, ◌+◌, ◌*◌, Bool, true, false, Option, List, [], ◌∷◌, ◌==◌, Option-cases, Bool-cases,
  inl, inr, arith,
}
use gs_emu.Word.{u32}
use gs_emu.Bus.{Bus}
use gs_emu.Riscv.Machine.{Machine, Cmd, vaddr_read}
use gs_emu.Riscv.Instr.{codes}
use gs_emu.Cpu.Run.{Emulator}
use gs_emu.Sdb.Outcome.{Outcome, ok, ◌>>=◌, When, >>=-When, When-if}
use gs_emu.Sdb.Command.{
  Sdb, Command, do_help, do_c, do_q, do_si, do_clear, do_info, do_x, do_p, Returned, say_return,
  returned_0, returned_1, returned_minus_1, read_byte, print_row, print_rows, cmd_help, cmd_c,
  cmd_q, cmd_clear, cmd_info, cmd_x, cmd_exp, handler, one_line, read_lines, sdb_mainloop,
  find_command, cmd_table, value,
}
use gs_emu.Sdb.RunKeeps.{Allows, with_expr-keeps, cmd_c-keeps, cmd_si-keeps}

module _ (bus : Bus) (mem_all_access : Bool) (device_update : Cmd bus.State (Unit {0}))
    (clock : Emulator bus.State → ℕ × ℕ) (regexec : List ℕ → List ℕ → Option (ℕ × ℕ))
    (atol strtol : List ℕ → ℕ) (strtok : List ℕ → List ℕ → Option (List ℕ × List ℕ))
    (P : Machine bus.State → Type 0) (allows : Allows bus mem_all_access device_update P) where
  -- The property of the processor of a session.
  abbrev Holds : Sdb bus.State → Type 0
  Holds s = P s.emu.cpu

  abbrev HoldsAfter : {A : Type 0} → A × Sdb bus.State → Type 0
  HoldsAfter (a, s) = Holds s

  cmd_help-keeps :
      (rest : List ℕ) (s : Sdb bus.State) → Holds s → When HoldsAfter (cmd_help strtok rest s)
  unfolding cmd_help
  cmd_help-keeps rest s h = ground arith

  cmd_info-keeps :
      (rest : List ℕ) (s : Sdb bus.State) → Holds s → When HoldsAfter (cmd_info strtok rest s)
  unfolding cmd_info
  cmd_info-keeps rest s h = ground arith

  -- The read of one byte.
  abbrev byte_at : ℕ → Machine bus.State → Outcome (ℕ × Machine bus.State)
  byte_at = read_byte bus mem_all_access device_update clock regexec atol strtol strtok

  abbrev ByteRead : ℕ × Machine bus.State → Type 0
  ByteRead (v, m) = P m

  read_byte-keeps : (addr : ℕ) (m : Machine bus.State) → P m → When ByteRead (byte_at addr m)
  read_byte-keeps addr m h = elim (Option-cases (vaddr_read bus mem_all_access (u32 addr) 1 m)) [
    | inl bad ↦ rw (byte_at, read_byte, bad) tt
    | inr ((v, t), good) ↦ rw (byte_at, read_byte, good) (allows.reads _ 1 v m t h good)
  ]

  print_row-keeps :
      (addr : ℕ) (s : Sdb bus.State)
      → Holds s
      → When Holds
          (print_row bus mem_all_access device_update clock regexec atol strtol strtok addr s)
  print_row-keeps addr s h =
      >>=-When ByteRead Holds (byte_at (addr + 3) s.emu.cpu) _ (read_byte-keeps _ _ h) λ r3 k3.
        >>=-When ByteRead Holds (byte_at (addr + 2) r3.1) _ (read_byte-keeps _ _ k3) λ r2 k2.
          >>=-When ByteRead Holds (byte_at (addr + 1) r2.1) _ (read_byte-keeps _ _ k2) λ r1 k1.
            >>=-When ByteRead Holds (byte_at addr r1.1) _ (read_byte-keeps _ _ k1) λ r0 k0. k0

  abbrev rows : ℕ → ℕ → ℕ → Sdb bus.State → Outcome (Sdb bus.State)
  rows = print_rows bus mem_all_access device_update clock regexec atol strtol strtok

  print_rows-keeps : (n i v : ℕ) (s : Sdb bus.State) → Holds s → When Holds (rows n i v s)
  unfolding print_rows
  print_rows-keeps zero i v s h = h
  print_rows-keeps (suc n) i v s h =
      >>=-When Holds Holds
        (print_row bus mem_all_access device_update clock regexec atol strtol strtok (v + 4 * i) s)
        _ (print_row-keeps (v + 4 * i) s h) (λ t k. print_rows-keeps n (i + 1) v t k)

  rows_0-keeps :
      (n v : ℕ) (s : Sdb bus.State)
      → Holds s
      → When HoldsAfter (rows n 0 v s >>= λ u. ok (returned_0, u))
  rows_0-keeps n v s h =
      >>=-When Holds HoldsAfter (rows n 0 v s) _ (print_rows-keeps n 0 v s h) (λ u k. k)

  cmd_x-keeps :
      (rest : List ℕ) (s : Sdb bus.State)
      → Holds s
      → When HoldsAfter
          (cmd_x bus mem_all_access device_update clock regexec atol strtol strtok rest s)
  unfolding cmd_x
  cmd_x-keeps rest s h = elim (Option-cases (strtok rest (codes " "))) [
    | inl bare ↦ rw (cmd_x, bare) (rows_0-keeps 1 0 s h)
    | inr ((arg, r), word) ↦ elim (Bool-cases (u32 (atol arg) == 0)) [
      | inl z ↦ rw (cmd_x, word, z) h
      | inr n ↦ elim (Option-cases (strtok r (codes "\n"))) [
        | inl none_left ↦ rw (cmd_x, word, n, none_left) h
        | inr ((text, q), more) ↦
            rw (cmd_x, word, n, more)
              (with_expr-keeps bus mem_all_access device_update clock regexec atol strtol strtok P
                allows text (λ v t. rows (u32 (atol arg)) 0 v t >>= λ u. ok (returned_0, u)) s
                (λ v t k. rows_0-keeps (u32 (atol arg)) v t k) h)
      ]
    ]
  ]

  cmd_exp-keeps :
      (rest : List ℕ) (s : Sdb bus.State)
      → Holds s
      → When HoldsAfter
          (cmd_exp bus mem_all_access device_update clock regexec atol strtol strtok rest s)
  unfolding cmd_exp
  cmd_exp-keeps rest s h = elim (Option-cases (strtok rest (codes "\n"))) [
    | inl bare ↦ rw (cmd_exp, bare) h
    | inr ((arg, r), word) ↦
        rw (cmd_exp, word)
          (with_expr-keeps bus mem_all_access device_update clock regexec atol strtol strtok P
            allows arg (λ v t. say_return (value v) returned_0 t) s (λ v t k. k) h)
  ]

  handler-keeps :
      (fuel : ℕ) (k : Command) (rest : List ℕ) (s : Sdb bus.State)
      → Holds s
      → When HoldsAfter
          (handler bus mem_all_access device_update clock regexec atol strtol strtok fuel k rest s)
  unfolding handler cmd_clear cmd_q
  handler-keeps fuel do_help rest s h = cmd_help-keeps rest s h
  handler-keeps fuel do_c rest s h =
      cmd_c-keeps bus mem_all_access device_update clock regexec atol strtol strtok P allows fuel
        rest s h
  handler-keeps fuel do_q rest s h = allows.quits s.emu.cpu h
  handler-keeps fuel do_si rest s h =
      cmd_si-keeps bus mem_all_access device_update clock regexec atol strtol strtok P allows rest s
        h
  handler-keeps fuel do_clear rest s h = h
  handler-keeps fuel do_info rest s h = cmd_info-keeps rest s h
  handler-keeps fuel do_x rest s h = cmd_x-keeps rest s h
  handler-keeps fuel do_p rest s h = cmd_exp-keeps rest s h

  one_line-keeps :
      (fuel : ℕ) (str : List ℕ) (s : Sdb bus.State)
      → Holds s
      → When HoldsAfter
          (one_line bus mem_all_access device_update clock regexec atol strtol strtok fuel str s)
  unfolding one_line
  one_line-keeps fuel str s h = elim (Option-cases (strtok str (codes " "))) [
    | inl blank ↦ rw (one_line, blank) h
    | inr ((cmd, rest), word) ↦ elim (Option-cases (find_command cmd_table cmd)) [
      | inl unknown ↦ rw (one_line, word, unknown) h
      | inr (k, found) ↦
          rw (one_line, word, found)
            (>>=-When HoldsAfter HoldsAfter
              (handler bus mem_all_access device_update clock regexec atol strtol strtok fuel k rest
                s)
              _ (handler-keeps fuel k rest s h) ended)
    ]
  ]
    where
      ended :
          (r : Returned × Sdb bus.State)
          → HoldsAfter r
          → When HoldsAfter (elim r.0 [ returned_minus_1 ↦ ok (false, r.1) | _ ↦ ok (true, r.1) ])
      ended (returned_0, t) k = k
      ended (returned_1, t) k = k
      ended (returned_minus_1, t) k = k

  read_lines-keeps :
      (fuel : ℕ) (lines : List (List ℕ)) (s : Sdb bus.State)
      → Holds s
      → When Holds (
          read_lines bus mem_all_access device_update clock regexec atol strtol strtok fuel lines s)
  unfolding read_lines
  read_lines-keeps fuel [] s h = h
  read_lines-keeps fuel (str ∷ lines) s h =
      >>=-When HoldsAfter Holds
        (one_line bus mem_all_access device_update clock regexec atol strtol strtok fuel str s) _
        (one_line-keeps fuel str s h)
        λ r k. elim (Bool-cases r.0) [
          | inl more ↦ rw more (read_lines-keeps fuel lines r.1 k)
          | inr over ↦ rw over k
        ]

  pub sdb_mainloop-keeps :
      (fuel : ℕ) (lines : List (List ℕ)) (s : Sdb bus.State)
      → Holds s
      → When Holds (
          sdb_mainloop bus mem_all_access device_update clock regexec atol strtol strtok fuel lines
            s)
  unfolding sdb_mainloop
  sdb_mainloop-keeps fuel lines s h =
      When-if Holds s.is_batch_mode _ _
        (>>=-When HoldsAfter Holds
          (cmd_c bus mem_all_access device_update clock regexec atol strtol strtok fuel [] s) _
          (cmd_c-keeps bus mem_all_access device_update clock regexec atol strtol strtok P allows
            fuel [] s h)
          (λ r k. k))
        (read_lines-keeps fuel lines s h)

-- ===== src/Sdb/CommandLaws.antt =====
-- The loop of commands of src/monitor/sdb/sdb.c.
use gs_emu.Base.{
  ℕ, ◌≡◌, refl, ap, ◌∙◌, sym, Bool, true, false, Option, some, List, [], ◌∷◌, ◌++◌, arith,
  Option-cases, inl, inr,
}
use gs_emu.Bus.{Bus}
use gs_emu.Riscv.Machine.{Cmd, quit}
use gs_emu.Riscv.Instr.{codes}
use gs_emu.Cpu.Run.{Emulator, set_state}
use gs_emu.Sdb.Outcome.{Outcome, ok, fault, timeout, ◌>>=◌, Outcome-cases, ok_inj}
use gs_emu.Sdb.Command.{
  Sdb, Command, do_help, do_c, do_q, do_si, do_clear, do_info, do_x, do_p, Returned, returned_0,
  returned_1, returned_minus_1, with_cpu, cmd_help, cmd_c, cmd_q, cmd_si, cmd_clear, cmd_info,
  cmd_x, cmd_exp, handler, one_line, read_lines, find_command, cmd_table,
}

-- A handler that returns -1 has set the state QUIT.
abbrev Quits : {B : Type 0} → Outcome (Returned × Sdb B) → Type 0
Quits (ok (returned_minus_1, s)) = s.emu.cpu.nemu_state.state ≡ quit
Quits (ok (returned_0, s)) = Unit {0}
Quits (ok (returned_1, s)) = Unit {0}
Quits fault = Unit {0}
Quits timeout = Unit {0}

>>=-Quits :
    {A B : Type 0} (m : Outcome A) (f : A → Outcome (Returned × Sdb B))
    → ((a : A) → Quits (f a))
    → Quits (m >>= f)
>>=-Quits (ok a) f h = h a
>>=-Quits fault f h = tt
>>=-Quits timeout f h = tt

module _ {B : Type 0} where
  cmd_help-Quits :
      (strtok : List ℕ → List ℕ → Option (List ℕ × List ℕ)) (rest : List ℕ) (s : Sdb B)
      → Quits (cmd_help strtok rest s)
  unfolding cmd_help
  cmd_help-Quits strtok rest s = ground arith

  cmd_info-Quits :
      (strtok : List ℕ → List ℕ → Option (List ℕ × List ℕ)) (rest : List ℕ) (s : Sdb B)
      → Quits (cmd_info strtok rest s)
  unfolding cmd_info
  cmd_info-Quits strtok rest s = ground arith

  cmd_q-Quits : (s : Sdb B) → Quits (cmd_q s)
  unfolding cmd_q
  cmd_q-Quits s = refl

module _ (bus : Bus) (mem_all_access : Bool) (device_update : Cmd bus.State (Unit {0}))
    (clock : Emulator bus.State → ℕ × ℕ) (regexec : List ℕ → List ℕ → Option (ℕ × ℕ))
    (atol strtol : List ℕ → ℕ) (strtok : List ℕ → List ℕ → Option (List ℕ × List ℕ)) where
  cmd_c-Quits :
      (fuel : ℕ) (rest : List ℕ) (s : Sdb bus.State)
      → Quits (cmd_c bus mem_all_access device_update clock regexec atol strtol strtok fuel rest s)
  unfolding cmd_c
  cmd_c-Quits fuel rest s = ground arith

  cmd_si-Quits :
      (rest : List ℕ) (s : Sdb bus.State)
      → Quits (cmd_si bus mem_all_access device_update clock regexec atol strtol strtok rest s)
  unfolding cmd_si
  cmd_si-Quits rest s = ground arith

  cmd_x-Quits :
      (rest : List ℕ) (s : Sdb bus.State)
      → Quits (cmd_x bus mem_all_access device_update clock regexec atol strtol strtok rest s)
  unfolding cmd_x
  cmd_x-Quits rest s = ground arith

  cmd_exp-Quits :
      (rest : List ℕ) (s : Sdb bus.State)
      → Quits (cmd_exp bus mem_all_access device_update clock regexec atol strtol strtok rest s)
  unfolding cmd_exp
  cmd_exp-Quits rest s = ground arith

  handler-Quits :
      (fuel : ℕ) (k : Command) (rest : List ℕ) (s : Sdb bus.State)
      → Quits
          (handler bus mem_all_access device_update clock regexec atol strtol strtok fuel k rest s)
  unfolding handler cmd_clear
  handler-Quits fuel do_help rest s = cmd_help-Quits strtok rest s
  handler-Quits fuel do_c rest s = cmd_c-Quits fuel rest s
  handler-Quits fuel do_q rest s = cmd_q-Quits s
  handler-Quits fuel do_si rest s = cmd_si-Quits rest s
  handler-Quits fuel do_clear rest s = tt
  handler-Quits fuel do_info rest s = cmd_info-Quits strtok rest s
  handler-Quits fuel do_x rest s = cmd_x-Quits rest s
  handler-Quits fuel do_p rest s = cmd_exp-Quits rest s

  abbrev one : ℕ → List ℕ → Sdb bus.State → Outcome (Bool × Sdb bus.State)
  one = one_line bus mem_all_access device_update clock regexec atol strtol strtok

  -- A line that ends the loop leaves the state QUIT.
  one_line-quit :
      (fuel : ℕ) (str : List ℕ) (s t : Sdb bus.State)
      → one fuel str s ≡ ok (false, t)
      → t.emu.cpu.nemu_state.state ≡ quit
  unfolding one_line
  one_line-quit fuel str s t e = elim (Option-cases (strtok str (codes " "))) [
    | inl bad ↦ ground (arith, bad)
    | inr ((cmd, rest), word) ↦ elim (Option-cases (find_command cmd_table cmd)) [
      | inl bad ↦ ground (arith, bad, word)
      | inr (k, found) ↦ ground (arith, word, found, handler-Quits fuel k rest s)
    ]
  ]

  quit_again :
      (t : Sdb bus.State)
      → t.emu.cpu.nemu_state.state ≡ quit
      → with_cpu (set_state t.emu.cpu quit) t ≡ t
  quit_again t e = ground arith

  one_line-cmd_q :
      (fuel : ℕ) (line rest : List ℕ) (s : Sdb bus.State)
      → strtok line (codes " ") ≡ some (codes "q", rest)
      → one fuel line s ≡ ok (false, with_cpu (set_state s.emu.cpu quit) s)
  unfolding one_line find_command handler cmd_q
  one_line-cmd_q fuel line rest s w = rw (one_line, w) refl

  -- A session that a line `q` follows ends in its own last state with QUIT set, whatever lines
  -- come behind the `q`, when `strtok` takes that line to the word `q`.
  pub read_lines-quit :
      (fuel : ℕ) (before after : List (List ℕ)) (line rest : List ℕ) (s t : Sdb bus.State)
      → strtok line (codes " ") ≡ some (codes "q", rest)
      → read_lines bus mem_all_access device_update clock regexec atol strtol strtok fuel before s
        ≡ ok t
      → read_lines bus mem_all_access device_update clock regexec atol strtol strtok fuel
          (before ++ line ∷ after)
          s
        ≡ ok (with_cpu (set_state t.emu.cpu quit) t)
  unfolding read_lines
  read_lines-quit fuel [] after line rest s t w e =
      let same : s ≡ t = ok_inj e in rw (one_line-cmd_q fuel line rest s w, same) refl
  read_lines-quit fuel (l ∷ before) after line rest s t w e = elim (Outcome-cases (one fuel l s)) [
    | inl ((true, u), go) ↦
        rw go (read_lines-quit fuel before after line rest u t w (rw (read_lines, go) at e))
    | inl ((false, u), ended) ↦
        let same : u ≡ t = ok_inj (rw (read_lines, ended) at e) in
        let last = one_line-quit fuel l s u ended in
        rw ended (ap ok (same ∙ sym (quit_again t (rw same at last))))
    | inr bad ↦ elim bad [ inl b ↦ ground (arith, b) | inr b ↦ ground (arith, b) ]
  ]

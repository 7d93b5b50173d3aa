-- ===== src/Tests/Debugger.antt =====
-- The debugger at concrete inputs.
use gs_emu.Base.{
  ℕ, ◌+◌, ◌-◌, ◌*◌, ◌≡◌, refl, subst, true, false, Option, none, some, List, [], ◌∷◌, zero, suc,
  get_elem?, replicate, ◌==◌, if◌then◌else◌, arith, inl,
}
use gs_emu.Decode.Pattern.{pattern_decode, pattern_loop, instpat_test}
use gs_emu.Memory.Host.{load, store, host_read, host_write}
use gs_emu.Memory.IoMap.{
  in_pmem, map_inside, fetch_map, invoke_callback, map_read, map_write, mmio_read, mmio_write,
}
use gs_emu.Memory.Physical.{guest_to_host, paddr_read, paddr_write}
use gs_emu.Riscv.Csr.{check_csr_idx, search_csr, get_field, set_field}
use gs_emu.Riscv.Machine.{
  ◌>>=◌, get_gpr, set_gpr, get_csr, set_csr, get_csr_field, set_csr_field, get_cur_pri, get_s,
  set_dnpc, trap_peek_exception, recy_exception, dnpc_and_check, set_nemu_state, nemutrap,
  vaddr_read, vaddr_write, mr, mw,
}
use gs_emu.Riscv.Operand.{decode_operand, imm_i}
use gs_emu.Riscv.Instr.{codes, select}
use gs_emu.Riscv.Exec.{exec, exec_group, group, exec_alu, exec_system, exec_ebreak}
use gs_emu.Riscv.Trap.{
  get_exception, take_exception, is_delegated, reset_zero, run_row, decode_exec,
}
use gs_emu.Riscv.Interrupt.{
  is_supervisor_irq, check_interrupts, timer_test, irp_and, inst_fetch, isa_exec_once,
}
use gs_emu.Sdb.Outcome.{ok, fault, Ends}
use gs_emu.Sdb.Token.{store_token, lex_match, first_match, make_token_loop, make_token}
use gs_emu.Sdb.TokenStep.{Balanced, Safe}
use gs_emu.Sdb.TokenLaws.{make_token-Balanced, make_token-Safe}
use gs_emu.Sdb.Eval.{
  Target, push_num, push_op, apply_op, calculate, take_sum, take_product, take_token, take_tokens,
  is_not_num, reduce_products, close_bracket, reduce_one, reduce_all, tokens_calculation, expr,
}
use gs_emu.Sdb.ChainLaws.{number, chain, tokens_calculation-from_right}
use gs_emu.Sdb.Command.{
  Sdb, value, read_lines, one_line, find_command, handler, cmd_exp, continue_to,
}
use gs_emu.Sdb.Watchpoint.{Watchpoint, Pool, link_from, init_wp_pool}
use gs_emu.Sdb.ContinueLaws.{Arrived, continue_to-Arrived}
use gs_emu.Cpu.Run.{Emulator, exec_once, execute, cpu_exec}
use gs_emu.Tests.Fixture.{bus, emulator, quiet}
use gs_emu.Sdb.ExprLaws.{op_token, expr-Ends, tokens_calculation-fault}
use gs_emu.Tests.Matcher.{matcher, matcher-IsRegexec}

-- A processor with one register and a memory that holds each address at itself.
abbrev plain : Target (Unit {0})
plain = record { isa_reg_str2val = λ name s. some 7; vaddr_read = λ addr len s. some (addr, s) }

-- Decimal digits.
abbrev atol : List ℕ → ℕ
atol s = go s 0
  where
    go : List ℕ → ℕ → ℕ
    go [] n = n
    go (c ∷ cs) n = go cs (10 * n + (c - b'0'))

evaluates : expr plain atol atol matcher (codes "(12 + 30) - $a0") tt ≡ ok (some (35, tt))
unfolding expr make_token make_token_loop first_match lex_match store_token tokens_calculation
    take_tokens take_token push_num push_op take_sum close_bracket apply_op calculate reduce_all
    reduce_one
evaluates = refl

-- Without brackets the sum after a product is beyond the array.
fails : expr plain atol atol matcher (codes "1*2+3") tt ≡ fault
unfolding expr make_token make_token_loop first_match lex_match store_token tokens_calculation
    take_tokens take_token push_num push_op take_product is_not_num take_sum reduce_products
    apply_op calculate
fails = refl

make_token-Balanced_example : Balanced (make_token matcher (codes "(1 + 2)"))
make_token-Balanced_example = make_token-Balanced matcher matcher-IsRegexec (codes "(1 + 2)")

make_token-Safe_example : Safe (make_token matcher (codes "((((1))))"))
make_token-Safe_example =
    make_token-Safe matcher matcher-IsRegexec (codes "((((1))))") (omega arith)

expr-Ends_example : Ends (expr plain atol atol matcher (codes "*$a0 + 0x10") tt)
expr-Ends_example = expr-Ends plain atol atol matcher (codes "*$a0 + 0x10") tt matcher-IsRegexec

-- 10 - 3 - 2 gives 10 - (3 - 2).
tokens_calculation-from_right_example :
    tokens_calculation plain atol atol
      (number (codes "10") ∷ chain ((true, codes "3") ∷ (true, codes "2") ∷ []))
      tt
    ≡ ok (some (9, tt))
tokens_calculation-from_right_example =
    tokens_calculation-from_right plain tt atol atol (codes "10")
      ((true, codes "3") ∷ (true, codes "2") ∷ []) (omega arith) (omega arith)
      (omega arith, (omega arith, tt))

tokens_calculation-fault_example :
    tokens_calculation plain atol atol
      (number (codes "2")
        ∷ (op_token b'*' ∷ (number (codes "3") ∷ (op_token b'*' ∷ (number (codes "4") ∷ [])))))
      tt
    ≡ fault
tokens_calculation-fault_example =
    tokens_calculation-fault plain atol atol (codes "2") (codes "3") (codes "4") b'*' b'*' tt
      (inl refl) (inl refl) (omega arith) (omega arith)

-- `strtok` for one delimiter: the delimiters before a word are skipped.
abbrev word_of : ℕ → List ℕ → List ℕ
word_of d [] = []
word_of d (c ∷ cs) = let rest = word_of d cs in if c == d then [] else c ∷ rest

abbrev after_word : ℕ → List ℕ → List ℕ
after_word d [] = []
after_word d (c ∷ cs) = let rest = after_word d cs in if c == d then cs else rest

abbrev strtok : List ℕ → List ℕ → Option (List ℕ × List ℕ)
strtok [] delims = none
strtok (c ∷ cs) [] = some (c ∷ cs, [])
strtok (c ∷ cs) (d ∷ ds) =
    let rest = strtok cs (d ∷ ds) in
    if c == d then rest else some (word_of d (c ∷ cs), after_word d (c ∷ cs))

abbrev clock : Emulator bus.State → ℕ × ℕ
clock e = (0, 1)

abbrev session : Sdb bus.State
session = record { emu = emulator; is_batch_mode = false; printed = [] }

abbrev valued : Sdb bus.State
valued = record session { printed = value 3 ∷ [] }

prints :
    read_lines bus false quiet clock matcher atol atol strtok 5 (codes "p 1+2" ∷ []) session
    ≡ ok valued
unfolding read_lines one_line find_command handler cmd_exp expr make_token make_token_loop
    first_match lex_match store_token tokens_calculation take_tokens take_token push_num push_op
    take_sum apply_op calculate reduce_all reduce_one
prints = refl

-- After the first instruction of the program.
abbrev after : Option (Emulator bus.State) → Emulator bus.State
after none = emulator
after (some e) = e

abbrev stepped : Sdb bus.State
stepped = record session { emu = after (cpu_exec bus false quiet 1 0 1 emulator) }

continues :
    continue_to bus false quiet clock matcher atol atol strtok 3 0x8000_0004 session ≡ ok stepped
unfolding continue_to cpu_exec execute exec_once isa_exec_once inst_fetch irp_and timer_test
    check_interrupts is_supervisor_irq decode_exec reset_zero run_row take_exception is_delegated
    get_exception exec exec_group group exec_alu exec_system exec_ebreak select decode_operand imm_i
    ◌>>=◌ get_gpr set_gpr get_csr set_csr get_csr_field set_csr_field get_cur_pri get_s set_dnpc
    trap_peek_exception recy_exception dnpc_and_check set_nemu_state nemutrap vaddr_read vaddr_write
    mr mw check_csr_idx search_csr get_field set_field guest_to_host in_pmem paddr_read paddr_write
    map_inside fetch_map invoke_callback map_read map_write mmio_read mmio_write load store
    host_read host_write pattern_decode pattern_loop instpat_test
continues = refl

-- The first instruction leads to the address.
continue_to-Arrived_example :
    Arrived bus false quiet clock matcher atol atol strtok 0x8000_0004 3 session (ok stepped)
continue_to-Arrived_example =
    subst (Arrived bus false quiet clock matcher atol atol strtok 0x8000_0004 3 session) continues (
      continue_to-Arrived bus false quiet clock matcher atol atol strtok 0x8000_0004 3 session
        (omega arith))

-- The numbers on a list of the pool, at most `n` of them.
abbrev walk : ℕ → List Watchpoint → Option ℕ → List ℕ
walk zero ws p = []
walk (suc n) ws none = []
walk (suc n) ws (some i) = elim (get_elem? ws i) [ none ↦ [] | some w ↦ w.no ∷ walk n ws w.next ]

abbrev count_up : ℕ → ℕ → List ℕ
count_up zero i = []
count_up (suc n) i = i ∷ count_up n (i + 1)

abbrev before : Pool
before = record {
  wp_pool = replicate 32 (record { no = 0; next = none });
  head = none;
  free = none;
}

free_watchpoints : walk 40 (init_wp_pool before).wp_pool (init_wp_pool before).free ≡ count_up 32 0
unfolding init_wp_pool link_from
free_watchpoints = refl

-- ===== src/Monitor/Args.antt =====
-- `parse_args` of src/monitor/monitor.c. `getopt_long` and `sscanf` are functions of the C library:
-- the options that the first finds are the input, with the number that the second reads (`none`: it
-- reads none and the variable stays).
use gs_emu.Base.{ℕ, Bool, true, Option, none, some, List, [], ◌∷◌}
use gs_emu.Word.{u32}

-- One result of `getopt_long`: the letters of `table`, 1 for an argument that is no option, and `h`
-- or anything else.
pub data Opt : Type 0 where
  batch help : Opt
  port mode : Option ℕ → Opt
  log diff bios kernel dtb image : List ℕ → Opt

-- The variables that the options set.
pub record Args : Type 0 where
  pub is_batch_mode : Bool
  pub log_file : Option (List ℕ)
  pub diff_so_file : Option (List ℕ)
  pub img_file : Option (List ℕ)
  pub bios_file : Option (List ℕ)
  pub kernel_file : Option (List ℕ)
  pub dtb_file : Option (List ℕ)
  pub difftest_port : ℕ
  pub cur_pri : ℕ

abbrev pub scanned : Option ℕ → ℕ → ℕ
scanned none old = old
scanned (some n) old = u32 n

-- `none` is `exit(0)` after the usage. An argument that is no option ends the loop.
unfoldable pub parse_args : List Opt → Args → Option Args
parse_args [] a = some a
parse_args (batch ∷ os) a = parse_args os (record a { is_batch_mode = true })
parse_args (help ∷ os) a = none
parse_args (port n ∷ os) a = parse_args os (record a { difftest_port = scanned n a.difftest_port })
parse_args (mode n ∷ os) a = parse_args os (record a { cur_pri = scanned n a.cur_pri })
parse_args (log f ∷ os) a = parse_args os (record a { log_file = some f })
parse_args (diff f ∷ os) a = parse_args os (record a { diff_so_file = some f })
parse_args (bios f ∷ os) a = parse_args os (record a { bios_file = some f })
parse_args (kernel f ∷ os) a = parse_args os (record a { kernel_file = some f })
parse_args (dtb f ∷ os) a = parse_args os (record a { dtb_file = some f })
parse_args (image f ∷ os) a = some (record a { img_file = some f })

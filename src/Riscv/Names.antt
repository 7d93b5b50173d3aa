-- ===== src/Riscv/Names.antt =====
-- src/isa/riscv32/reg.c: the names of the registers and `isa_reg_str2val`. A text is the list of its
-- characters, and `none` stands for `*success = false`.

use gs_emu.Base.{
  ℕ, ◌+◌, ◌-◌, Bool, true, false, ◌&&◌, Option, none, some, List, [], ◌∷◌, leb, ◌==◌, length,
  if◌then◌else◌,
}
use gs_emu.Riscv.Machine.{Machine}
use gs_emu.Riscv.Instr.{codes}

abbrev pub regs : List (List ℕ)
regs =
    codes "$0"
    ∷ codes "ra"
    ∷ codes "sp"
    ∷ codes "gp"
    ∷ codes "tp"
    ∷ codes "t0"
    ∷ codes "t1"
    ∷ codes "t2"
    ∷ codes "s0"
    ∷ codes "s1"
    ∷ codes "a0"
    ∷ codes "a1"
    ∷ codes "a2"
    ∷ codes "a3"
    ∷ codes "a4"
    ∷ codes "a5"
    ∷ codes "a6"
    ∷ codes "a7"
    ∷ codes "s2"
    ∷ codes "s3"
    ∷ codes "s4"
    ∷ codes "s5"
    ∷ codes "s6"
    ∷ codes "s7"
    ∷ codes "s8"
    ∷ codes "s9"
    ∷ codes "s10"
    ∷ codes "s11"
    ∷ codes "t3"
    ∷ codes "t4"
    ∷ codes "t5"
    ∷ codes "t6"
    ∷ []

-- `!strcmp(a, b)`.
abbrev pub same_text : List ℕ → List ℕ → Bool
same_text [] [] = true
same_text [] (d ∷ ds) = false
same_text (c ∷ cs) [] = false
same_text (c ∷ cs) (d ∷ ds) = c == d && same_text cs ds

-- `i` after the `for`: its condition moves `i` on before it ends the loop at a name that matches.
unfoldable pub name_loop : List (List ℕ) → ℕ → List ℕ → ℕ
name_loop [] i s = i
name_loop (r ∷ rs) i s = let rest = name_loop rs (i + 1) s in if same_text r s then i + 1 else rest

unfoldable pub isa_reg_str2val : {B : Type 0} → Machine B → List ℕ → Option ℕ
isa_reg_str2val m s =
    let i = name_loop regs 0 s in
    if same_text (codes "pc") s
    then some m.pc
    else if leb (length regs) i
    then none
    else some (m.gpr (i - 1))

-- ===== src/Riscv/NamesLaws.antt =====
-- Which names of registers `isa_reg_str2val` finds.
use gs_emu.Base.{
  ℕ, ◌+◌, ◌<◌, ◌≡◌, refl, true, false, not, none, some, List, [], ◌==◌, if◌then◌else◌, get_or,
  arith, all_below, all_below_sound, ==→eq,
}
use gs_emu.Riscv.Machine.{Machine}
use gs_emu.Riscv.Instr.{codes}
use gs_emu.Riscv.Names.{regs, same_text, name_loop, isa_reg_str2val}

-- The name of a register.
abbrev pub reg_name : ℕ → List ℕ
reg_name k = get_or regs k []

ends : all_below 32 (λ k. name_loop regs 0 (reg_name k) == k + 1) ≡ true
unfolding name_loop
ends = refl

not_pc : all_below 32 (λ k. not (same_text (codes "pc") (reg_name k))) ≡ true
not_pc = refl

-- The name of a register gives the value of that register, but for the last of the 32 names, t6,
-- which is not found.
pub isa_reg_str2val-reg_name :
    {B : Type 0} (m : Machine B) (k : ℕ)
    → k < 32
    → isa_reg_str2val m (reg_name k) ≡ (if k == 31 then none else some (m.gpr k))
unfolding isa_reg_str2val
isa_reg_str2val-reg_name m k lt =
    let i : name_loop regs 0 (reg_name k) ≡ k + 1 =
      ==→eq (name_loop regs 0 (reg_name k)) (k + 1)
        (all_below_sound 32 (λ x. name_loop regs 0 (reg_name x) == x + 1) k ends lt) in
    let other : same_text (codes "pc") (reg_name k) ≡ false =
      ground
        (arith, all_below_sound 32 (λ x. not (same_text (codes "pc") (reg_name x))) k not_pc lt) in
    rw (i, other) (ground arith)

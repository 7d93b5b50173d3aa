-- ===== src/Isa/Core.antt =====
-- What src/isa/mips32/inst.c and src/isa/loongarch32r/inst.c share: the state (include/isa-def.h
-- there), the commands of their rows, `invalid_inst` (src/engine/interpreter/hostcall.c) and the
-- course of `decode_exec`. `none` is a failed assertion of the memory.
use gs_emu.Base.{ℕ, ◌+◌, Option, none, some, List, [], ◌∷◌, if◌then◌else◌}
use gs_emu.Word.{u32}
use gs_emu.Bus.{Bus}
use gs_emu.Decode.Pattern.{pattern_decode, instpat_test}
use gs_emu.Riscv.Machine.{RunState, NemuState, Decoding, put}

pub record Cpu (B : Type 0) : Type 0 where
  pub gpr : ℕ → ℕ
  pub pc : ℕ
  pub nemu_state : NemuState
  pub s : Decoding
  pub bus : B

-- A row of `INSTPAT`: its instruction and the type of its operands.
pub record Row (I T : Type 0) : Type 0 where
  pub pattern : List ℕ
  pub name : I
  pub operand_type : T

-- The first row that fits. A pattern that does not decode ends the program.
unfoldable pub select : {I T : Type 0} → List (Row I T) → ℕ → Option (Row I T)
select [] inst = none
select (r ∷ rs) inst = elim (pattern_decode r.pattern) [
  | none ↦ none
  | some p ↦ if instpat_test p inst then some r else select rs inst
]

module _ {B : Type 0} where
  unfoldable pub set_gpr : ℕ → ℕ → Cpu B → Cpu B
  set_gpr i v c = record c { gpr = put c.gpr i (u32 v) }

  -- `set_nemu_state`, with differential testing switched off.
  unfoldable pub set_nemu_state : RunState → ℕ → ℕ → Cpu B → Cpu B
  set_nemu_state st pc ret c = record c {
    nemu_state = record { state = st; halt_pc = u32 pc; halt_ret = u32 ret };
  }

  -- `NEMUTRAP(thispc, code)`.
  unfoldable pub nemutrap : ℕ → ℕ → Cpu B → Option (Cpu B)
  nemutrap thispc code c = some (set_nemu_state RunState.end thispc code c)

  -- `s->dnpc = s->snpc` and `R(0) = 0`, around the row.
  abbrev pub set_dnpc : Cpu B → Cpu B
  set_dnpc c = record c { s = record (c.s) { dnpc = c.s.snpc } }

  -- `restart`.
  unfoldable pub restart : ℕ → Cpu B → Cpu B
  restart reset_vector c = set_gpr 0 0 (record c { pc = reset_vector })

module _ (bus : Bus) where
  -- `vaddr_read`, handed on.
  unfoldable pub mr :
      ℕ → (ℕ → Cpu bus.State → Option (Cpu bus.State)) → Cpu bus.State → Option (Cpu bus.State)
  mr addr f c = elim (bus.read addr 4 c.bus) [
    | none ↦ none
    | some (v, b) ↦ f v (record c { bus = b })
  ]

  unfoldable pub mw : ℕ → ℕ → Cpu bus.State → Option (Cpu bus.State)
  mw addr v c = elim (bus.write addr 4 v c.bus) [
    | none ↦ none
    | some b ↦ some (record c { bus = b })
  ]

  abbrev pub load_gpr : ℕ → ℕ → Cpu bus.State → Option (Cpu bus.State)
  load_gpr rd addr = mr addr (λ v d. some (set_gpr rd v d))

  -- It fetches the two words at `thispc`, to print them.
  unfoldable pub invalid_inst : ℕ → Cpu bus.State → Option (Cpu bus.State)
  invalid_inst thispc = mr thispc (λ v.
      mr (u32 (thispc + 4)) (λ w d. some (set_nemu_state RunState.abort thispc 0xffff_ffff d)))

  unfoldable pub inst_fetch : Cpu bus.State → Option (Cpu bus.State)
  inst_fetch c =
      mr c.s.snpc
        (λ v d. some (record d { s = record (d.s) { snpc = u32 (d.s.snpc + 4); inst = v } })) c

  -- The body that `run` gives for the instruction, between the two assignments.
  unfoldable pub run_row :
      (Cpu bus.State → Option (Cpu bus.State)) → Cpu bus.State → Option (Cpu bus.State)
  run_row run c = elim (run (set_dnpc c)) [ none ↦ none | some d ↦ some (set_gpr 0 0 d) ]

  unfoldable pub fetch_and_run :
      (Cpu bus.State → Option (Cpu bus.State)) → Cpu bus.State → Option (Cpu bus.State)
  fetch_and_run run c = elim (inst_fetch c) [ none ↦ none | some d ↦ run_row run d ]

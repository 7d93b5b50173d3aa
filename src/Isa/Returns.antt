-- ===== src/Isa/Returns.antt =====
-- Instructions of src/isa/mips32/inst.c and src/isa/loongarch32r/inst.c over the physical memory.
use gs_emu.Base.{
  ℕ, bit_and, ◌/◌, ◌+◌, ◌≤◌, ◌^◌, arith, ◌==◌, ◌≡◌, refl, true, Option, some, List, [], ◌∷◌,
  Bool-cases, inl, inr,
}
use gs_emu.Word.{bit_and-zero, u32}
use gs_emu.Memory.Host.{load, store, host_read, host_write}
use gs_emu.Memory.IoMap.{in_pmem}
use gs_emu.Memory.Physical.{Memory, paddr_read, paddr_write, guest_to_host, fits_pmem}
use gs_emu.Memory.PhysicalLaws.{memory_bus}
use gs_emu.Bus.{Bus}
use gs_emu.Decode.Pattern.{Pat, pat, pattern_decode, pattern_loop, instpat_test}
use gs_emu.Riscv.Operand.{Operands}
use gs_emu.Isa.Core.{
  Cpu, Row, select, set_gpr, nemutrap, set_dnpc, mr, mw, invalid_inst, inst_fetch, run_row,
  fetch_and_run,
}
use gs_emu.Isa.CoreLaws.{Sequential}
use gs_emu.Isa.Mips32
use gs_emu.Isa.Mips32Laws.{mips32-Sequential}
use gs_emu.Isa.Loongarch32r
use gs_emu.Isa.Loongarch32rLaws.{loongarch32r-Sequential}

-- The four bytes at the address are in physical memory.
abbrev Inside : ℕ → Type 0
Inside a = (0x8000_0000 ≤ a) × (a + 4 ≤ 0x8800_0000)

-- Reads and writes of four bytes in physical memory succeed.
record Answers (bus : Bus) : Type 0 where
  reads : (a : ℕ) → Inside a → (s : bus.State) → (r : ℕ × bus.State) × (bus.read a 4 s ≡ some r)
  writes : (a v : ℕ) → Inside a → (s : bus.State) → (t : bus.State) × (bus.write a 4 v s ≡ some t)

Inside-in_pmem : (a : ℕ) → Inside a → (in_pmem a ≡ true) × (fits_pmem a 4 ≡ true)
unfolding in_pmem guest_to_host
Inside-in_pmem a (low, high) = (ground arith, ground arith)

memory_bus-Answers : (D : Type 0) → Answers (memory_bus D)
unfolding paddr_read paddr_write host_read host_write
memory_bus-Answers D = record {
  reads = λ a i s.
      let (inside, fits) = Inside-in_pmem a i in
      ((load s.pmem (guest_to_host a) 4, s), rw (paddr_read, inside, fits) refl);
  writes = λ a v i s.
      let (inside, fits) = Inside-in_pmem a i in
      (record s { pmem = store s.pmem (guest_to_host a) 4 v }, rw (paddr_write, inside, fits) refl);
}

-- What the rows of mips32 and of loongarch32r ask of memory at the address `pc`.
abbrev pub Mips32Needs : ℕ → Mips32.Instr → Operands → Type 0
Mips32Needs pc Mips32.Instr.lui o = Unit {0}
Mips32Needs pc Mips32.Instr.lw o = Inside (u32 (o.src1 + o.imm))
Mips32Needs pc Mips32.Instr.sw o = Inside (u32 (o.src1 + o.imm))
Mips32Needs pc Mips32.Instr.sdbbp o = Unit {0}
Mips32Needs pc Mips32.Instr.inv o = Inside pc × Inside (u32 (pc + 4))

abbrev pub Loongarch32rNeeds : ℕ → Loongarch32r.Instr → Operands → Type 0
Loongarch32rNeeds pc Loongarch32r.Instr.pcaddu12i o = Unit {0}
Loongarch32rNeeds pc Loongarch32r.Instr.ld_w o = Inside (u32 (o.src1 + o.imm))
Loongarch32rNeeds pc Loongarch32r.Instr.st_w o = Inside (u32 (o.src1 + o.imm))
Loongarch32rNeeds pc Loongarch32r.Instr.break o = Unit {0}
Loongarch32rNeeds pc Loongarch32r.Instr.inv o = Inside pc × Inside (u32 (pc + 4))

abbrev Returns : {B : Type 0} → Option (Cpu B) → Type 0
Returns {B} x = (d : Cpu B) × (x ≡ some d)

module _ (bus : Bus) (answers : Answers bus) where
  mr-Returns :
      (a : ℕ) (f : ℕ → Cpu bus.State → Option (Cpu bus.State)) (c : Cpu bus.State)
      → Inside a
      → ((v : ℕ) (x : Cpu bus.State) → Returns (f v x))
      → Returns (mr bus a f c)
  unfolding mr
  mr-Returns a f c i k =
      let (r, e) = answers.reads a i c.bus in rw (mr, e) (k r.0 (record c { bus = r.1 }))

  mw-Returns : (a v : ℕ) (c : Cpu bus.State) → Inside a → Returns (mw bus a v c)
  unfolding mw
  mw-Returns a v c i = let (t, e) = answers.writes a v i c.bus in rw (mw, e) (_, refl)

  invalid_inst-Returns :
      (a : ℕ) (c : Cpu bus.State) → Inside a × Inside (u32 (a + 4)) → Returns (invalid_inst bus a c)
  unfolding invalid_inst
  invalid_inst-Returns a c (i, j) =
      mr-Returns a _ c i (λ v x. mr-Returns _ _ x j (λ w y. (_, refl)))

  mips32_exec-Returns :
      (i : Mips32.Instr) (o : Operands) (c : Cpu bus.State)
      → Mips32Needs c.s.pc i o
      → Returns (Mips32.exec bus i o c)
  unfolding Mips32.exec nemutrap
  mips32_exec-Returns Mips32.Instr.lui o c h = (_, refl)
  mips32_exec-Returns Mips32.Instr.lw o c h = mr-Returns _ _ c h (λ v x. (_, refl))
  mips32_exec-Returns Mips32.Instr.sw o c h = mw-Returns _ _ c h
  mips32_exec-Returns Mips32.Instr.sdbbp o c h = (_, refl)
  mips32_exec-Returns Mips32.Instr.inv o c h = invalid_inst-Returns _ c h

  loongarch32r_exec-Returns :
      (i : Loongarch32r.Instr) (o : Operands) (c : Cpu bus.State)
      → Loongarch32rNeeds c.s.pc i o
      → Returns (Loongarch32r.exec bus i o c)
  unfolding Loongarch32r.exec nemutrap
  loongarch32r_exec-Returns Loongarch32r.Instr.pcaddu12i o c h = (_, refl)
  loongarch32r_exec-Returns Loongarch32r.Instr.ld_w o c h = mr-Returns _ _ c h (λ v x. (_, refl))
  loongarch32r_exec-Returns Loongarch32r.Instr.st_w o c h = mw-Returns _ _ c h
  loongarch32r_exec-Returns Loongarch32r.Instr.break o c h = (_, refl)
  loongarch32r_exec-Returns Loongarch32r.Instr.inv o c h = invalid_inst-Returns _ c h

module _ (bus : Bus) where
  -- A fetched word goes to the row.
  fetch_and_run-Returns :
      (run : Cpu bus.State → Option (Cpu bus.State)) (c : Cpu bus.State) (v : ℕ) (b : bus.State)
      → bus.read c.s.snpc 4 c.bus ≡ some (v, b)
      → Returns (
          run (
            set_dnpc
              (record c { bus = b; s = record (c.s) { snpc = u32 (c.s.snpc + 4); inst = v } })))
      → Returns (fetch_and_run bus run c)
  unfolding fetch_and_run run_row inst_fetch mr
  fetch_and_run-Returns run c v b h (y, e) =
      (set_gpr 0 0 y, rw (fetch_and_run, inst_fetch, mr, h, run_row, e) refl)

module _ {I T : Type 0} (r : Row I T) (rs : List (Row I T)) (x : ℕ) where
  -- A row is found when one of the rows behind a row that decodes is found, or when the mask of the
  -- row is empty.
  select-behind :
      (p : Pat)
      → pattern_decode r.pattern ≡ some p
      → (s : Row I T) × (select rs x ≡ some s)
      → (s : Row I T) × (select (r ∷ rs) x ≡ some s)
  unfolding select
  select-behind p e (s, h) = elim (Bool-cases (instpat_test p x)) [
    | inl hit ↦ (r, rw (select, e, hit) refl)
    | inr miss ↦ (s, rw (select, e, miss) h)
  ]

  select-here :
      (k : ℕ)
      → pattern_decode r.pattern ≡ some (pat 0 0 k)
      → (s : Row I T) × (select (r ∷ rs) x ≡ some s)
  unfolding select instpat_test
  select-here k e =
      let hit : (bit_and (x / 2 ^ k) 0 == 0) ≡ true = rw (bit_and-zero (x / 2 ^ k)) refl in
      (r, rw (select, e, instpat_test, hit) refl)

-- The last row of each table fits every word.
select_mips32 :
    (x : ℕ) → (r : Row Mips32.Instr Mips32.OperandType) × (select Mips32.instpats x ≡ some r)
unfolding pattern_decode pattern_loop
select_mips32 x = select-behind _ _ x _ refl (
    select-behind _ _ x _ refl
      (select-behind _ _ x _ refl (select-behind _ _ x _ refl (select-here _ [] x _ refl))))

select_loongarch32r :
    (x : ℕ)
    → (r : Row Loongarch32r.Instr Loongarch32r.OperandType) × (select Loongarch32r.instpats x
        ≡ some r)
unfolding pattern_decode pattern_loop
select_loongarch32r x = select-behind _ _ x _ refl (
    select-behind _ _ x _ refl
      (select-behind _ _ x _ refl (select-behind _ _ x _ refl (select-here _ [] x _ refl))))

-- One instruction returns, and is followed by the one behind it.
abbrev pub RunsOn : {B : Type 0} → (Cpu B → Option (Cpu B)) → Cpu B → Type 0
RunsOn {B} once c = (d : Cpu B) × (once c ≡ some d) × (r : ℕ) × Sequential r c d

module _ {D : Type 0} (c : Cpu (Memory D)) (v : ℕ) (b : Memory D)
    (fetch : paddr_read c.s.snpc 4 c.bus ≡ some (v, b)) where
  -- The row that the word chooses finds the memory that it asks for.
  abbrev pub Mips32Served : Type 0
  Mips32Served =
      (r : Row Mips32.Instr Mips32.OperandType)
      → select Mips32.instpats v ≡ some r
      → Mips32Needs c.s.pc r.name (Mips32.decode_operand c.gpr v r.operand_type)

  abbrev pub Loongarch32rServed : Type 0
  Loongarch32rServed =
      (r : Row Loongarch32r.Instr Loongarch32r.OperandType)
      → select Loongarch32r.instpats v ≡ some r
      → Loongarch32rNeeds c.s.pc r.name (Loongarch32r.decode_operand c.gpr v r.operand_type)

  mips32-RunsOn : Mips32Served → RunsOn (Mips32.isa_exec_once (memory_bus D)) c
  unfolding Mips32.isa_exec_once Mips32.exec_inst
  mips32-RunsOn served =
      let (r, h) = select_mips32 v in
      let (d, e) =
        fetch_and_run-Returns (memory_bus D) (Mips32.exec_inst (memory_bus D)) c v b fetch (
          rw (Mips32.exec_inst, h)
            (mips32_exec-Returns (memory_bus D) (memory_bus-Answers D) r.name
              (Mips32.decode_operand c.gpr v r.operand_type) _ (served r h))) in
      let (k, kept) = mips32-Sequential (memory_bus D) c d e in (d, e, k, kept)

  loongarch32r-RunsOn : Loongarch32rServed → RunsOn (Loongarch32r.isa_exec_once (memory_bus D)) c
  unfolding Loongarch32r.isa_exec_once Loongarch32r.exec_inst
  loongarch32r-RunsOn served =
      let (r, h) = select_loongarch32r v in
      let (d, e) =
        fetch_and_run-Returns (memory_bus D) (Loongarch32r.exec_inst (memory_bus D)) c v b fetch (
          rw (Loongarch32r.exec_inst, h)
            (loongarch32r_exec-Returns (memory_bus D) (memory_bus-Answers D) r.name
              (Loongarch32r.decode_operand c.gpr v r.operand_type) _ (served r h))) in
      let (k, kept) = loongarch32r-Sequential (memory_bus D) c d e in (d, e, k, kept)

  -- Over the physical memory and the regions, an instruction of mips32 and one of loongarch32r
  -- whose word can be fetched return: dnpc is the address behind the instruction, register 0 is
  -- 0, and the other registers but one at most are as before. The address of a load or a store
  -- is in physical memory, and for a word that no other row fits the two words at the
  -- instruction are.
  pub isa_exec_once-RunsOn :
      Mips32Served
      → Loongarch32rServed
      → RunsOn (Mips32.isa_exec_once (memory_bus D)) c
        × RunsOn (Loongarch32r.isa_exec_once (memory_bus D)) c
  isa_exec_once-RunsOn mips loongarch = (mips32-RunsOn mips, loongarch32r-RunsOn loongarch)

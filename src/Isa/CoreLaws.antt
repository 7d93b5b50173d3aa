-- ===== src/Isa/CoreLaws.antt =====
-- The course of `decode_exec` in src/isa/mips32/inst.c and src/isa/loongarch32r/inst.c, whatever
-- the bodies of the rows.
use gs_emu.Base.{
  ℕ, ◌+◌, ◌≡◌, false, Option, some, Option-cases, inl, inr, ◌==◌, arith, ap, sym, ◌∙◌,
}
use gs_emu.Word.{u32}
use gs_emu.Bus.{Bus}
use gs_emu.Riscv.Machine.{RunState}
use gs_emu.Isa.Core.{
  Cpu, set_gpr, set_nemu_state, nemutrap, set_dnpc, mr, mw, load_gpr, invalid_inst, inst_fetch,
  run_row, fetch_and_run,
}

-- The body of a row leaves the decoding, the program counter and all registers but one.
pub record Kept {B : Type 0} (r : ℕ) (c d : Cpu B) : Type 0 where
  pub decoding : d.s ≡ c.s
  pub pc : d.pc ≡ c.pc
  pub others : (j : ℕ) → (j == r) ≡ false → d.gpr j ≡ c.gpr j

-- The next address is the one after the instruction, the register zero is zero, and all other
-- registers but one are as before.
pub record Sequential {B : Type 0} (r : ℕ) (c d : Cpu B) : Type 0 where
  pub zero_register : d.gpr 0 ≡ 0
  pub same_pc : d.s.pc ≡ c.s.pc
  pub next : d.s.snpc ≡ u32 (c.s.snpc + 4)
  pub goes_on : d.s.dnpc ≡ d.s.snpc
  pub others : (j : ℕ) → (j == 0) ≡ false → (j == r) ≡ false → d.gpr j ≡ c.gpr j

some_inj : {A : Type 0} {u v : A} → some u ≡ some v → u ≡ v
some_inj h = cc

module _ {B : Type 0} where
  pub set_gpr-Kept : (r v : ℕ) (c d : Cpu B) → some (set_gpr r v c) ≡ some d → Kept r c d
  unfolding set_gpr
  set_gpr-Kept r v c d e = record {
    decoding = ground arith;
    pc = ground arith;
    others = ground arith;
  }

  set_nemu_state-Kept :
      (r : ℕ) (st : RunState) (a v : ℕ) (c d : Cpu B)
      → some (set_nemu_state st a v c) ≡ some d
      → Kept r c d
  unfolding set_nemu_state
  set_nemu_state-Kept r st a v c d e = record {
    decoding = ground arith;
    pc = ground arith;
    others = ground arith;
  }

  pub nemutrap-Kept : (r a v : ℕ) (c d : Cpu B) → nemutrap a v c ≡ some d → Kept r c d
  unfolding nemutrap
  nemutrap-Kept r a v c d e = set_nemu_state-Kept r RunState.end a v c d e

module _ (bus : Bus) where
  -- A load hands on a state that differs in the bus only.
  pub mr-Kept :
      (r a : ℕ) (f : ℕ → Cpu bus.State → Option (Cpu bus.State)) (c d : Cpu bus.State)
      → ((v : ℕ) (x : Cpu bus.State) → f v x ≡ some d → Kept r x d)
      → mr bus a f c ≡ some d
      → Kept r c d
  unfolding mr
  mr-Kept r a f c d k e = elim (Option-cases (bus.read a 4 c.bus)) [
    | inl bad ↦ ground arith
    | inr ((v, b), good) ↦
        let u = k v (record c { bus = b }) (rw (mr, good) at e) in
        record { decoding = u.decoding; pc = u.pc; others = u.others }
  ]

  pub mw-Kept : (r a v : ℕ) (c d : Cpu bus.State) → mw bus a v c ≡ some d → Kept r c d
  unfolding mw
  mw-Kept r a v c d e = elim (Option-cases (bus.write a 4 v c.bus)) [
    | inl bad ↦ ground arith
    | inr (b, good) ↦ record { decoding = ground arith; pc = ground arith; others = ground arith }
  ]

  pub load_gpr-Kept : (r a : ℕ) (c d : Cpu bus.State) → load_gpr bus r a c ≡ some d → Kept r c d
  load_gpr-Kept r a c d e = mr-Kept r a _ c d (λ v x h. set_gpr-Kept r v x d h) e

  pub invalid_inst-Kept :
      (r a : ℕ) (c d : Cpu bus.State) → invalid_inst bus a c ≡ some d → Kept r c d
  unfolding invalid_inst
  invalid_inst-Kept r a c d e =
      mr-Kept r a _ c d
        (λ v x h. mr-Kept r _ _ x d (λ w y g. set_nemu_state-Kept r RunState.abort a _ y d g) h) e

  run_row-Sequential :
      (run : Cpu bus.State → Option (Cpu bus.State)) (c d : Cpu bus.State)
      → ((x y : Cpu bus.State) → run x ≡ some y → (r : ℕ) × Kept r x y)
      → run_row bus run c ≡ some d
      → (r : ℕ) × (d.gpr 0 ≡ 0)
        × (d.s ≡ record (c.s) { dnpc = c.s.snpc })
        × ((j : ℕ) → (j == 0) ≡ false → (j == r) ≡ false → d.gpr j ≡ c.gpr j)
  unfolding run_row set_gpr
  run_row-Sequential run c d k e = elim (Option-cases (run (set_dnpc c))) [
    | inl bad ↦ ground arith
    | inr (y, done) ↦
        let u = k (set_dnpc c) y done in
        let same : set_gpr 0 0 y ≡ d = some_inj (rw (run_row, done) at e) in
        let kept = u.1.decoding in
        let others = u.1.others in
        (
          u.0,
          ap (λ x. x.gpr 0) (sym same),
          ap (λ x. x.s) (sym same) ∙ kept,
          λ j n o. ap (λ x. x.gpr j) (sym same) ∙ rw n (others j o),
        )
  ]

  pub fetch_and_run-Sequential :
      (run : Cpu bus.State → Option (Cpu bus.State)) (c d : Cpu bus.State)
      → ((x y : Cpu bus.State) → run x ≡ some y → (r : ℕ) × Kept r x y)
      → fetch_and_run bus run c ≡ some d
      → (r : ℕ) × Sequential r c d
  unfolding fetch_and_run inst_fetch mr
  fetch_and_run-Sequential run c d k e = elim (Option-cases (bus.read c.s.snpc 4 c.bus)) [
    | inl bad ↦ ground arith
    | inr ((v, b), good) ↦
        let x : Cpu bus.State = record c {
          bus = b;
          s = record (c.s) { snpc = u32 (c.s.snpc + 4); inst = v };
        } in
        let u = run_row-Sequential run x d k (rw (fetch_and_run, inst_fetch, mr, good) at e) in
        let (r, z, s, others) = u in
        (
          r,
          record {
            zero_register = z;
            same_pc = ap (λ x. x.pc) s;
            next = ap (λ x. x.snpc) s;
            goes_on = ap (λ x. x.dnpc) s ∙ sym (ap (λ x. x.snpc) s);
            others = others;
          },
        )
  ]

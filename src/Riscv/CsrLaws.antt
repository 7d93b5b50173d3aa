-- ===== src/Riscv/CsrLaws.antt =====
-- The places of the control registers (src/isa/riscv32/local-include/reg.h `check_csr_idx`).
use gs_emu.Base.{
  ℕ, suc, bit_and, bit_or, ltb, ◌&&◌, Bool, true, ◌^◌, ◌≤◌, ◌+◌, ◌≡◌, ◌≢◌, ◌⊎◌, inl, inr, refl, sym,
  ap, ◌∙◌, ◌<◌, length, false, Bool-cases, some, List, [], ◌∷◌, ◌==◌, get_elem?, arith, ==→eq,
}
use gs_emu.Word.{bits, not32}
use gs_emu.Bus.{Bus}
use gs_emu.Riscv.Machine.{Machine, ◌>>=◌, get_s, trap_peek_exception, excp_illegal_inst}
use gs_emu.Riscv.Operand.{imm_i, Operands, operands, decode_operand, type_csr_ii}
use gs_emu.Riscv.Instr.{Instr, csrrwi, csrrci, csrrsi}
use gs_emu.Riscv.Exec.{csr_rw_check, csr_access, exec_system}
use gs_emu.Riscv.Csr.{csr_idx_map, search_csr, check_csr_idx, nr_csr, zero_csr}

-- The number is at no place of the list.
abbrev pub Missing : ℕ → List ℕ → Type 0
Missing idx [] = Unit {0}
Missing idx (c ∷ cs) = (idx ≢ c) × Missing idx cs

search-get :
    (cs : List ℕ) (i idx : ℕ)
    → ((search_csr cs i idx ≡ nr_csr) × Missing idx cs)
      ⊎ ((k : ℕ) × (k < length cs) × (search_csr cs i idx ≡ i + k) × (get_elem? cs k ≡ some idx))
unfolding search_csr
search-get [] i idx = inl (refl, tt)
search-get (c ∷ cs) i idx = elim (Bool-cases (idx == c)) [
  | inl here ↦
      rw (search_csr, here) (inr (0, omega arith, omega arith, ap some (sym (==→eq idx c here))))
  | inr there ↦
      let differs : idx ≢ c = ground arith in
      rw (search_csr, there)
        (elim (search-get cs (i + 1) idx) [
          | inl (bad, missing) ↦ inl (bad, (differs, missing))
          | inr (k, lt, e, g) ↦ inr (suc k, omega arith, omega arith, g)
        ])
]

-- A CSR number other than that of the zero register has its place below 38 when the map holds
-- it, and the map holds it there; when the map holds it nowhere, its place is the error index
-- 38.
pub check_csr_idx-csr_idx_map :
    (idx : ℕ)
    → idx ≢ zero_csr
    → ((check_csr_idx idx < 38) × (get_elem? csr_idx_map (check_csr_idx idx) ≡ some idx))
      ⊎ ((check_csr_idx idx ≡ 38) × Missing idx csr_idx_map)
unfolding check_csr_idx
check_csr_idx-csr_idx_map idx h =
    let other : (idx == zero_csr) ≡ false = ground arith in
    rw other (elim (search-get csr_idx_map 0 idx) [
      | inl bad ↦ inr bad
      | inr (k, lt, e, g) ↦
          let place : search_csr csr_idx_map 0 idx ≡ k = omega arith in
          inl (omega (arith, lt, place), ap (get_elem? csr_idx_map) place ∙ g)
    ])

-- A list whose numbers are all below a bound has no place for a number from that bound on.
abbrev all_lt : ℕ → List ℕ → Bool
all_lt k [] = true
all_lt k (c ∷ cs) = ltb c k && all_lt k cs

search-above :
    (cs : List ℕ) (i k idx : ℕ) → all_lt k cs ≡ true → k ≤ idx → search_csr cs i idx ≡ nr_csr
unfolding search_csr
search-above [] i k idx h le = refl
search-above (c ∷ cs) i k idx h le =
    let miss : (idx == c) ≡ false = ground arith in
    rw (search_csr, miss) (search-above cs (i + 1) k idx (ground arith) le)

check_csr_idx-above : (idx : ℕ) → 2 ^ 31 ≤ idx → check_csr_idx idx ≡ nr_csr
unfolding check_csr_idx
check_csr_idx-above idx le =
    let other : (idx == zero_csr) ≡ false = ground arith in
    rw other (search-above csr_idx_map 0 0x1000 idx refl (omega arith))

-- A CSR number from 0x800 on is negative as an immediate.
imm_i-above : (inst : ℕ) → 0x800 ≤ bits inst 31 20 → 2 ^ 31 ≤ imm_i inst
unfolding imm_i
imm_i-above inst h = ground arith

-- The rows that take an immediate for the CSR's new digits.
abbrev pub IsCsrImmediate : Instr → Type 0
IsCsrImmediate name = (name ≡ csrrwi) ⊎ ((name ≡ csrrci) ⊎ (name ≡ csrrsi))

csr_access-above :
    {B : Type 0} (o : Operands) (f : ℕ → ℕ) (m : Machine B)
    → check_csr_idx o.imm ≡ nr_csr
    → csr_access o f m ≡ trap_peek_exception excp_illegal_inst m.s.inst m
unfolding csr_access csr_rw_check get_s ◌>>=◌
csr_access-above o f m h =
    let refused : (check_csr_idx o.imm == nr_csr) ≡ true = ground arith in rw refused refl

module _ (bus : Bus) (mem_all_access : Bool) where
  -- The rows csrrwi, csrrci and csrrsi with a CSR number from 0x800 on only raise an illegal
  -- instruction with the word that the decoder holds, whatever the number: it is read as an
  -- immediate with a sign and has no place.
  pub decode_operand-upper_csr :
      (name : Instr) (inst : ℕ) (m : Machine bus.State)
      → IsCsrImmediate name
      → 0x800 ≤ bits inst 31 20
      → (decode_operand inst type_csr_ii >>= exec_system bus mem_all_access name) m
        ≡ trap_peek_exception excp_illegal_inst m.s.inst m
  unfolding decode_operand exec_system ◌>>=◌
  decode_operand-upper_csr name inst m which h =
      let gone = check_csr_idx-above (imm_i inst) (imm_i-above inst h) in
      let o = operands (bits inst 11 7) (bits inst 19 15) 0 (imm_i inst) in
      elim which [
        | inl e ↦ rw e (csr_access-above o (λ t. o.src1) m gone)
        | inr (inl e) ↦ rw e (csr_access-above o (λ t. bit_and t (not32 o.src1)) m gone)
        | inr (inr e) ↦ rw e (csr_access-above o (λ t. bit_or t o.src1) m gone)
      ]

-- ===== src/Difftest/DutLaws.antt =====
-- What the comparison of src/cpu/difftest/dut.c and src/isa/riscv32/difftest/dut.c notices.
use gs_emu.Base.{
  ℕ, zero, suc, ◌+◌, ◌-◌, ◌^◌, ◌<◌, ◌≡◌, ◌≢◌, ◌⊎◌, refl, true, false, Option, ◌==◌, arith, inl, inr,
  Bool-cases, eq→==,
}
use gs_emu.Word.{sub32, u32}
use gs_emu.Riscv.Machine.{abort}
use gs_emu.Difftest.Dut.{
  RefKind, spike, qemu, minirv32i, csr_errors, csr_part, CpuState, Reference, Difftest, differs,
  gpr_errors, isa_difftest_checkregs, checkregs,
}

-- What is documented of `abs`: the absolute value, but for the lowest number.
pub record IsAbs (abs : ℕ → ℕ) : Type 0 where
  pub positive : (x : ℕ) → x < 2 ^ 31 → abs x ≡ x
  pub negative : (x : ℕ) → 2 ^ 31 < x → x < 2 ^ 32 → abs x ≡ 2 ^ 32 - x

-- More than 256 apart, as numbers with a sign.
abbrev Far : ℕ → ℕ → Type 0
Far a b = (256 < sub32 a b) × (sub32 a b < 2 ^ 32 - 256)

module _ (abs : ℕ → ℕ) (h : IsAbs abs) where
  differs-Far :
      (a b : ℕ)
      → a < 2 ^ 32
      → b < 2 ^ 32
      → sub32 a b ≢ 2 ^ 31
      → ((differs abs a b ≡ true) × Far a b) ⊎ ((differs abs a b ≡ false) × (Far a b → ⊥))
  differs-Far a b p q n =
      let x : ℕ = sub32 a b in
      let pos = h.positive x in
      let neg = h.negative x in
      elim (Bool-cases (differs abs a b)) [
        | inl e ↦ inl (e, ground (arith, pos, neg))
        | inr e ↦ inr (e, λ f. ground (arith, pos, neg, e, f))
      ]

  -- The registers below `n` whose comparison is defined.
  abbrev Comparable : ℕ → (ℕ → ℕ) → (ℕ → ℕ) → Type 0
  Comparable n r c =
      (i : ℕ) → i < n → (r i < 2 ^ 32) × (c i < 2 ^ 32) × (sub32 (r i) (c i) ≢ 2 ^ 31)

  gpr_errors-Far :
      (n : ℕ) (r c : ℕ → ℕ)
      → Comparable n r c
      → ((gpr_errors abs n r c ≡ 0) × ((i : ℕ) → i < n → Far (r i) (c i) → ⊥))
        ⊎ ((gpr_errors abs n r c ≢ 0) × ((i : ℕ) × (i < n) × Far (r i) (c i)))
  unfolding gpr_errors
  gpr_errors-Far zero r c k = inl (refl, λ i l f. absurd (omega arith))
  gpr_errors-Far (suc n) r c k =
      let (p, q, m) = k n (omega arith) in
      elim (differs-Far (r n) (c n) p q m) [
        | inl (e, f) ↦ inr (rw e (λ z. omega arith), (n, omega arith, f))
        | inr (e, f) ↦ elim (gpr_errors-Far n r c (λ i l. k i (omega arith))) [
          | inl (z, g) ↦ inl (
            rw (e, z) refl,
            λ i l far. elim (Bool-cases (i == n)) [
              | inl same ↦ let s : i ≡ n = ground arith in f (rw s at far)
              | inr other ↦ g i (ground arith) far
            ],
          )
          | inr (z, w) ↦ inr (rw e (λ y. z (omega arith)), (w.0, omega arith, w.2))
        ]
      ]

  csr_errors-Differ :
      (n : ℕ) (r c : ℕ → ℕ)
      → ((csr_errors n r c ≡ 0) × ((i : ℕ) → i < n → r i ≡ c i))
        ⊎ ((csr_errors n r c ≢ 0) × ((i : ℕ) × (i < n) × (r i ≢ c i)))
  unfolding csr_errors
  csr_errors-Differ zero r c = inl (refl, λ i l. absurd (omega arith))
  csr_errors-Differ (suc n) r c = elim (Bool-cases (r n == c n)) [
    | inr e ↦ inr (rw e (λ z. omega arith), (n, omega arith, λ f. ground (arith, e, f)))
    | inl e ↦ elim (csr_errors-Differ n r c) [
      | inl (z, g) ↦ inl (
        rw (e, z) refl,
        λ i l. elim (Bool-cases (i == n)) [
          | inl same ↦ let s : i ≡ n = ground arith in rw s (ground arith)
          | inr other ↦ g i (ground arith)
        ],
      )
      | inr (z, w) ↦ inr (rw e (λ y. z (omega arith)), (w.0, omega arith, w.2))
    ]
  ]

  -- With Spike, some control register but the last differs.
  abbrev CsrDiffers : RefKind → (ℕ → ℕ) → (ℕ → ℕ) → Type 0
  CsrDiffers kind r c = (kind ≡ spike) × ((i : ℕ) × (i < 37) × (r i ≢ c i))

  csr_part-Differ :
      (kind : RefKind) (r c : ℕ → ℕ)
      → ((csr_part kind r c ≡ 0) × (CsrDiffers kind r c → ⊥))
        ⊎ ((csr_part kind r c ≢ 0) × CsrDiffers kind r c)
  csr_part-Differ spike r c = elim (csr_errors-Differ 37 r c) [
    | inl (z, g) ↦ inl (z, λ w. w.1.2 (g w.1.0 w.1.1))
    | inr (z, w) ↦ inr (z, (refl, w))
  ]
  csr_part-Differ qemu r c = inl (refl, λ w. cc)
  csr_part-Differ minirv32i r c = inl (refl, λ w. cc)

  -- What the comparison is to notice, the program counters being equal.
  abbrev pub Differ : {B R : Type 0} → RefKind → CpuState → Difftest B R → Type 0
  Differ kind r d =
      ((i : ℕ) × (i < 32) × Far (r.gpr i) (d.cpu.gpr i)) ⊎ CsrDiffers kind r.csr d.cpu.csr

  module _ {B R : Type 0} (kind : RefKind) (ref : Reference R) where
    checkregs-errors :
        (answer : Option ℕ) (r : CpuState) (pc n : ℕ) (d : Difftest B R)
        → d.cpu.pc ≡ r.pc
        → gpr_errors abs 32 r.gpr d.cpu.gpr + csr_part kind r.csr d.cpu.csr ≡ n
        → ((n ≡ 0) → checkregs kind ref abs answer r pc d ≡ d)
          × ((n ≢ 0)
              → checkregs kind ref abs answer r pc d ≡ record d {
                cpu = record (d.cpu) {
                  nemu_state = record (d.cpu.nemu_state) { state = abort; halt_pc = u32 pc };
                };
              })
    unfolding checkregs isa_difftest_checkregs
    checkregs-errors answer r pc n d e sum =
        let chk : isa_difftest_checkregs kind ref abs answer r d ≡ (n == 0, d) =
          rw (isa_difftest_checkregs, eq→== d.cpu.pc r.pc e, sum) refl in
        (
          (λ z. rw (checkregs, chk, z) refl),
          (λ z. let nz : (n == 0) ≡ false = ground arith in rw (checkregs, chk, nz) refl),
        )

    -- With the program counters equal, exactly one of two things happens. Some general register
    -- is more than 256 away from that of the reference, as a number with a sign, or the
    -- reference is Spike and one of the first 37 control registers differs; then the comparison
    -- only puts the emulation in ABORT at the given address. Or neither is so, and the
    -- comparison changes nothing. The general registers are words, no two of them are 2 ^ 31
    -- apart, and `abs` gives absolute values.
    pub checkregs-Far :
        (answer : Option ℕ) (r : CpuState) (pc : ℕ) (d : Difftest B R)
        → Comparable 32 r.gpr d.cpu.gpr
        → d.cpu.pc ≡ r.pc
        → (Differ kind r d
            × (checkregs kind ref abs answer r pc d ≡ record d {
              cpu = record (d.cpu) {
                nemu_state = record (d.cpu.nemu_state) { state = abort; halt_pc = u32 pc };
              };
            }))
          ⊎ ((Differ kind r d → ⊥) × (checkregs kind ref abs answer r pc d ≡ d))
    checkregs-Far answer r pc d k e =
        let (same, other) = checkregs-errors answer r pc _ d e refl in
        elim (gpr_errors-Far 32 r.gpr d.cpu.gpr k) [
          | inr (z, w) ↦ inl (inl w, other (λ y. z (omega arith)))
          | inl (z, near) ↦ elim (csr_part-Differ kind r.csr d.cpu.csr) [
            | inr (y, w) ↦ inl (inr w, other (λ x. y (omega arith)))
            | inl (y, equal) ↦
                inr
                  ((λ f. elim f [ inl w ↦ near w.0 w.1 w.2 | inr w ↦ equal w ]), same (omega arith))
          ]
        ]

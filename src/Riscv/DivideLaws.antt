-- ===== src/Riscv/DivideLaws.antt =====
-- Quotient and remainder of RV32M (src/isa/riscv32/inst.c `div`, `rem`, `divu`, `remu`).
use gs_emu.Base.{
  ℕ, zero, suc, ◌+◌, ◌-◌, ◌*◌, ◌/◌, ◌%◌, ◌^◌, ◌<◌, ◌≤◌, ◌≡◌, refl, sym, ap, ◌∙◌, ◌&&◌, Bool-cases,
  inl, inr, ◌==◌, arith,
}
use gs_emu.Word.{u32, sdiv32, srem32, neg32, is_neg}
use gs_emu.Riscv.Exec.{div_rd, divu_rd, rem_rd, remu_rd}
use native.Mathlib.Nat.{div-add-mod', div-le_self, add_comm, add-mul, mul-add, sub-add_cancel}

-- For a word and any divisor, 0 among them, the unsigned quotient times the divisor plus the
-- unsigned remainder is the dividend, modulo 2 ^ 32.
divu_rd-remu_rd : (a b : ℕ) → a < 2 ^ 32 → u32 (divu_rd a b * b + remu_rd a b) ≡ a
unfolding divu_rd remu_rd
divu_rd-remu_rd a b ha = elim (Bool-cases (b == 0)) [
  | inl zero_b ↦ let e : b ≡ 0 = ground arith in rw e (omega arith)
  | inr other ↦ rw other (omega (arith, div-add-mod' a b))
]

complement : (n x y : ℕ) → x ≤ n → (n - x) * y + x * y ≡ n * y
complement n x y h = sym (add-mul (n - x) x y) ∙ ap (λ t. t * y) (sub-add_cancel h)

product : (n x y b : ℕ) → x + b ≡ n → y * b + y * x ≡ y * n
product n x y b h = sym (mul-add y b x) ∙ ap (λ t. y * t) (add_comm b x ∙ h)

negates :
    (q c r : ℕ) → q ≤ 2 ^ 31 → q * c + r ≤ 2 ^ 31 → u32 (neg32 q * c + neg32 r) ≡ neg32 (q * c + r)
negates zero c r hq h = omega arith
negates (suc q) c r hq h =
    let n : neg32 (suc q) ≡ 2 ^ 32 - suc q = omega arith in
    rw n (omega (arith, complement (2 ^ 32) (suc q) c (omega arith)))

cancels :
    (q c b r : ℕ)
    → q ≤ 2 ^ 31
    → c ≤ 2 ^ 31
    → c + b ≡ 2 ^ 32
    → q * c + r ≤ 2 ^ 31
    → u32 (neg32 q * b + r) ≡ q * c + r
cancels zero c b r hq hc e h = omega arith
cancels (suc q) c b r hq hc e h =
    let n : neg32 (suc q) ≡ 2 ^ 32 - suc q = omega arith in
    rw n
      (omega (arith, complement (2 ^ 32) (suc q) b (omega arith), product (2 ^ 32) c (suc q) b e))

negates' :
    (q c b r : ℕ) → c + b ≡ 2 ^ 32 → q * c + r ≤ 2 ^ 31 → u32 (q * b + neg32 r) ≡ neg32 (q * c + r)
negates' q c b r e h = omega (arith, product (2 ^ 32) c q b e)

signed : (a b : ℕ) → a < 2 ^ 32 → b < 2 ^ 32 → u32 (sdiv32 a b * b + srem32 a b) ≡ a
unfolding sdiv32 srem32
signed a b ha hb = elim (Bool-cases (is_neg a)) [
  | inl na ↦ elim (Bool-cases (is_neg b)) [
    | inl nb ↦
        let lo : 2 ^ 31 ≤ a = ground arith in
        let whole = div-add-mod' (2 ^ 32 - a) (2 ^ 32 - b) in
        let le = div-le_self (2 ^ 32 - a) (2 ^ 32 - b) in
        let fits : u32 ((2 ^ 32 - a) / (2 ^ 32 - b)) ≡ (2 ^ 32 - a) / (2 ^ 32 - b) = omega arith in
        rw (na, nb, fits)
          (negates' ((2 ^ 32 - a) / (2 ^ 32 - b)) (2 ^ 32 - b) b ((2 ^ 32 - a) % (2 ^ 32 - b))
              (omega arith) (omega arith)
            ∙ omega arith)
    | inr pb ↦
        let lo : 2 ^ 31 ≤ a = ground arith in
        let whole = div-add-mod' (2 ^ 32 - a) b in
        let le = div-le_self (2 ^ 32 - a) b in
        let fits : u32 ((2 ^ 32 - a) / b) ≡ (2 ^ 32 - a) / b = omega arith in
        rw (na, pb, fits)
          (negates ((2 ^ 32 - a) / b) b ((2 ^ 32 - a) % b) (omega arith) (omega arith)
            ∙ omega arith)
  ]
  | inr pa ↦ elim (Bool-cases (is_neg b)) [
    | inl nb ↦
        let hi : a < 2 ^ 31 = ground arith in
        let lo : 2 ^ 31 ≤ b = ground arith in
        let whole = div-add-mod' a (2 ^ 32 - b) in
        let le = div-le_self a (2 ^ 32 - b) in
        let fits : u32 (a / (2 ^ 32 - b)) ≡ a / (2 ^ 32 - b) = omega arith in
        rw (pa, nb, fits)
          (cancels (a / (2 ^ 32 - b)) (2 ^ 32 - b) b (a % (2 ^ 32 - b)) (omega arith) (omega arith)
              (omega arith) (omega arith)
            ∙ omega arith)
    | inr pb ↦
        let whole = div-add-mod' a b in
        let le = div-le_self a b in
        let fits : u32 (a / b) ≡ a / b = omega arith in rw (pa, pb, fits) (omega arith)
  ]
]

-- For any two words, the signed quotient times the divisor plus the signed remainder is the
-- dividend, modulo 2 ^ 32: for every choice of signs, for the divisor 0 and for the overflow of
-- -2 ^ 31 by -1.
div_rd-rem_rd : (a b : ℕ) → a < 2 ^ 32 → b < 2 ^ 32 → u32 (div_rd a b * b + rem_rd a b) ≡ a
unfolding div_rd rem_rd
div_rd-rem_rd a b ha hb = elim (Bool-cases (a == 0x8000_0000 && b == 0xffff_ffff)) [
  | inl over ↦
      let top : a ≡ 0x8000_0000 = ground arith in
      let minus_one : b ≡ 0xffff_ffff = ground arith in rw over (rw (top, minus_one) refl)
  | inr usual ↦ elim (Bool-cases (b == 0)) [
    | inl zero_b ↦ let e : b ≡ 0 = ground arith in rw (usual, zero_b) (rw e (omega arith))
    | inr other ↦ rw (usual, other) (signed a b ha hb)
  ]
]

-- For any two words, quotient times divisor plus remainder is the dividend, modulo 2 ^ 32, for
-- the signed and for the unsigned instructions: for every choice of signs, for the divisor 0 and
-- for the overflow of -2 ^ 31 by -1.
pub division-remainder :
    (a b : ℕ)
    → a < 2 ^ 32
    → b < 2 ^ 32
    → (u32 (div_rd a b * b + rem_rd a b) ≡ a) × (u32 (divu_rd a b * b + remu_rd a b) ≡ a)
division-remainder a b ha hb = (div_rd-rem_rd a b ha hb, divu_rd-remu_rd a b ha)

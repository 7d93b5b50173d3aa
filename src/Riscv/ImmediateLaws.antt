-- ===== src/Riscv/ImmediateLaws.antt =====
-- The immediates of branches and jumps (src/isa/riscv32/inst.c `immB`, `immJ`, `immS`).
use gs_emu.Base.{ℕ, ◌+◌, ◌*◌, ◌/◌, ◌%◌, ◌^◌, ◌<◌, ◌≡◌, refl, ap, ◌∙◌, bit_or, arith}
use gs_emu.Word.{u32, u64, bits, sext, bit, bit_or_fields}
use gs_emu.Riscv.Operand.{imm_s, imm_b, imm_j}

-- The instruction word of a branch by the offset `v` (13 bits), with the other fields from `x`.
abbrev pub encode_b : ℕ → ℕ → ℕ
encode_b v x =
    bit 12 v * 2 ^ 31
    + bits v 10 5 * 2 ^ 25
    + bits x 24 12 * 2 ^ 12
    + bits v 4 1 * 2 ^ 8
    + bit 11 v * 2 ^ 7
    + x % 2 ^ 7

-- For an even offset of 13 digits and any other fields, the immediate of the branch word with
-- that offset is the offset, extended by its sign to 32 digits.
imm_b-encode_b : (v x : ℕ) → v < 2 ^ 13 → v % 2 ≡ 0 → imm_b (encode_b v x) ≡ u32 (sext v 13)
unfolding imm_b
imm_b-encode_b v x hv even =
    let i = encode_b v x in
    let a : bit_or (bits i 31 31 * 2 ^ 12) (bits i 7 7 * 2 ^ 11) ≡ v / 2 ^ 11 * 2 ^ 11 =
      bit_or_fields 12 (bits i 31 31) (bits i 7 7 * 2 ^ 11) (omega arith) ∙ omega arith in
    let b : bit_or (v / 2 ^ 11 * 2 ^ 11) (bits i 30 25 * 2 ^ 5) ≡ v / 2 ^ 5 * 2 ^ 5 =
      bit_or_fields 11 (v / 2 ^ 11) (bits i 30 25 * 2 ^ 5) (omega arith) ∙ omega arith in
    let c : bit_or (v / 2 ^ 5 * 2 ^ 5) (bits i 11 8 * 2) ≡ v =
      bit_or_fields 5 (v / 2 ^ 5) (bits i 11 8 * 2) (omega arith) ∙ omega arith in
    rw (a, b, c) refl

-- The instruction word of `jal` by the offset `v` (21 bits), with the other fields from `x`.
abbrev pub encode_j : ℕ → ℕ → ℕ
encode_j v x =
    bit 20 v * 2 ^ 31
    + bits v 10 1 * 2 ^ 21
    + bit 11 v * 2 ^ 20
    + bits v 19 12 * 2 ^ 12
    + x % 2 ^ 12

-- For an even offset of 21 digits and any other fields, the immediate of the `jal` word with
-- that offset is the offset, extended by its sign to 32 digits.
imm_j-encode_j : (v x : ℕ) → v < 2 ^ 21 → v % 2 ≡ 0 → imm_j (encode_j v x) ≡ u32 (sext v 21)
unfolding imm_j
imm_j-encode_j v x hv even =
    let i = encode_j v x in
    let a : bit_or (bits i 31 31 * 2 ^ 20) (bits i 19 12 * 2 ^ 12) ≡ v / 2 ^ 12 * 2 ^ 12 =
      bit_or_fields 20 (bits i 31 31) (bits i 19 12 * 2 ^ 12) (omega arith) ∙ omega arith in
    let b : bit_or (v / 2 ^ 12 * 2 ^ 12) (bits i 20 20 * 2 ^ 11) ≡ v / 2 ^ 11 * 2 ^ 11 =
      bit_or_fields 12 (v / 2 ^ 12) (bits i 20 20 * 2 ^ 11) (omega arith) ∙ omega arith in
    let c : bit_or (v / 2 ^ 11 * 2 ^ 11) (bits i 30 25 * 2 ^ 5) ≡ v / 2 ^ 5 * 2 ^ 5 =
      bit_or_fields 11 (v / 2 ^ 11) (bits i 30 25 * 2 ^ 5) (omega arith) ∙ omega arith in
    let d : bit_or (v / 2 ^ 5 * 2 ^ 5) (bits i 24 21 * 2) ≡ v =
      bit_or_fields 5 (v / 2 ^ 5) (bits i 24 21 * 2) (omega arith) ∙ omega arith in
    rw (a, b, c, d) refl

-- The instruction word of a store by the offset `v` (12 bits), with the other fields from `x`.
abbrev pub encode_s : ℕ → ℕ → ℕ
encode_s v x = bits v 11 5 * 2 ^ 25 + bits x 24 12 * 2 ^ 12 + bits v 4 0 * 2 ^ 7 + x % 2 ^ 7

-- For an offset of 12 digits and any other fields, the immediate of the store word with that
-- offset is the offset, extended by its sign to 32 digits.
imm_s-encode_s : (v x : ℕ) → v < 2 ^ 12 → imm_s (encode_s v x) ≡ u32 (sext v 12)
unfolding imm_s
imm_s-encode_s v x hv =
    let i = encode_s v x in
    let a : u64 (sext (bits i 31 25) 7 * 2 ^ 5)
        ≡ u64 (sext (bits i 31 25) 7 * 2 ^ 5) / 2 ^ 5 * 2 ^ 5 =
      omega arith in
    let b : bit_or (u64 (sext (bits i 31 25) 7 * 2 ^ 5)) (bits i 11 7)
        ≡ u64 (sext (bits i 31 25) 7 * 2 ^ 5) / 2 ^ 5 * 2 ^ 5 + bits i 11 7 =
      ap (λ y. bit_or y (bits i 11 7)) a
      ∙ bit_or_fields 5 (u64 (sext (bits i 31 25) 7 * 2 ^ 5) / 2 ^ 5) (bits i 11 7) (omega arith) in
    let upper : bits i 31 25 ≡ v / 2 ^ 5 = omega arith in
    let lower : bits i 11 7 ≡ v % 2 ^ 5 = omega arith in rw (b, upper, lower) (ground arith)

-- For an even offset of 13 digits the immediate of the branch word with that offset, for an even
-- offset of 21 digits that of the `jal` word, and for an offset of 12 digits that of the store
-- word is the offset, extended by its sign to 32 digits, whatever the other fields.
pub immediates-encode :
    (b j s x : ℕ)
    → b < 2 ^ 13
    → b % 2 ≡ 0
    → j < 2 ^ 21
    → j % 2 ≡ 0
    → s < 2 ^ 12
    → (imm_b (encode_b b x) ≡ u32 (sext b 13))
      × (imm_j (encode_j j x) ≡ u32 (sext j 21))
      × (imm_s (encode_s s x) ≡ u32 (sext s 12))
immediates-encode b j s x hb eb hj ej hs =
    (imm_b-encode_b b x hb eb, imm_j-encode_j j x hj ej, imm_s-encode_s s x hs)

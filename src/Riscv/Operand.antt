-- ===== src/Riscv/Operand.antt =====
-- src/isa/riscv32/inst.c: `decode_operand` and the immediates `immI` ... `immJ`.
use gs_emu.Base.{ℕ, ◌*◌, ◌^◌, bit_or}
use gs_emu.Word.{u32, u64, bits, sext}
use gs_emu.Riscv.Machine.{Cmd, pure, ◌>>=◌, get_gpr}

-- `TYPE_I` ... `TYPE_N`.
pub data OperandType : Type 0 where
  type_i type_u type_s type_j type_b type_r type_csr_ii type_csr_i type_n : OperandType

pub record Operands : Type 0 where
  pub rd : ℕ
  pub src1 : ℕ
  pub src2 : ℕ
  pub imm : ℕ

unfoldable pub imm_i : ℕ → ℕ
imm_i i = u32 (sext (bits i 31 20) 12)

unfoldable pub imm_u : ℕ → ℕ
imm_u i = u32 (sext (bits i 31 12) 20 * 2 ^ 12)

unfoldable pub imm_s : ℕ → ℕ
imm_s i = u32 (bit_or (u64 (sext (bits i 31 25) 7 * 2 ^ 5)) (bits i 11 7))

unfoldable pub imm_b : ℕ → ℕ
imm_b i = u32 (
    sext
      (bit_or (bit_or (bit_or (bits i 31 31 * 2 ^ 12) (bits i 7 7 * 2 ^ 11)) (bits i 30 25 * 2 ^ 5))
        (bits i 11 8 * 2))
      13)

unfoldable pub imm_j : ℕ → ℕ
imm_j i = u32 (
    sext
      (bit_or
        (bit_or
          (bit_or (bit_or (bits i 31 31 * 2 ^ 20) (bits i 19 12 * 2 ^ 12)) (bits i 20 20 * 2 ^ 11))
          (bits i 30 25 * 2 ^ 5))
        (bits i 24 21 * 2))
      21)

abbrev pub operands : ℕ → ℕ → ℕ → ℕ → Operands
operands rd a b i = record { rd = rd; src1 = a; src2 = b; imm = i }

module _ {B : Type 0} where
  abbrev pub with_src1 : ℕ → ℕ → Cmd B Operands
  with_src1 i imm = do a ← get_gpr (bits i 19 15); pure (operands (bits i 11 7) a 0 imm)

  abbrev pub with_src2 : ℕ → ℕ → Cmd B Operands
  with_src2 i imm = do
    a ← get_gpr (bits i 19 15)
    b ← get_gpr (bits i 24 20)
    pure (operands (bits i 11 7) a b imm)

  -- What a type leaves alone keeps the zero that `decode_exec` starts with.
  unfoldable pub decode_operand : ℕ → OperandType → Cmd B Operands
  decode_operand i type_i = with_src1 i (imm_i i)
  decode_operand i type_u = pure (operands (bits i 11 7) 0 0 (imm_u i))
  decode_operand i type_j = pure (operands (bits i 11 7) 0 0 (imm_j i))
  decode_operand i type_s = with_src2 i (imm_s i)
  decode_operand i type_b = with_src2 i (imm_b i)
  decode_operand i type_r = with_src2 i 0
  decode_operand i type_csr_i = with_src1 i (bits i 31 20)
  decode_operand i type_csr_ii = pure (operands (bits i 11 7) (bits i 19 15) 0 (imm_i i))
  decode_operand i type_n = pure (operands (bits i 11 7) 0 0 0)

-- ===== src/Riscv/Exec/Alu.antt =====
-- src/isa/riscv32/inst.c: the computations on registers of RV32I and RV32M.
use gs_emu.Base.{
  ℕ, ◌+◌, ◌*◌, ◌/◌, ◌%◌, ◌^◌, bit_and, bit_or, bit_xor, Bool, ◌&&◌, not, ltb, ◌==◌, if◌then◌else◌,
}
use gs_emu.Word.{u64, bits, sext64, sub32, slt32, sra32, sdiv32, srem32}
use gs_emu.Riscv.Machine.{Cmd, ◌>>=◌, skip, get_s, set_gpr, trap_peek_exception, excp_illegal_inst}
use gs_emu.Riscv.Operand.{Operands}
use gs_emu.Riscv.Instr.{Instr}

-- The value of a comparison.
abbrev pub flag : Bool → ℕ
flag b = if b then 1 else 0

-- `div`, `divu`, `rem`, `remu`: what goes to `R(rd)`. `1 << (XLEN - 1)` is 2 ^ 31, -1 is 2 ^ 32 - 1.
unfoldable pub div_rd : ℕ → ℕ → ℕ
unfolding sdiv32
div_rd a b =
    if a == 0x8000_0000 && b == 0xffff_ffff
    then a
    else if not (b == 0)
    then sdiv32 a b
    else 0xffff_ffff

unfoldable pub divu_rd : ℕ → ℕ → ℕ
divu_rd a b = if not (b == 0) then a / b else 0xffff_ffff

unfoldable pub rem_rd : ℕ → ℕ → ℕ
unfolding srem32
rem_rd a b =
    if a == 0x8000_0000 && b == 0xffff_ffff then 0 else if not (b == 0) then srem32 a b else a

unfoldable pub remu_rd : ℕ → ℕ → ℕ
remu_rd a b = if not (b == 0) then a % b else a

module _ {B : Type 0} where
  -- The rows that only write `R(rd)`, and `slli`, which may refuse its shift.
  unfoldable pub exec_alu : Instr → Operands → Cmd B (Unit {0})
  exec_alu Instr.lui o = set_gpr o.rd o.imm
  exec_alu Instr.auipc o = do s ← get_s; set_gpr o.rd (s.pc + o.imm)
  exec_alu Instr.addi o = set_gpr o.rd (o.src1 + o.imm)
  exec_alu Instr.slti o = set_gpr o.rd (flag (slt32 o.src1 o.imm))
  exec_alu Instr.sltiu o = set_gpr o.rd (flag (ltb o.src1 o.imm))
  exec_alu Instr.xori o = set_gpr o.rd (bit_xor o.src1 o.imm)
  exec_alu Instr.ori o = set_gpr o.rd (bit_or o.src1 o.imm)
  exec_alu Instr.andi o = set_gpr o.rd (bit_and o.src1 o.imm)
  exec_alu Instr.slli o =
      if not (bit_and o.imm 0x20 == 0)
      then (do s ← get_s; trap_peek_exception excp_illegal_inst s.inst)
      else set_gpr o.rd (o.src1 * 2 ^ bits o.imm 6 0)
  exec_alu Instr.srli o = set_gpr o.rd (o.src1 / 2 ^ bits o.imm 5 0)
  exec_alu Instr.srai o = set_gpr o.rd (sra32 o.src1 (bits o.imm 5 0))
  exec_alu Instr.add o = set_gpr o.rd (o.src1 + o.src2)
  exec_alu Instr.sub o = set_gpr o.rd (sub32 o.src1 o.src2)
  exec_alu Instr.sll o = set_gpr o.rd (o.src1 * 2 ^ bits o.src2 4 0)
  exec_alu Instr.slt o = set_gpr o.rd (flag (slt32 o.src1 o.src2))
  exec_alu Instr.sltu o = set_gpr o.rd (flag (ltb o.src1 o.src2))
  exec_alu Instr.xor o = set_gpr o.rd (bit_xor o.src1 o.src2)
  exec_alu Instr.srl o = set_gpr o.rd (o.src1 / 2 ^ bits o.src2 4 0)
  exec_alu Instr.sra o = set_gpr o.rd (sra32 o.src1 (bits o.src2 4 0))
  exec_alu Instr.or o = set_gpr o.rd (bit_or o.src1 o.src2)
  exec_alu Instr.and o = set_gpr o.rd (bit_and o.src1 o.src2)
  exec_alu Instr.mul o = set_gpr o.rd (o.src1 * o.src2)
  exec_alu Instr.mulh o = set_gpr o.rd (u64 (sext64 o.src1 * sext64 o.src2) / 2 ^ 32)
  exec_alu Instr.mulhsu o = set_gpr o.rd (u64 (sext64 o.src1 * o.src2) / 2 ^ 32)
  exec_alu Instr.mulhu o = set_gpr o.rd (o.src1 * o.src2 / 2 ^ 32)
  exec_alu Instr.div o = set_gpr o.rd (div_rd o.src1 o.src2)
  exec_alu Instr.divu o = set_gpr o.rd (divu_rd o.src1 o.src2)
  exec_alu Instr.rem o = set_gpr o.rd (rem_rd o.src1 o.src2)
  exec_alu Instr.remu o = set_gpr o.rd (remu_rd o.src1 o.src2)
  exec_alu _ o = skip

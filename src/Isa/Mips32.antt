-- ===== src/Isa/Mips32.antt =====
-- src/isa/mips32/inst.c.
use gs_emu.Base.{ℕ, ◌+◌, ◌*◌, ◌^◌, Option, none, some, List, [], ◌∷◌}
use gs_emu.Word.{u32, bits, sext}
use gs_emu.Bus.{Bus}
use gs_emu.Riscv.Instr.{codes}
use gs_emu.Riscv.Operand.{Operands, operands}
use gs_emu.Isa.Core.{Cpu, Row, select, set_gpr, nemutrap, mw, load_gpr, invalid_inst, fetch_and_run}

pub data Instr : Type 0 where
  lui lw sw sdbbp inv : Instr

-- `TYPE_I`, `TYPE_U`, `TYPE_N`.
pub data OperandType : Type 0 where
  type_i type_u type_n : OperandType

abbrev pub instpats : List (Row Instr OperandType)
instpats =
    record {
      pattern = codes "001111 ????? ????? ????? ????? ??????";
      name = lui;
      operand_type = type_u;
    }
    ∷ record {
      pattern = codes "100011 ????? ????? ????? ????? ??????";
      name = lw;
      operand_type = type_i;
    }
    ∷ record {
      pattern = codes "101011 ????? ????? ????? ????? ??????";
      name = sw;
      operand_type = type_i;
    }
    ∷ record {
      pattern = codes "011100 ????? ????? ????? ????? 111111";
      name = sdbbp;
      operand_type = type_n;
    }
    ∷ record {
      pattern = codes "?????? ????? ????? ????? ????? ??????";
      name = inv;
      operand_type = type_n;
    }
    ∷ []

unfoldable pub imm_i : ℕ → ℕ
imm_i i = u32 (sext (bits i 15 0) 16)

-- `rs` and `rt`.
unfoldable pub decode_operand : (ℕ → ℕ) → ℕ → OperandType → Operands
decode_operand gpr i type_i = operands (bits i 20 16) (gpr (bits i 25 21)) 0 (imm_i i)
decode_operand gpr i type_u = operands (bits i 20 16) (gpr (bits i 25 21)) 0 (bits i 15 0)
decode_operand gpr i type_n = operands (bits i 15 11) 0 0 0

module _ (bus : Bus) where
  unfoldable pub exec : Instr → Operands → Cpu bus.State → Option (Cpu bus.State)
  exec lui o c = some (set_gpr o.rd (o.imm * 2 ^ 16) c)
  exec lw o c = load_gpr bus o.rd (u32 (o.src1 + o.imm)) c
  exec sw o c = mw bus (u32 (o.src1 + o.imm)) (c.gpr o.rd) c
  exec sdbbp o c = nemutrap c.s.pc (c.gpr 2) c
  exec inv o c = invalid_inst bus c.s.pc c

  -- The rows of `decode_exec`.
  unfoldable pub exec_inst : Cpu bus.State → Option (Cpu bus.State)
  exec_inst c = elim (select instpats c.s.inst) [
    | none ↦ none
    | some r ↦ exec r.name (decode_operand c.gpr c.s.inst r.operand_type) c
  ]

  unfoldable pub isa_exec_once : Cpu bus.State → Option (Cpu bus.State)
  isa_exec_once = fetch_and_run bus exec_inst

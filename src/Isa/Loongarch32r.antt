-- ===== src/Isa/Loongarch32r.antt =====
-- src/isa/loongarch32r/inst.c.
use gs_emu.Base.{ℕ, ◌+◌, ◌*◌, ◌^◌, Option, none, some, List, [], ◌∷◌}
use gs_emu.Word.{u32, bits, sext}
use gs_emu.Bus.{Bus}
use gs_emu.Riscv.Instr.{codes}
use gs_emu.Riscv.Operand.{Operands, operands}
use gs_emu.Isa.Core.{Cpu, Row, select, set_gpr, nemutrap, mw, load_gpr, invalid_inst, fetch_and_run}

-- `ld.w` and `st.w` are `ld_w` and `st_w`.
pub data Instr : Type 0 where
  pcaddu12i ld_w st_w break inv : Instr

-- `TYPE_1RI20`, `TYPE_2RI12`, `TYPE_N`.
pub data OperandType : Type 0 where
  type_1ri20 type_2ri12 type_n : OperandType

abbrev pub instpats : List (Row Instr OperandType)
instpats =
    record {
      pattern = codes "0001110 ????? ????? ????? ????? ?????";
      name = pcaddu12i;
      operand_type = type_1ri20;
    }
    ∷ record {
      pattern = codes "0010100010 ???????????? ????? ?????";
      name = ld_w;
      operand_type = type_2ri12;
    }
    ∷ record {
      pattern = codes "0010100110 ???????????? ????? ?????";
      name = st_w;
      operand_type = type_2ri12;
    }
    ∷ record {
      pattern = codes "0000 0000 0010 10100 ????? ????? ?????";
      name = break;
      operand_type = type_n;
    }
    ∷ record {
      pattern = codes "????????????????? ????? ????? ?????";
      name = inv;
      operand_type = type_n;
    }
    ∷ []

unfoldable pub simm12 : ℕ → ℕ
simm12 i = u32 (sext (bits i 21 10) 12)

unfoldable pub simm20 : ℕ → ℕ
simm20 i = u32 (sext (bits i 24 5) 20 * 2 ^ 12)

-- `rj` and `rd`.
unfoldable pub decode_operand : (ℕ → ℕ) → ℕ → OperandType → Operands
decode_operand gpr i type_1ri20 = operands (bits i 4 0) (gpr (bits i 9 5)) 0 (simm20 i)
decode_operand gpr i type_2ri12 = operands (bits i 4 0) (gpr (bits i 9 5)) 0 (simm12 i)
decode_operand gpr i type_n = operands (bits i 4 0) 0 0 0

module _ (bus : Bus) where
  unfoldable pub exec : Instr → Operands → Cpu bus.State → Option (Cpu bus.State)
  exec pcaddu12i o c = some (set_gpr o.rd (c.s.pc + o.imm) c)
  exec ld_w o c = load_gpr bus o.rd (u32 (o.src1 + o.imm)) c
  exec st_w o c = mw bus (u32 (o.src1 + o.imm)) (c.gpr o.rd) c
  exec break o c = nemutrap c.s.pc (c.gpr 4) c
  exec inv o c = invalid_inst bus c.s.pc c

  -- The rows of `decode_exec`.
  unfoldable pub exec_inst : Cpu bus.State → Option (Cpu bus.State)
  exec_inst c = elim (select instpats c.s.inst) [
    | none ↦ none
    | some r ↦ exec r.name (decode_operand c.gpr c.s.inst r.operand_type) c
  ]

  unfoldable pub isa_exec_once : Cpu bus.State → Option (Cpu bus.State)
  isa_exec_once = fetch_and_run bus exec_inst

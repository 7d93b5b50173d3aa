-- ===== src/Riscv/Instr.antt =====
-- src/isa/riscv32/inst.c: the rows of `INSTPAT` in `decode_exec`, in their order, and the choice of
-- the first row that fits.
use Prim.Native.Char.{code}
use Prim.Native.String.{String}
use gs_emu.Base.{ℕ, true, false, Option, none, some, List, [], ◌∷◌}
use gs_emu.Decode.Pattern.{pattern_decode, instpat_test}
use gs_emu.Riscv.Operand.{OperandType}

-- The names of the instructions; `inv` stands in two rows.
pub data Instr : Type 0 where
  lui auipc jal jalr beq bne blt bge bltu bgeu lb lh lw lbu lhu sb sh sw addi slti sltiu : Instr
  xori ori andi slli srli srai add sub sll slt sltu xor srl sra or and ecall ebreak mul : Instr
  mulh mulhsu mulhu div divu rem remu lr_w sc_w amoswap_w amoadd_w amoxor_w amoand_d : Instr
  amoor_w amomin_w amomax_w amominu_w amomaxu_w csrrw csrrc csrrs csrrwi csrrci csrrsi : Instr
  sret mret wfi fence fence_i sfence_vma inv : Instr

pub record Row : Type 0 where
  pub pattern : List ℕ
  pub name : Instr
  pub operand_type : OperandType

abbrev pub codes : String → List ℕ
codes String.[] = []
codes (String.◌∷◌ c s) = code c ∷ codes s

abbrev pub instpat : String → Instr → OperandType → Row
instpat p n t = record { pattern = codes p; name = n; operand_type = t }

-- Zifencei and the rows for all else.
abbrev pub rows_rest : List Row
rows_rest =
    instpat "0000??? ????? 00000 000 00000 00011 11" Instr.fence OperandType.type_n
    ∷ instpat "0000000 00000 00000 001 00000 00011 11" Instr.fence_i OperandType.type_n
    ∷ instpat "0001001 ????? ????? 000 00000 11100 11" Instr.sfence_vma OperandType.type_n
    ∷ instpat "0000000 00000 00000 000 00000 00000 00" Instr.inv OperandType.type_n
    ∷ instpat "??????? ????? ????? ??? ????? ????? ??" Instr.inv OperandType.type_n
    ∷ []

-- Zicsr and the privileged instructions.
abbrev pub rows_csr : List Row
rows_csr =
    instpat "??????? ????? ????? 001 ????? 11100 11" Instr.csrrw OperandType.type_csr_i
    ∷ instpat "??????? ????? ????? 011 ????? 11100 11" Instr.csrrc OperandType.type_csr_i
    ∷ instpat "??????? ????? ????? 010 ????? 11100 11" Instr.csrrs OperandType.type_csr_i
    ∷ instpat "??????? ????? ????? 101 ????? 11100 11" Instr.csrrwi OperandType.type_csr_ii
    ∷ instpat "??????? ????? ????? 111 ????? 11100 11" Instr.csrrci OperandType.type_csr_ii
    ∷ instpat "??????? ????? ????? 110 ????? 11100 11" Instr.csrrsi OperandType.type_csr_ii
    ∷ instpat "0001000 00010 00000 000 00000 11100 11" Instr.sret OperandType.type_n
    ∷ instpat "0011000 00010 00000 000 00000 11100 11" Instr.mret OperandType.type_r
    ∷ instpat "0001000 00101 00000 000 00000 11100 11" Instr.wfi OperandType.type_n
    ∷ rows_rest

-- RV32A.
abbrev pub rows_a : List Row
rows_a =
    instpat "00010 00 00000 ????? 010 ????? 01011 11" Instr.lr_w OperandType.type_r
    ∷ instpat "00011 ?? ????? ????? 010 ????? 01011 11" Instr.sc_w OperandType.type_r
    ∷ instpat "00001 ?? ????? ????? 010 ????? 01011 11" Instr.amoswap_w OperandType.type_r
    ∷ instpat "00000 ?? ????? ????? 010 ????? 01011 11" Instr.amoadd_w OperandType.type_r
    ∷ instpat "00100 ?? ????? ????? 010 ????? 01011 11" Instr.amoxor_w OperandType.type_r
    ∷ instpat "01100 ?? ????? ????? 010 ????? 01011 11" Instr.amoand_d OperandType.type_r
    ∷ instpat "01000 ?? ????? ????? 010 ????? 01011 11" Instr.amoor_w OperandType.type_r
    ∷ instpat "10000 ?? ????? ????? 010 ????? 01011 11" Instr.amomin_w OperandType.type_r
    ∷ instpat "10100 ?? ????? ????? 010 ????? 01011 11" Instr.amomax_w OperandType.type_r
    ∷ instpat "11000 ?? ????? ????? 010 ????? 01011 11" Instr.amominu_w OperandType.type_r
    ∷ instpat "11100 ?? ????? ????? 010 ????? 01011 11" Instr.amomaxu_w OperandType.type_r
    ∷ rows_csr

-- RV32M.
abbrev pub rows_m : List Row
rows_m =
    instpat "0000001 ????? ????? 000 ????? 01100 11" Instr.mul OperandType.type_r
    ∷ instpat "0000001 ????? ????? 001 ????? 01100 11" Instr.mulh OperandType.type_r
    ∷ instpat "0000001 ????? ????? 010 ????? 01100 11" Instr.mulhsu OperandType.type_r
    ∷ instpat "0000001 ????? ????? 011 ????? 01100 11" Instr.mulhu OperandType.type_r
    ∷ instpat "0000001 ????? ????? 100 ????? 01100 11" Instr.div OperandType.type_r
    ∷ instpat "0000001 ????? ????? 101 ????? 01100 11" Instr.divu OperandType.type_r
    ∷ instpat "0000001 ????? ????? 110 ????? 01100 11" Instr.rem OperandType.type_r
    ∷ instpat "0000001 ????? ????? 111 ????? 01100 11" Instr.remu OperandType.type_r
    ∷ rows_a

-- The register forms, `ecall` and `ebreak`.
abbrev pub rows_register : List Row
rows_register =
    instpat "0000000 ????? ????? 000 ????? 01100 11" Instr.add OperandType.type_r
    ∷ instpat "0100000 ????? ????? 000 ????? 01100 11" Instr.sub OperandType.type_r
    ∷ instpat "0000000 ????? ????? 001 ????? 01100 11" Instr.sll OperandType.type_r
    ∷ instpat "0000000 ????? ????? 010 ????? 01100 11" Instr.slt OperandType.type_r
    ∷ instpat "0000000 ????? ????? 011 ????? 01100 11" Instr.sltu OperandType.type_r
    ∷ instpat "0000000 ????? ????? 100 ????? 01100 11" Instr.xor OperandType.type_r
    ∷ instpat "0000000 ????? ????? 101 ????? 01100 11" Instr.srl OperandType.type_r
    ∷ instpat "0100000 ????? ????? 101 ????? 01100 11" Instr.sra OperandType.type_r
    ∷ instpat "0000000 ????? ????? 110 ????? 01100 11" Instr.or OperandType.type_r
    ∷ instpat "0000000 ????? ????? 111 ????? 01100 11" Instr.and OperandType.type_r
    ∷ instpat "0000000 00000 00000 000 00000 11100 11" Instr.ecall OperandType.type_n
    ∷ instpat "0000000 00001 00000 000 00000 11100 11" Instr.ebreak OperandType.type_n
    ∷ rows_m

-- RV32I up to the register forms.
abbrev pub rows_base : List Row
rows_base =
    instpat "??????? ????? ????? ??? ????? 01101 11" Instr.lui OperandType.type_u
    ∷ instpat "??????? ????? ????? ??? ????? 00101 11" Instr.auipc OperandType.type_u
    ∷ instpat "??????? ????? ????? ??? ????? 11011 11" Instr.jal OperandType.type_j
    ∷ instpat "??????? ????? ????? 000 ????? 11001 11" Instr.jalr OperandType.type_i
    ∷ instpat "??????? ????? ????? 000 ????? 11000 11" Instr.beq OperandType.type_b
    ∷ instpat "??????? ????? ????? 001 ????? 11000 11" Instr.bne OperandType.type_b
    ∷ instpat "??????? ????? ????? 100 ????? 11000 11" Instr.blt OperandType.type_b
    ∷ instpat "??????? ????? ????? 101 ????? 11000 11" Instr.bge OperandType.type_b
    ∷ instpat "??????? ????? ????? 110 ????? 11000 11" Instr.bltu OperandType.type_b
    ∷ instpat "??????? ????? ????? 111 ????? 11000 11" Instr.bgeu OperandType.type_b
    ∷ instpat "??????? ????? ????? 000 ????? 00000 11" Instr.lb OperandType.type_i
    ∷ instpat "??????? ????? ????? 001 ????? 00000 11" Instr.lh OperandType.type_i
    ∷ instpat "??????? ????? ????? 010 ????? 00000 11" Instr.lw OperandType.type_i
    ∷ instpat "??????? ????? ????? 100 ????? 00000 11" Instr.lbu OperandType.type_i
    ∷ instpat "??????? ????? ????? 101 ????? 00000 11" Instr.lhu OperandType.type_i
    ∷ instpat "??????? ????? ????? 000 ????? 01000 11" Instr.sb OperandType.type_s
    ∷ instpat "??????? ????? ????? 001 ????? 01000 11" Instr.sh OperandType.type_s
    ∷ instpat "??????? ????? ????? 010 ????? 01000 11" Instr.sw OperandType.type_s
    ∷ instpat "??????? ????? ????? 000 ????? 00100 11" Instr.addi OperandType.type_i
    ∷ instpat "??????? ????? ????? 010 ????? 00100 11" Instr.slti OperandType.type_i
    ∷ instpat "??????? ????? ????? 011 ????? 00100 11" Instr.sltiu OperandType.type_i
    ∷ instpat "??????? ????? ????? 100 ????? 00100 11" Instr.xori OperandType.type_i
    ∷ instpat "??????? ????? ????? 110 ????? 00100 11" Instr.ori OperandType.type_i
    ∷ instpat "??????? ????? ????? 111 ????? 00100 11" Instr.andi OperandType.type_i
    ∷ instpat "000000? ????? ????? 001 ????? 00100 11" Instr.slli OperandType.type_i
    ∷ instpat "0000000 ????? ????? 101 ????? 00100 11" Instr.srli OperandType.type_i
    ∷ instpat "0100000 ????? ????? 101 ????? 00100 11" Instr.srai OperandType.type_i
    ∷ rows_register

-- The rows in order.
abbrev pub instpats : List Row
instpats = rows_base

-- `goto *(__instpat_end)` after the first row that fits. `none`: a pattern that is refused, or no row.
unfoldable pub select : List Row → ℕ → Option Row
select [] inst = none
select (r ∷ rs) inst = elim (pattern_decode r.pattern) [
  | none ↦ none
  | some p ↦ elim (instpat_test p inst) [ true ↦ some r | false ↦ select rs inst ]
]

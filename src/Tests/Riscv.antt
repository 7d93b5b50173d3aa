-- ===== src/Tests/Riscv.antt =====
-- The theorems on the processor at a concrete machine.
use gs_emu.Base.{
  ◌+◌, ◌-◌, ◌==◌, if◌then◌else◌, get_elem?, ◌^◌, ◌<◌, ◌≡◌, ◌<◌, refl, true, none, some, arith, List,
  [], ◌∷◌,
}
use gs_emu.Riscv.Csr.{check_csr_idx, search_csr, csr_mstatus, csr_idx_map}
use gs_emu.Riscv.Machine.{Machine, ◌>>◌}
use gs_emu.Riscv.Operand.{imm_b, imm_j, imm_s}
use gs_emu.Riscv.Instr.{select, instpats}
use gs_emu.Riscv.Exec.{exec_mret}
use gs_emu.Riscv.Trap.{illegal_instruction}
use gs_emu.Riscv.Interrupt.{enter_interrupt, find_irq_type_val}
use gs_emu.Riscv.Keeps.{Returns}
use gs_emu.Riscv.Status.{with_status, mie_of, mpie_of, mpp_of}
use gs_emu.Riscv.TrapLaws.{
  csr_of, Trapped, Interrupted, Resumed, illegal_instruction-Trapped, enter_interrupt-Interrupted,
  Returned, exec_mret-Returned, trap-mret, interrupt-mret,
}
use gs_emu.Riscv.InterruptLaws.{find_irq_type_val-highest_odd}
use gs_emu.Riscv.SelectLaws.{first_fit, select-first_fit}
use gs_emu.Riscv.ImmediateLaws.{encode_b, encode_j, encode_s, immediates-encode}
use gs_emu.Riscv.CsrLaws.{check_csr_idx-csr_idx_map}
use gs_emu.Riscv.Amw.{Node, insert_node, delete_node, search_node}
use gs_emu.Riscv.AmwLaws.{count, Found, reserved_words_count}
use gs_emu.Word.{u32, sext}
use gs_emu.Riscv.Names.{isa_reg_str2val}
use gs_emu.Riscv.NamesLaws.{reg_name, isa_reg_str2val-reg_name}
use gs_emu.Tests.Fixture.{only_left, bus, start}

-- MIE is set and the mode is S.
abbrev user : Machine bus.State
user = record start { cur_pri = 1; csr = λ i. if i == 2 then 0x88 else 0; exception = 8 }

small : csr_of user csr_mstatus < 2 ^ 32
unfolding check_csr_idx search_csr
small = omega arith

trapped : csr_of user csr_mstatus ≡ 0x88
unfolding check_csr_idx search_csr
trapped = refl

illegal_instruction-Trapped_example :
    Returns
      (Trapped user (with_status (csr_of user csr_mstatus) 1 (mie_of (csr_of user csr_mstatus)) 0))
      (illegal_instruction user)
illegal_instruction-Trapped_example = illegal_instruction-Trapped user (omega arith) small

enter_interrupt-Interrupted_example :
    Returns
      (Interrupted user 7
        (with_status (csr_of user csr_mstatus) 1 (mie_of (csr_of user csr_mstatus)) 0))
      (enter_interrupt 7 user)
enter_interrupt-Interrupted_example = enter_interrupt-Interrupted user 7 (omega arith) small

trap-mret_example : Returns (Resumed user) ((illegal_instruction >> exec_mret) user)
trap-mret_example = trap-mret user (omega arith) small

interrupt-mret_example : Returns (Resumed user) ((enter_interrupt 7 >> exec_mret) user)
interrupt-mret_example = interrupt-mret user 7 (omega arith) small

find_irq_type_val-highest_odd_example : find_irq_type_val 0x8a0 ≡ some 11
find_irq_type_val-highest_odd_example = find_irq_type_val-highest_odd 0x8a0

-- mul x2, x1, x1 and a branch back by 4 bytes.
select-first_fit_example : select instpats 0x0210_8133 ≡ first_fit instpats 0x0210_8133
select-first_fit_example = select-first_fit 0x0210_8133

-- mstatus.
check_csr_idx-csr_idx_map_example :
    (check_csr_idx 0x300 < 38) × (get_elem? csr_idx_map (check_csr_idx 0x300) ≡ some 0x300)
unfolding check_csr_idx search_csr
check_csr_idx-csr_idx_map_example =
    only_left (check_csr_idx-csr_idx_map 0x300 (λ e. omega arith)) (λ missing. omega arith)

-- Two reservations of the same word and one of another.
abbrev reserved_words : List Node
reserved_words =
    record { mem_word = 8; reserved = true }
    ∷ record { mem_word = 8; reserved = true }
    ∷ record { mem_word = 4; reserved = true }
    ∷ []

exec_mret-Returned_example :
    Returns
      (Returned user
        (with_status (csr_of user csr_mstatus) 0 1 (mpie_of (csr_of user csr_mstatus)))
        (mpp_of (csr_of user csr_mstatus)))
      (exec_mret user)
exec_mret-Returned_example = exec_mret-Returned user small

-- "t6", the last name, is not found.
isa_reg_str2val-reg_name_example : isa_reg_str2val start (reg_name 31) ≡ none
isa_reg_str2val-reg_name_example = isa_reg_str2val-reg_name start 31 (omega arith)

immediates-encode_example :
    (imm_b (encode_b 0x1ffc 0x63) ≡ u32 (sext 0x1ffc 13))
    × (imm_j (encode_j 0x1f_fffe 0x63) ≡ u32 (sext 0x1f_fffe 21))
    × (imm_s (encode_s 0xfff 0x63) ≡ u32 (sext 0xfff 12))
immediates-encode_example =
    immediates-encode 0x1ffc 0x1f_fffe 0xfff 0x63 (omega arith) refl (omega arith) refl
      (omega arith)

reserved_words_count_example :
    (count (insert_node reserved_words 8 true) 8 ≡ count reserved_words 8 + 1)
    × (count (delete_node reserved_words 8) 8 ≡ count reserved_words 8 - 1)
    × Found (search_node reserved_words 8) 8 (count reserved_words 8)
reserved_words_count_example = reserved_words_count reserved_words 8 8 true

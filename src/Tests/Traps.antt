-- ===== src/Tests/Traps.antt =====
-- The theorems on exceptions, the immediate CSR rows, the reset and the division, at a concrete machine.
use gs_emu.Base.{false, inl, true, ◌≡◌, ◌+◌, ◌*◌, refl, if◌then◌else◌, ◌==◌, arith}
use gs_emu.Riscv.Operand.{decode_operand, type_csr_ii}
use gs_emu.Riscv.Instr.{csrrwi}
use gs_emu.Riscv.CsrLaws.{decode_operand-upper_csr}
use gs_emu.Riscv.Csr.{check_csr_idx, search_csr, csr_medeleg}
use gs_emu.Riscv.Machine.{Machine, ◌>>=◌, ◌>>◌, trap_peek_exception, excp_illegal_inst}
use gs_emu.Riscv.Exec.{exec_sret, exec_system}
use gs_emu.Riscv.Trap.{take_exception, is_delegated}
use gs_emu.Riscv.Keeps.{Returns}
use gs_emu.Riscv.TrapLaws.{csr_of}
use gs_emu.Riscv.DelegateLaws.{Handed, IntoSupervisor, take_exception-Handed}
use gs_emu.Riscv.SupervisorLaws.{ResumedBySret, take_exception-sret}
use gs_emu.Word.{u32}
use gs_emu.Riscv.Exec.{div_rd, divu_rd, rem_rd, remu_rd}
use gs_emu.Riscv.DivideLaws.{division-remainder}
use gs_emu.Tests.Fixture.{bus, start, only_left}

-- An `ecall` in the mode U, handed to S by the digit 8 of medeleg.
abbrev delegating : Machine bus.State
delegating = record start { cur_pri = 0; exception = 8; csr = λ i. if i == 24 then 0x100 else 0 }

delegates : is_delegated delegating (csr_of delegating csr_medeleg) ≡ true
unfolding is_delegated check_csr_idx search_csr
delegates = refl

take_exception-Handed_example :
    Handed delegating × Returns (IntoSupervisor delegating) (take_exception delegating)
unfolding check_csr_idx search_csr
take_exception-Handed_example =
    only_left
      (take_exception-Handed delegating (omega arith) (omega arith) (omega arith)
        (λ e. omega arith))
      (λ kept. kept.0 (omega arith, refl))

-- csrrwi x1, mhartid, 0.
decode_operand-upper_csr_example :
    (decode_operand 0xf140_50f3 type_csr_ii >>= exec_system bus false csrrwi) start
    ≡ trap_peek_exception excp_illegal_inst start.s.inst start
decode_operand-upper_csr_example =
    decode_operand-upper_csr bus false csrrwi 0xf140_50f3 start (inl refl) (omega arith)

take_exception-sret_example :
    Returns (ResumedBySret delegating) ((take_exception >> exec_sret) delegating)
unfolding check_csr_idx search_csr
take_exception-sret_example =
    take_exception-sret delegating (omega arith) (omega arith) (λ e. omega arith) delegates

-- -7 / 2.
division-remainder_example :
    (u32 (div_rd 0xffff_fff9 2 * 2 + rem_rd 0xffff_fff9 2) ≡ 0xffff_fff9)
    × (u32 (divu_rd 0xffff_fff9 2 * 2 + remu_rd 0xffff_fff9 2) ≡ 0xffff_fff9)
division-remainder_example = division-remainder 0xffff_fff9 2 (omega arith) (omega arith)

-- ===== src/Tests/Isa.antt =====
-- An instruction of mips32 and one of loongarch32r at a concrete state.
use gs_emu.Base.{◌≡◌, refl, subst, some, [], ◌∷◌, get_or, arith}
use gs_emu.Decode.Pattern.{pattern_decode, pattern_loop, instpat_test}
use gs_emu.Memory.Host.{load, host_read}
use gs_emu.Memory.IoMap.{in_pmem}
use gs_emu.Memory.Physical.{Memory, guest_to_host, paddr_read}
use gs_emu.Memory.PhysicalLaws.{memory_bus}
use gs_emu.Riscv.Machine.{RunState}
use gs_emu.Isa.Core.{Cpu, select}
use gs_emu.Isa.Mips32
use gs_emu.Isa.Loongarch32r
use gs_emu.Isa.Returns.{
  RunsOn, Mips32Needs, Loongarch32rNeeds, Mips32Served, Loongarch32rServed, isa_exec_once-RunsOn,
}

-- `lw v0, 4(a0)` of mips32; no row of loongarch32r but the last fits the word.
abbrev at_reset : Cpu (Memory (Unit {0}))
at_reset = record {
  gpr = λ i. 0x8000_0100;
  pc = 0x8000_0000;
  nemu_state = record { state = RunState.running; halt_pc = 0; halt_ret = 0 };
  s = record { pc = 0x8000_0000; snpc = 0x8000_0000; dnpc = 0; inst = 0 };
  bus = record {
    pmem = λ a. get_or (0x04 ∷ 0x00 ∷ 0x82 ∷ 0x8c ∷ []) a 0;
    maps = [];
    io = (λ a. 0, tt);
  };
}

fetches : paddr_read 0x8000_0000 4 at_reset.bus ≡ some (0x8c82_0004, at_reset.bus)
unfolding paddr_read in_pmem guest_to_host host_read load
fetches = refl

some_row : {A : Type 0} {r t : A} (P : A → Type 0) → some r ≡ some t → P r → P t
some_row {r = r} {t = t} P e p = let same : r ≡ t = cc in subst P same p

serves_mips32 : Mips32Served at_reset 0x8c82_0004 at_reset.bus fetches
unfolding select pattern_decode pattern_loop instpat_test Mips32.decode_operand Mips32.imm_i
serves_mips32 = λ r h.
    some_row
      (λ t.
        Mips32Needs at_reset.s.pc t.name
          (Mips32.decode_operand at_reset.gpr 0x8c82_0004 t.operand_type))
      h (omega arith, omega arith)

serves_loongarch32r : Loongarch32rServed at_reset 0x8c82_0004 at_reset.bus fetches
unfolding select pattern_decode pattern_loop instpat_test Loongarch32r.decode_operand
serves_loongarch32r = λ r h.
    some_row
      (λ t.
        Loongarch32rNeeds at_reset.s.pc t.name
          (Loongarch32r.decode_operand at_reset.gpr 0x8c82_0004 t.operand_type))
      h ((omega arith, omega arith), (omega arith, omega arith))

isa_exec_once-RunsOn_example :
    RunsOn (Mips32.isa_exec_once (memory_bus (Unit {0}))) at_reset
    × RunsOn (Loongarch32r.isa_exec_once (memory_bus (Unit {0}))) at_reset
isa_exec_once-RunsOn_example =
    isa_exec_once-RunsOn at_reset 0x8c82_0004 at_reset.bus fetches serves_mips32 serves_loongarch32r

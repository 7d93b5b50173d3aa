-- ===== src/Tests/Fixture.antt =====
-- A machine at the reset address with a short program in its memory.
use gs_emu.Base.{◌⊎◌, inl, inr, false, none, [], ◌∷◌, get_or}
use gs_emu.Bus.{Bus}
use gs_emu.Memory.Host.{Bytes}
use gs_emu.Memory.IoMap.{IoMap}
use gs_emu.Memory.Physical.{Memory}
use gs_emu.Memory.PhysicalLaws.{memory_bus}
use gs_emu.Riscv.Machine.{Machine, Cmd, skip, excp_none, running}
use gs_emu.Cpu.Run.{Emulator}

abbrev pub Dev : Type 0
Dev = Unit

-- addi x1, x0, 5; mul x2, x1, x1; ebreak.
abbrev pub program : Bytes
program a =
    get_or (0x93 ∷ 0x00 ∷ 0x50 ∷ 0x00 ∷ 0x33 ∷ 0x81 ∷ 0x10 ∷ 0x02 ∷ 0x73 ∷ 0x00 ∷ 0x10 ∷ 0x00 ∷ [])
      a 0

abbrev pub clint : IoMap Dev
clint = record { low = 0x1100_0000; high = 0x1100_ffff; space = 0; callback = none }

abbrev pub memory : Memory Dev
memory = record { pmem = program; maps = clint ∷ []; io = (λ a. 0, tt) }

abbrev pub bus : Bus
bus = memory_bus Dev

abbrev pub start : Machine bus.State
start = record {
  gpr = λ i. 0;
  csr = λ i. 0;
  amw = [];
  pc = 0x8000_0000;
  cur_pri = 3;
  exception = excp_none;
  exception_tval = 0;
  nemu_state = record { state = running; halt_pc = 0; halt_ret = 0 };
  s = record { pc = 0x8000_0000; snpc = 0x8000_0000; dnpc = 0; inst = 0 };
  bus = memory;
}

abbrev pub emulator : Emulator bus.State
emulator = record { cpu = start; g_nr_guest_inst = 0; g_timer = 0; g_print_step = false }

abbrev pub quiet : Cmd bus.State (Unit {0})
quiet = skip

-- The other side of a sum is excluded.
pub only_left : {A B : Type 0} → A ⊎ B → (B → ⊥) → A
only_left (inl a) k = a
only_left (inr b) k = absurd (k b)

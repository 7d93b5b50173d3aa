-- ===== src/Isa/Start.antt =====
-- src/isa/mips32/init.c and src/isa/loongarch32r/init.c, and the loop of src/cpu/cpu-exec.c around
-- their instructions, without devices.
use gs_emu.Base.{ℕ, zero, suc, Option, none, some, List, [], ◌∷◌, true, false}
use gs_emu.Memory.Physical.{Memory, guest_to_host}
use gs_emu.Riscv.Machine.{running}
use gs_emu.Riscv.Init.{reset_vector}
use gs_emu.Cpu.Run.{is_running}
use gs_emu.Monitor.Load.{put_words}
use gs_emu.Isa.Core.{Cpu, restart}

-- The two arrays `img`.
abbrev pub mips32_img : List ℕ
mips32_img = 0x3c04_8000 ∷ 0xac80_0000 ∷ 0x8c82_0000 ∷ 0x7000_003f ∷ []

abbrev pub loongarch32r_img : List ℕ
loongarch32r_img = 0x1c00_000c ∷ 0x2980_4180 ∷ 0x2880_4184 ∷ 0x002a_0000 ∷ 0xdead_beef ∷ []

module _ {D : Type 0} where
  unfoldable pub init_isa : List ℕ → Cpu (Memory D) → Cpu (Memory D)
  init_isa img c = restart reset_vector (record c {
    bus = record (c.bus) { pmem = put_words c.bus.pmem (guest_to_host reset_vector) img };
  })

module _ {B : Type 0} (isa_exec_once : Cpu B → Option (Cpu B)) where
  unfoldable pub exec_once : Cpu B → Option (Cpu B)
  exec_once c = elim (isa_exec_once (record c { s = record (c.s) { pc = c.pc; snpc = c.pc } })) [
    | none ↦ none
    | some d ↦ some (record d { pc = d.s.dnpc })
  ]

  -- The loop, and the state RUNNING that `cpu_exec` sets before it.
  unfoldable pub execute : ℕ → Cpu B → Option (Cpu B)
  execute zero c = some c
  execute (suc n) c = elim (exec_once c) [
    | none ↦ none
    | some d ↦ elim (is_running d.nemu_state.state) [ false ↦ some d | true ↦ execute n d ]
  ]

  unfoldable pub start_run : ℕ → Cpu B → Option (Cpu B)
  start_run n c = execute n (record c { nemu_state = record (c.nemu_state) { state = running } })

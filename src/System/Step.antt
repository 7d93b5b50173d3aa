-- ===== src/System/Step.antt =====
-- The parts of the emulator together: src/cpu/cpu-exec.c over src/memory and src/device, with
-- `device_update` of src/device/device.c on the state that they share, and what comes from outside.
use gs_emu.Base.{ℕ, ◌≡◌, Bool, none, some, List}
use gs_emu.Bus.{Bus}
use gs_emu.Memory.Physical.{Memory}
use gs_emu.Memory.PhysicalLaws.{memory_bus}
use gs_emu.Riscv.Machine.{Machine, Cmd, RunState, vaddr_read}
use gs_emu.Cpu.Run.{exec_once, set_state}
use gs_emu.Device.SdCard.{File}
use gs_emu.Device.Serial.{Terminal}
use gs_emu.Device.Clock.{Event, Update, device_update}
use gs_emu.Device.Setup.{Devices, D}

module _ (file : File) where
  abbrev pub system_bus : Bus
  system_bus = memory_bus (D file)

  abbrev pub System : Type 0
  System = Machine (Memory (D file))

  abbrev pub with_devices : System → Devices file.F → System
  with_devices m d = record m { bus = record (m.bus) { io = (m.bus.io.0, d) } }

  -- What `device_update` reads of the state, and what it leaves in it.
  abbrev pub to_update : System → Update
  to_update m = record {
    last = m.bus.io.1.last;
    frame_count = m.bus.io.1.frame_count;
    space = m.bus.io.0;
    keys = m.bus.io.1.keys;
    state = m.nemu_state.state;
  }

  abbrev pub from_update : Update → System → System
  from_update u m = record m {
    nemu_state = record (m.nemu_state) { state = u.state };
    bus = record (m.bus) {
      io = (
        u.space,
        record (m.bus.io.1) { last = u.last; frame_count = u.frame_count; keys = u.keys },
      );
    };
  }

  module _ (keymap : ℕ → ℕ) (clint_base : ℕ) where
    -- `device_update` at a time and with the events that wait.
    unfoldable pub update_devices : ℕ → List Event → Cmd (Memory (D file)) (Unit {0})
    update_devices now events m = elim (device_update keymap clint_base now events (to_update m)) [
      | none ↦ none
      | some u ↦ some (tt, from_update u m)
    ]

    -- One step of the emulator: an instruction; an update of the devices; time that passes; bytes that
    -- come to the terminal or leave it; the debugger, which reads memory, and starts, stops and quits
    -- the run.
    pub data Step (mem_all_access : Bool) (m t : System) : Type 0 where
      instruction : exec_once system_bus mem_all_access m ≡ some (tt, t) → Step mem_all_access m t
      update :
          (now : ℕ) (events : List Event)
          → update_devices now events m ≡ some (tt, t)
          → Step mem_all_access m t
      time :
          (us : ℕ) → t ≡ with_devices m (record (m.bus.io.1) { us = us }) → Step mem_all_access m t
      terminal :
          (term : Terminal)
          → t ≡ with_devices m (record (m.bus.io.1) { terminal = term })
          → Step mem_all_access m t
      reading :
          (addr len v : ℕ)
          → vaddr_read system_bus mem_all_access addr len m ≡ some (v, t)
          → Step mem_all_access m t
      control : (st : RunState) → t ≡ set_state m st → Step mem_all_access m t

    -- What is reached in any number of steps, in any order.
    pub data Reach (mem_all_access : Bool) (m : System) : System → Type 0 where
      here : Reach mem_all_access m m
      later :
          {t u : System}
          → Reach mem_all_access m t
          → Step mem_all_access t u
          → Reach mem_all_access m u

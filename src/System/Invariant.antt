-- ===== src/System/Invariant.antt =====
-- What holds in every state that the emulator reaches.
use gs_emu.Base.{ℕ, ◌≡◌, sym, subst, ap, ◌∙◌, Bool, some, List, Option-cases, inl, inr, arith}
use gs_emu.Bus.{Bus}
use gs_emu.Memory.IoMap.{IoMap}
use gs_emu.Memory.Physical.{Memory}
use gs_emu.Memory.RegionLaws.{RegionsKeep, paddr_read-keeps, paddr_write-keeps}
use gs_emu.Riscv.Machine.{Machine, ◌>>=◌, NemuState, vaddr_read}
use gs_emu.Riscv.Interrupt.{isa_exec_once}
use gs_emu.Riscv.Words.{IsWords, isa_exec_once-IsWords}
use gs_emu.Riscv.Zero.{IsZero, isa_exec_once-IsZero}
use gs_emu.Riscv.OnBus.{BusKeeps, isa_exec_once-keeps_bus}
use gs_emu.Cpu.Run.{exec_once}
use gs_emu.Device.SdCard.{File}
use gs_emu.Device.Clock.{Event, device_update}
use gs_emu.Device.Setup.{D}
use gs_emu.Device.SetupLaws.{some_inj}
use gs_emu.Device.CallbackLaws.{IsInRange}
use gs_emu.System.Step.{
  System, system_bus, to_update, update_devices, Step, Reach, instruction, update, time, terminal,
  reading, control, here, later,
}
use gs_emu.System.UpdateLaws.{device_update-keeps}

-- The registers are words, register 0 is 0, the table of regions is the one that the devices set up,
-- and the devices are in range.
pub record IsSound (file : File) (maps : List (IoMap (D file))) (m : System file) : Type 0 where
  pub words : IsWords m
  pub zero_register : IsZero m
  pub table : m.bus.maps ≡ maps
  pub in_range : IsInRange m.bus.io.1

-- `exec_once` around the instruction.
module _ (bus : Bus) (mem_all_access : Bool) where
  abbrev pub started : Machine bus.State → Machine bus.State
  started m = record m { s = record (m.s) { pc = m.pc; snpc = m.pc } }

  pub exec_once-parts :
      (m t : Machine bus.State)
      → exec_once bus mem_all_access m ≡ some (tt, t)
      → (u : Machine bus.State) × (isa_exec_once bus mem_all_access (started m) ≡ some (tt, u))
        × (t ≡ record u { pc = u.s.dnpc })
  unfolding exec_once ◌>>=◌
  exec_once-parts m t e = elim (Option-cases (isa_exec_once bus mem_all_access (started m))) [
    | inl bad ↦ ground (arith, bad)
    | inr ((w, u), good) ↦
        let same = some_inj (rw (exec_once, ◌>>=◌, good) at e) in
        (u, good, sym (ap (λ x. x.1) same))
  ]

module _ {B : Type 0} where
  with_pc-IsWords : (m : Machine B) → IsWords m → IsWords (record m { pc = m.s.dnpc })
  with_pc-IsWords m h = assumption

  with_s-IsWords :
      (m : Machine B)
      → IsWords m
      → IsWords (record m { s = record (m.s) { pc = m.pc; snpc = m.pc } })
  with_s-IsWords m h = assumption

  with_bus-IsWords :
      (m : Machine B) (n : NemuState) (b : B)
      → IsWords m
      → IsWords (record m { nemu_state = n; bus = b })
  with_bus-IsWords m n b h = assumption

module _ (file : File) (maps : List (IoMap (D file))) (quiet : RegionsKeep IsInRange maps)
    (mem_all_access : Bool) where
  -- The part of the invariant that is the memory's.
  abbrev OfMemory : Memory (D file) → Type 0
  OfMemory m = (m.maps ≡ maps) × IsInRange m.io.1

  bus-keeps : BusKeeps (system_bus file) OfMemory
  bus-keeps = record {
    reads = λ a n v s t h e.
        let q = subst (RegionsKeep IsInRange) (sym h.0) quiet in
        let k = paddr_read-keeps IsInRange a n v s t q h.1 e in (k.0 ∙ h.0, k.1);
    writes = λ a n v s t h e.
        let q = subst (RegionsKeep IsInRange) (sym h.0) quiet in
        let k = paddr_write-keeps IsInRange a n v s t q h.1 e in (k.0 ∙ h.0, k.1);
  }

  exec_once-IsSound :
      (m t : System file)
      → IsSound file maps m
      → exec_once (system_bus file) mem_all_access m ≡ some (tt, t)
      → IsSound file maps t
  exec_once-IsSound m t h e =
      let (u, ran, same) = exec_once-parts (system_bus file) mem_all_access m t e in
      let s = started (system_bus file) mem_all_access m in
      let kept =
        isa_exec_once-keeps_bus (system_bus file) OfMemory bus-keeps mem_all_access s u
          (h.table, h.in_range) ran in
      let words =
        isa_exec_once-IsWords (system_bus file) mem_all_access s u (with_s-IsWords m h.words) ran in
      let zero' = isa_exec_once-IsZero (system_bus file) mem_all_access s u h.zero_register ran in
      subst (IsSound file maps) (sym same) (record {
        words = with_pc-IsWords u words;
        zero_register = zero';
        table = kept.0;
        in_range = kept.1;
      })

  -- A read through the bus, as the debugger reads.
  reading-IsSound :
      (a n v : ℕ) (m t : System file)
      → IsSound file maps m
      → vaddr_read (system_bus file) mem_all_access a n m ≡ some (v, t)
      → IsSound file maps t
  unfolding vaddr_read
  reading-IsSound a n v m t h e = elim (Option-cases ((system_bus file).read a n m.bus)) [
    | inl bad ↦ ground (arith, bad)
    | inr ((w, b), good) ↦
        let same = some_inj (rw (vaddr_read, good) at e) in
        let kept = bus-keeps.reads a n w m.bus b (h.table, h.in_range) good in
        subst (IsSound file maps) (ap (λ x. x.1) same) (record {
          words = with_bus-IsWords m _ _ h.words;
          zero_register = h.zero_register;
          table = kept.0;
          in_range = kept.1;
        })
  ]

  module _ (keymap : ℕ → ℕ) (clint_base : ℕ) where
    update_devices-IsSound :
        (now : ℕ) (es : List Event) (m t : System file)
        → IsSound file maps m
        → update_devices file keymap clint_base now es m ≡ some (tt, t)
        → IsSound file maps t
    unfolding update_devices
    update_devices-IsSound now es m t h e =
        elim (Option-cases (device_update keymap clint_base now es (to_update file m))) [
          | inl bad ↦ ground (arith, bad)
          | inr (v, good) ↦
              let same = some_inj (rw (update_devices, good) at e) in
              let kept =
                device_update-keeps keymap clint_base now es (to_update file m) v h.in_range.queue
                  h.in_range.frames good in
              subst (IsSound file maps) (ap (λ x. x.1) same) (record {
                words = with_bus-IsWords m _ _ h.words;
                zero_register = h.zero_register;
                table = h.table;
                in_range = record { queue = kept.0; frames = kept.1 };
              })
        ]

    pub Step-IsSound :
        (m t : System file)
        → IsSound file maps m
        → Step file keymap clint_base mem_all_access m t
        → IsSound file maps t
    Step-IsSound m t h (instruction e) = exec_once-IsSound m t h e
    Step-IsSound m t h (update now es e) = update_devices-IsSound now es m t h e
    Step-IsSound m t h (time us e) = subst (IsSound file maps) (sym e) (record {
      words = with_bus-IsWords m _ _ h.words;
      zero_register = h.zero_register;
      table = h.table;
      in_range = record { queue = h.in_range.queue; frames = h.in_range.frames };
    })
    Step-IsSound m t h (terminal term e) = subst (IsSound file maps) (sym e) (record {
      words = with_bus-IsWords m _ _ h.words;
      zero_register = h.zero_register;
      table = h.table;
      in_range = record { queue = h.in_range.queue; frames = h.in_range.frames };
    })
    Step-IsSound m t h (reading a n v e) = reading-IsSound a n v m t h e
    Step-IsSound m t h (control st e) = subst (IsSound file maps) (sym e) (record {
      words = with_bus-IsWords m _ _ h.words;
      zero_register = h.zero_register;
      table = h.table;
      in_range = h.in_range;
    })

    pub Reach-IsSound :
        {m t : System file}
        → IsSound file maps m
        → Reach file keymap clint_base mem_all_access m t
        → IsSound file maps t
    Reach-IsSound h here = h
    Reach-IsSound h (later r st) = Step-IsSound _ _ (Reach-IsSound h r) st

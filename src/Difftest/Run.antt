-- ===== src/Difftest/Run.antt =====
-- One round of `execute` (src/cpu/cpu-exec.c) with CONFIG_DIFFTEST: the instruction, and the comparison
-- that `trace_and_difftest` makes. `find_mapid_by_addr` (include/device/map.h) calls
-- `difftest_skip_ref` where it finds a region, and `set_nemu_state` calls it too.
use gs_emu.Base.{
  ℕ, ◌^◌, ◌<◌, ◌≡◌, Bool, true, false, ◌&&◌, ◌||◌, not, Option, none, some, if◌then◌else◌,
  Option-cases, inl, inr, arith,
}
use gs_emu.Bus.{Bus}
use gs_emu.Memory.IoMap.{in_pmem, fetch_map}
use gs_emu.Memory.Physical.{Memory, paddr_read, paddr_write}
use gs_emu.Memory.PhysicalLaws.{memory_bus, paddr_read_lt}
use gs_emu.Riscv.Machine.{Machine}
use gs_emu.Cpu.Run.{exec_once, is_running}
use gs_emu.Difftest.Dut.{RefKind, Reference, Difftest, difftest_skip_ref, difftest_step}

abbrev is_some : {A : Type 0} → Option A → Bool
is_some none = false
is_some (some a) = true

module _ {D : Type 0} where
  -- Whether an access looks for a region and finds one.
  unfoldable pub finds_map : Memory D → ℕ → Bool
  finds_map m addr = not (in_pmem addr) && is_some (fetch_map m.maps addr)

  -- The memory, and whether a region was found since the flag was cleared.
  unfoldable pub noted_read : ℕ → ℕ → Memory D × Bool → Option (ℕ × (Memory D × Bool))
  noted_read addr len s = elim (paddr_read addr len s.0) [
    | none ↦ none
    | some (v, t) ↦ some (v, (t, s.1 || finds_map s.0 addr))
  ]

  unfoldable pub noted_write : ℕ → ℕ → ℕ → Memory D × Bool → Option (Memory D × Bool)
  noted_write addr len data' s = elim (paddr_write addr len data' s.0) [
    | none ↦ none
    | some t ↦ some (t, s.1 || finds_map s.0 addr)
  ]

  pub noted_read_lt :
      (a n v : ℕ) (s t : Memory D × Bool) → noted_read a n s ≡ some (v, t) → v < 2 ^ 32
  unfolding noted_read
  noted_read_lt a n v s t h = elim (Option-cases (paddr_read a n s.0)) [
    | inl bad ↦ ground (arith, bad)
    | inr ((w, u), good) ↦ let small = paddr_read_lt a n w s.0 u good in ground (arith, good)
  ]

abbrev pub noted_bus : Type 0 → Bus
noted_bus D = record {
  State = Memory D × Bool;
  read = noted_read;
  write = noted_write;
  read_lt = noted_read_lt;
}

abbrev pub with_bus : {A B : Type 0} → Machine A → B → Machine B
with_bus m b = record {
  gpr = m.gpr;
  csr = m.csr;
  amw = m.amw;
  pc = m.pc;
  cur_pri = m.cur_pri;
  exception = m.exception;
  exception_tval = m.exception_tval;
  nemu_state = m.nemu_state;
  s = m.s;
  bus = b;
}

module _ {D R : Type 0} (kind : RefKind) (ref : Reference R) (abs : ℕ → ℕ)
    (mem_all_access : Bool) where
  -- What follows the instruction, which left `m`.
  abbrev compared :
      Option ℕ → Machine (Memory D × Bool) → Difftest (Memory D) R → Option (Difftest (Memory D) R)
  compared answer m d =
      let after = record d { cpu = with_bus m m.bus.0 } in
      difftest_step kind ref abs (memory_bus D) answer m.s.pc m.pc (
        if m.bus.1 || not (is_running m.nemu_state.state)
        then difftest_skip_ref kind after
        else after)

  -- Without the instruction counter and `device_update`, which make no access by an address.
  unfoldable pub exec_checked : Option ℕ → Difftest (Memory D) R → Option (Difftest (Memory D) R)
  exec_checked answer d =
      elim (exec_once (noted_bus D) mem_all_access (with_bus d.cpu (d.cpu.bus, false))) [
        | none ↦ none
        | some (_, m) ↦ compared answer m d
      ]

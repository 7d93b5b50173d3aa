-- ===== src/Difftest/RunLaws.antt =====
-- The comparison in the run loop never compares: every instruction reads the clock interrupts first.
use gs_emu.Base.{
  ℕ, ◌+◌, ◌≡◌, ◌≢◌, refl, Bool, true, false, Option, some, Option-cases, Bool-cases, inl, inr,
  arith,
}
use gs_emu.Memory.IoMap.{in_pmem, fetch_map, map_read, mmio_read}
use gs_emu.Memory.Physical.{Memory, paddr_read, paddr_write}
use gs_emu.Riscv.Machine.{Machine, mr, vaddr_read}
use gs_emu.Riscv.Interrupt.{timer_test, irp_and, inst_fetch, isa_exec_once}
use gs_emu.Riscv.Keeps.{keeps, Makes, makes, Makes-run, Makes-then, Makes-keep, After-some}
use gs_emu.Riscv.Exec.{clint_mmio, mtimehi}
use gs_emu.Riscv.Closed.Primitives.{Closed, ClosedBus, parts}
use gs_emu.Riscv.Closed.Step.{check_interrupts-Keeps, decode_exec-Keeps}
use gs_emu.Riscv.OnBus.{BusKeeps, bus-Closed, bus-ClosedBus}
use gs_emu.Cpu.Run.{exec_once}
use gs_emu.Difftest.Dut.{
  RefKind, minirv32i, qemu, spike, Reference, Difftest, cpu_state, difftest_skip_ref, difftest_step,
}
use gs_emu.Difftest.Run.{finds_map, noted_read, noted_write, noted_bus, with_bus, exec_checked}

difftest_skip_ref-sets :
    {B R : Type 0} (kind : RefKind) (d : Difftest B R)
    → kind ≢ minirv32i
    → difftest_skip_ref kind d ≡ record d { is_skip_ref = true; skip_dut_nr_inst = 0 }
unfolding difftest_skip_ref
difftest_skip_ref-sets qemu d k = refl
difftest_skip_ref-sets spike d k = refl
difftest_skip_ref-sets minirv32i d k = absurd (k refl)

module _ {D : Type 0} where
  abbrev Noted : Memory D × Bool → Type 0
  Noted s = s.1 ≡ true

  -- Outside the array, a read that succeeds has found a region.
  read_finds :
      (a n v : ℕ) (m t : Memory D)
      → in_pmem a ≡ false
      → paddr_read a n m ≡ some (v, t)
      → finds_map m a ≡ true
  unfolding paddr_read mmio_read map_read finds_map
  read_finds a n v m t outside h = elim (Option-cases (fetch_map m.maps a)) [
    | inl bad ↦ ground (arith, bad, outside)
    | inr (r, found) ↦ rw (finds_map, outside, found) refl
  ]

  Noted-keeps : BusKeeps (noted_bus D) Noted
  unfolding noted_read noted_write
  Noted-keeps = record {
    reads = λ a n v s t h e. elim (Option-cases (paddr_read a n s.0)) [
      | inl bad ↦ ground (arith, bad)
      | inr ((w, u), good) ↦ ground (arith, good, h)
    ];
    writes = λ a n v s t h e. elim (Option-cases (paddr_write a n v s.0)) [
      | inl bad ↦ ground (arith, bad)
      | inr (u, good) ↦ ground (arith, good, h)
    ];
  }

  clint_read-Makes :
      (mem_all_access : Bool) (a : ℕ)
      → in_pmem a ≡ false
      → Makes (λ m. Noted m.bus) (vaddr_read (noted_bus D) mem_all_access a 4)
  unfolding vaddr_read noted_read
  clint_read-Makes mem_all_access a outside = makes λ m.
      elim (Option-cases (paddr_read a 4 m.bus.0)) [
        | inl bad ↦ rw (vaddr_read, noted_read, bad) tt
        | inr ((v, t), good) ↦
            let found = read_finds a 4 v m.bus.0 t outside good in
            rw (vaddr_read, noted_read, good) (ground (arith, found))
      ]

  module _ (mem_all_access : Bool) where
    clint-Makes :
        Makes (λ m. Noted m.bus) (mr (noted_bus D) mem_all_access (clint_mmio + mtimehi) 4)
    unfolding mr in_pmem
    clint-Makes = elim (Bool-cases mem_all_access) [
      | inl all ↦ rw (mr, all) (clint_read-Makes true (clint_mmio + mtimehi) refl)
      | inr aligned ↦ rw (mr, aligned) (clint_read-Makes false (clint_mmio + mtimehi) refl)
    ]

    module _ (closed : Closed (λ (m : Machine (Memory D × Bool)). Noted m.bus))
        (closed_bus : ClosedBus (noted_bus D) (λ m. Noted m.bus)) where
      timer_test-Makes : Makes (λ m. Noted m.bus) (timer_test (noted_bus D) mem_all_access)
      unfolding timer_test
      timer_test-Makes = Makes-keep clint-Makes λ hi. search parts depth 12

      irp_and-Makes : Makes (λ m. Noted m.bus) (irp_and (noted_bus D) mem_all_access)
      unfolding irp_and
      irp_and-Makes =
          Makes-keep timer_test-Makes λ timer. search (parts, check_interrupts-Keeps) depth 12

      isa_exec_once-Makes : Makes (λ m. Noted m.bus) (isa_exec_once (noted_bus D) mem_all_access)
      unfolding isa_exec_once
      isa_exec_once-Makes =
          Makes-then (inst_fetch (noted_bus D) mem_all_access)
            λ u. Makes-keep irp_and-Makes λ taken. search (parts, decode_exec-Keeps) depth 8

    exec_once-Makes : Makes (λ m. Noted m.bus) (exec_once (noted_bus D) mem_all_access)
    unfolding exec_once
    exec_once-Makes = Makes-then _ λ u.
        Makes-keep
          (isa_exec_once-Makes (bus-Closed Noted) (bus-ClosedBus (noted_bus D) Noted Noted-keeps))
          λ v. keeps λ m h. h

    -- With Spike or QEMU as the reference and no instruction to be skipped, every instruction
    -- that returns ends with the registers copied to the reference and without a comparison: the
    -- reference executes nothing, and the state of the emulation is the one the instruction
    -- left.
    pub exec_checked-copies :
        {R : Type 0} (kind : RefKind) (ref : Reference R) (abs : ℕ → ℕ) (answer : Option ℕ)
        (d : Difftest (Memory D) R) (m : Machine (Memory D × Bool))
        → kind ≢ minirv32i
        → d.skip_dut_one_inst ≡ false
        → exec_once (noted_bus D) mem_all_access (with_bus d.cpu (d.cpu.bus, false)) ≡ some (tt, m)
        → exec_checked kind ref abs mem_all_access answer d
          ≡ some (record d {
            cpu = with_bus m m.bus.0;
            reference = ref.to_ref (cpu_state m) d.reference;
            is_skip_ref = false;
            skip_dut_nr_inst = 0;
          })
    unfolding exec_checked difftest_step
    exec_checked-copies kind ref abs answer d m k one run =
        let noted : m.bus.1 ≡ true =
          After-some (λ t. Noted t.bus) run
            (Makes-run exec_once-Makes (with_bus d.cpu (d.cpu.bus, false))) in
        let copies = difftest_skip_ref-sets kind (record d { cpu = with_bus m m.bus.0 }) k in
        rw (exec_checked, run, noted, copies, difftest_step, one) refl

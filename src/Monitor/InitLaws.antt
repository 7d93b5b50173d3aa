-- ===== src/Monitor/InitLaws.antt =====
-- The state that `init_monitor` (src/monitor/monitor.c) leaves.
use gs_emu.Base.{
  ℕ, ◌<◌, ◌≡◌, ◌^◌, refl, sym, subst, ap, Option, none, some, List, [], ◌∷◌, Option-cases, inl, inr,
  arith,
}
use gs_emu.Memory.Host.{Bytes}
use gs_emu.Memory.IoMapLaws.{Disjoint}
use gs_emu.Memory.Physical.{Memory, guest_to_host}
use gs_emu.Memory.RegionLaws.{RegionsKeep}
use gs_emu.Riscv.Machine.{Machine, prv_m}
use gs_emu.Riscv.Init.{restart, reset_vector}
use gs_emu.Riscv.InitLaws.{Reset, restart-Reset, restart-IsWords}
use gs_emu.Riscv.Keeps.{Returns}
use gs_emu.Riscv.Words.{IsWords}
use gs_emu.Device.SdCard.{File}
use gs_emu.Device.Setup.{Config, Setup, D, init_map, init_device}
use gs_emu.Device.SetupLaws.{some_inj, init_device-IsSetup}
use gs_emu.Device.CallbackLaws.{IsInRange, init_device-RegionsKeep}
use gs_emu.System.Invariant.{IsSound}
use gs_emu.Monitor.Args.{Opt, Args, scanned, parse_args}
use gs_emu.Monitor.Load.{put_words, img, load_img}
use gs_emu.Monitor.Init.{Host, no_args, fresh_devices, fresh_cpu, init_isa, init_monitor}

-- The start: the invariant of the run, with no address in two regions; the mode M at the reset vector;
-- and the files in memory over the built-in image.
pub record Started (file : File) (host : Host file.F) (a : Args) (m : Machine (Memory (D file)))
    : Type 0 where
  pub sound : IsSound file m.bus.maps m
  pub disjoint : Disjoint m.bus.maps
  pub quiet : RegionsKeep IsInRange m.bus.maps
  pub at_reset : m.pc ≡ reset_vector
  pub mode : m.cur_pri ≡ prv_m
  pub loaded :
      (size : ℕ) × (load_img host.read_file a (put_words host.pmem (guest_to_host reset_vector) img)
        ≡ some (size, m.bus.pmem))

module _ (file : File) where
  pub fresh_cpu-IsWords :
      (mode : ℕ) (b : Memory (D file)) → mode < 2 ^ 32 → IsWords (fresh_cpu mode b)
  fresh_cpu-IsWords mode b l = record {
    gpr_lt = λ i. omega arith;
    csr_lt = λ i. omega arith;
    pc_lt = omega arith;
    cur_pri_lt = l;
    exception_lt = omega arith;
    exception_tval_lt = omega arith;
    s_pc_lt = omega arith;
    snpc_lt = omega arith;
    dnpc_lt = omega arith;
    inst_lt = omega arith;
  }

  with_pmem-IsWords :
      (m : Machine (Memory (D file))) (b : Memory (D file))
      → IsWords m
      → IsWords (record m { bus = b })
  with_pmem-IsWords m b h = assumption

  -- `init_isa` copies the image and resets.
  pub init_isa-Reset :
      (m : Machine (Memory (D file)))
      → IsWords m
      → let p = record m {
        bus = record (m.bus) { pmem = put_words m.bus.pmem (guest_to_host reset_vector) img };
      } in
        (t : Machine (Memory (D file))) × (init_isa file m ≡ some t) × Reset p t × IsWords t
  unfolding init_isa
  init_isa-Reset m h =
      let p = record m {
        bus = record (m.bus) { pmem = put_words m.bus.pmem (guest_to_host reset_vector) img };
      } in
      elim (Option-cases (restart p)) [
        | inl bad ↦ absurd (subst (Returns (Reset p)) bad (restart-Reset p))
        | inr ((u, t), good) ↦ (
          t,
          rw (init_isa, good) refl,
          subst (Returns (Reset p)) good (restart-Reset p),
          restart-IsWords p t (with_pmem-IsWords m _ h) good,
        )
      ]

  fresh-IsInRange : (host : Host file.F) → IsInRange (fresh_devices host)
  fresh-IsInRange host = record {
    queue = record { front = omega arith; rear = omega arith };
    frames = omega arith;
  }

  scanned-lt : (n : Option ℕ) (old : ℕ) → old < 2 ^ 32 → scanned n old < 2 ^ 32
  scanned-lt none old l = l
  scanned-lt (some n) old l = omega arith

  pub parse_args-mode :
      (os : List Opt) (a b : Args)
      → a.cur_pri < 2 ^ 32
      → parse_args os a ≡ some b
      → b.cur_pri < 2 ^ 32
  unfolding parse_args
  parse_args-mode [] a b l e = subst (λ x. x.cur_pri < 2 ^ 32) (some_inj e) l
  parse_args-mode (Opt.batch ∷ os) a b l e = parse_args-mode os _ b l e
  parse_args-mode (Opt.help ∷ os) a b l e = cc
  parse_args-mode (Opt.port n ∷ os) a b l e = parse_args-mode os _ b l e
  parse_args-mode (Opt.mode n ∷ os) a b l e = parse_args-mode os _ b (scanned-lt n a.cur_pri l) e
  parse_args-mode (Opt.log f ∷ os) a b l e = parse_args-mode os _ b l e
  parse_args-mode (Opt.diff f ∷ os) a b l e = parse_args-mode os _ b l e
  parse_args-mode (Opt.bios f ∷ os) a b l e = parse_args-mode os _ b l e
  parse_args-mode (Opt.kernel f ∷ os) a b l e = parse_args-mode os _ b l e
  parse_args-mode (Opt.dtb f ∷ os) a b l e = parse_args-mode os _ b l e
  parse_args-mode (Opt.image f ∷ os) a b l e = subst (λ x. x.cur_pri < 2 ^ 32) (some_inj e) l

  module _ (c : Config) (host : Host file.F) (options : List Opt) where
    abbrev pub before_isa : Args → Setup (D file) → Machine (Memory (D file))
    before_isa a s =
        fresh_cpu a.cur_pri
          (record { pmem = host.pmem; maps = s.maps; io = (s.space, fresh_devices host) })

    -- The start from what `init_isa` and `load_img` leave.
    pub starts :
        (a : Args) (s : Setup (D file)) (t : Machine (Memory (D file))) (size : ℕ) (pmem : Bytes)
        → init_device file c (init_map host.io_space) ≡ some s
        → Reset
            (record (before_isa a s) {
              bus = record ((before_isa a s).bus) {
                pmem = put_words host.pmem (guest_to_host reset_vector) img;
              };
            })
            t
        → IsWords t
        → load_img host.read_file a t.bus.pmem ≡ some (size, pmem)
        → Started file host a (record t { bus = record (t.bus) { pmem = pmem } })
    starts a s t size pmem set_up r w l =
        let (pc, zero', _, mode, _, _, _, bus) = r in
        let maps = ap (λ x. x.maps) bus in
        record {
          sound = record {
            words = with_pmem-IsWords t _ w;
            zero_register = zero';
            table = refl;
            in_range = subst (λ x. IsInRange x.1) (sym (ap (λ x. x.io) bus)) (fresh-IsInRange host);
          };
          disjoint =
              subst Disjoint (sym maps)
                (init_device-IsSetup file c host.io_space s set_up).disjoint;
          quiet =
              subst (RegionsKeep IsInRange) (sym maps)
                (init_device-RegionsKeep file c host.io_space s set_up);
          at_reset = pc;
          mode = mode;
          loaded = (
            size,
            subst (λ x. load_img host.read_file a x ≡ some (size, pmem)) (ap (λ x. x.pmem) bus) l,
          );
        }

    -- A
    pub init_monitor-Started :
        (a : Args) (m : Machine (Memory (D file)))
        → init_monitor file c host options ≡ some (a, m)
        → Started file host a m
    unfolding init_monitor
    init_monitor-Started a m e = elim (Option-cases (parse_args options no_args)) [
      | inl bad ↦ ground (arith, bad)
      | inr (b, parsed) ↦ elim (Option-cases (init_device file c (init_map host.io_space))) [
        | inl bad ↦ ground (arith, parsed, bad)
        | inr (s, set_up) ↦
            let small = parse_args-mode options no_args b (omega arith) parsed in
            let (t, isa, reset, words) =
              init_isa-Reset (before_isa b s) (fresh_cpu-IsWords b.cur_pri _ small) in
            elim (Option-cases (load_img host.read_file b t.bus.pmem)) [
              | inl bad ↦ cc (rw (init_monitor, parsed, set_up, isa, bad) at e)
              | inr ((size, pmem), good) ↦
                  let same = some_inj (rw (init_monitor, parsed, set_up, isa, good) at e) in
                  subst (λ (x : Args × Machine (Memory (D file))). Started file host x.0 x.1) same
                    (starts b s t size pmem set_up reset words good)
            ]
      ]
    ]

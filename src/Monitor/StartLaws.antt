-- ===== src/Monitor/StartLaws.antt =====
-- A start of the emulator with files (src/monitor/monitor.c), and all that the run reaches from there.
use gs_emu.Base.{ℕ, ◌+◌, ◌<◌, ◌≤◌, ◌≡◌, subst, sym, Bool, some, List, refl, length, arith}
use gs_emu.Memory.IoMap.{msize}
use gs_emu.Memory.IoMapLaws.{Disjoint}
use gs_emu.Memory.Physical.{Memory}
use gs_emu.Riscv.Machine.{Machine}
use gs_emu.Device.SdCard.{File}
use gs_emu.Device.Setup.{Config, Setup, D, init_map, init_device}
use gs_emu.System.Step.{System, Reach}
use gs_emu.System.Invariant.{IsSound, Reach-IsSound}
use gs_emu.Monitor.Args.{Opt, Args, parse_args}
use gs_emu.Monitor.Init.{Host, no_args, init_monitor}
use gs_emu.Monitor.LoadLaws.{Gives, At, kernel_place, dtb_place, load_img-places}
use gs_emu.Monitor.InitLaws.{
  Started, before_isa, init_isa-Reset, fresh_cpu-IsWords, parse_args-mode, starts,
  init_monitor-Started,
}

module _ (file : File) (c : Config) (host : Host file.F) (options : List Opt) where
  -- When the options are accepted, the devices can be set up, each file of the command line
  -- opens and is not empty, the image and the bios fit below the kernel, the kernel below the
  -- device tree, the device tree ends within memory, and one of those three is there,
  -- `init_monitor` returns: the program counter is the reset vector and the mode M, whatever
  -- mode was asked for, the image is at the reset vector, the bios behind it, and the kernel and
  -- the device tree at their places, byte for byte, and the state is sound: the registers are
  -- words, register 0 is 0, the devices are in range and no address is in two regions.
  pub init_monitor-starts :
      (a : Args) (s : Setup (D file)) (is bs ks ds : List ℕ)
      → parse_args options no_args ≡ some a
      → init_device file c (init_map host.io_space) ≡ some s
      → Gives host.read_file a.img_file is
      → Gives host.read_file a.bios_file bs
      → Gives host.read_file a.kernel_file ks
      → Gives host.read_file a.dtb_file ds
      → length is + length bs ≤ kernel_place
      → kernel_place + length ks ≤ dtb_place
      → dtb_place + length ds ≤ msize
      → 0 < length is + length bs + length ks
      → (m : Machine (Memory (D file))) × (init_monitor file c host options ≡ some (a, m))
        × Started file host a m
        × At m.bus.pmem 0 is
        × At m.bus.pmem (length is) bs
        × At m.bus.pmem kernel_place ks
        × At m.bus.pmem dtb_place ds
  unfolding init_monitor
  init_monitor-starts a s is bs ks ds parsed set_up gi gb gk gd hi hk hd some_file =
      let small = parse_args-mode file options no_args a (omega arith) parsed in
      let (t, isa, reset, words) =
        init_isa-Reset file (before_isa file c host options a s)
          (fresh_cpu-IsWords file a.cur_pri _ small) in
      let (pmem, l, ai, ab, ak, ad, _) =
        load_img-places host.read_file a is bs ks ds t.bus.pmem gi gb gk gd hi hk hd some_file in
      (
        record t { bus = record (t.bus) { pmem = pmem } },
        rw (init_monitor, parsed, set_up, isa, l) refl,
        starts file c host options a s t _ pmem set_up reset words l,
        ai,
        ab,
        ak,
        ad,
      )

  -- In every state that the emulator reaches from the start that `init_monitor` leaves, by any
  -- instructions, updates of the devices at any time and with any events, input and time of the
  -- host and commands of the debugger in any order: register 0 is 0, every register and field of
  -- the decoder is below 2 ^ 32, the indices of the key queue are in its array, the frame
  -- counter is at most 24, the table of regions is the one of the start, and no address is in
  -- two regions.
  pub reached-IsSound :
      (a : Args) (m t : System file) (keymap : ℕ → ℕ) (clint_base : ℕ) (mem_all_access : Bool)
      → init_monitor file c host options ≡ some (a, m)
      → Reach file keymap clint_base mem_all_access m t
      → IsSound file m.bus.maps t × Disjoint t.bus.maps
  reached-IsSound a m t keymap clint_base mem_all_access e r =
      let start = init_monitor-Started file c host options a m e in
      let sound =
        Reach-IsSound file m.bus.maps start.quiet mem_all_access keymap clint_base start.sound r in
      (sound, subst Disjoint (sym sound.table) start.disjoint)

-- ===== src/Monitor/Init.antt =====
-- `init_monitor` of src/monitor/monitor.c and `init_isa` of src/isa/riscv32/init.c: the state that the
-- program starts with. The variables of the program are zero where they are not set; the terminal and
-- the image of the card are the host's. The log, the random seed and differential testing are left out.
use gs_emu.Base.{ℕ, false, Option, none, some, List, []}
use gs_emu.Memory.Host.{Bytes}
use gs_emu.Memory.Physical.{Memory, guest_to_host}
use gs_emu.Riscv.Machine.{Machine, stop}
use gs_emu.Riscv.Init.{restart, reset_vector}
use gs_emu.Device.SdCard.{File}
use gs_emu.Device.Serial.{Terminal}
use gs_emu.Device.Setup.{Devices, Config, D, init_map, init_device}
use gs_emu.Monitor.Args.{Opt, Args, parse_args}
use gs_emu.Monitor.Load.{put_words, img, load_img}

-- What the host gives the program: its files, the bytes of the arrays where the program does not set
-- them, the terminal and the image of the card.
pub record Host (F : Type 0) : Type 0 where
  pub read_file : List ℕ → Option (List ℕ)
  pub pmem : Bytes
  pub io_space : Bytes
  pub terminal : Terminal
  pub card_image : Option F

-- The variables as the program starts.
abbrev pub no_args : Args
no_args = record {
  is_batch_mode = false;
  log_file = none;
  diff_so_file = none;
  img_file = none;
  bios_file = none;
  kernel_file = none;
  dtb_file = none;
  difftest_port = 1234;
  cur_pri = 0;
}

abbrev pub fresh_devices : {F : Type 0} → Host F → Devices F
fresh_devices host = record {
  terminal = host.terminal;
  keys = record { key_queue = λ i. 0; key_f = 0; key_r = 0 };
  card = record {
    fp = host.card_image;
    blkcnt = 0;
    blk_addr = 0;
    addr = 0;
    write_cmd = false;
    read_ext_csd = false;
  };
  last = 0;
  frame_count = 0;
  us = 0;
}

abbrev pub fresh_cpu : {B : Type 0} → ℕ → B → Machine B
fresh_cpu mode bus = record {
  gpr = λ i. 0;
  csr = λ i. 0;
  amw = [];
  pc = 0;
  cur_pri = mode;
  exception = 0;
  exception_tval = 0;
  nemu_state = record { state = stop; halt_pc = 0; halt_ret = 0 };
  s = record { pc = 0; snpc = 0; dnpc = 0; inst = 0 };
  bus = bus;
}

module _ (file : File) where
  -- `init_isa`.
  unfoldable pub init_isa : Machine (Memory (D file)) → Option (Machine (Memory (D file)))
  init_isa m =
      let pmem = put_words m.bus.pmem (guest_to_host reset_vector) img in
      elim (restart (record m { bus = record (m.bus) { pmem = pmem } })) [
        | none ↦ none
        | some (_, t) ↦ some t
      ]

  -- The flag that `sdb_set_batch_mode` sets is in the arguments; `init_sdb` is of the debugger.
  unfoldable pub init_monitor :
      Config → Host file.F → List Opt → Option (Args × Machine (Memory (D file)))
  init_monitor c host options = elim (parse_args options no_args) [
    | none ↦ none
    | some a ↦ elim (init_device file c (init_map host.io_space)) [
      | none ↦ none
      | some s ↦
          elim (init_isa (
            fresh_cpu a.cur_pri
              (record { pmem = host.pmem; maps = s.maps; io = (s.space, fresh_devices host) }))) [
                | none ↦ none
                | some m ↦ elim (load_img host.read_file a m.bus.pmem) [
                  | none ↦ none
                  | some (img_size, pmem) ↦
                      some (a, record m { bus = record (m.bus) { pmem = pmem } })
                ]
              ]
    ]
  ]

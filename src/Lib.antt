-- ===== src/Lib.antt =====
-- gs_emu, an emulator of a RISC-V machine: the processor with its traps and interrupts, the run
-- loop, the physical memory and the regions of the devices, the keyboard, the serial port, the clocks
-- and the SD card, the debugger, two small instruction sets, the start, and the comparison with a reference.
--
-- The run loop (src/cpu/cpu-exec.c) calls the processor for one instruction at a time. The processor
-- (src/isa/riscv32) fetches a word, lets a pending interrupt take its place, chooses a row of its
-- table by a bit pattern (include/cpu/decode.h) and runs the body of the row; loads and stores go
-- to the memory (src/memory), which hands what is outside its array to the regions of the devices
-- (src/device/io), whose callbacks are the devices. The debugger (src/monitor/sdb) evaluates
-- expressions over the processor and calls the run loop; the comparison (src/cpu/difftest) steps a
-- reference beside it. A row may raise an exception, which the end of the instruction turns into a trap.
--
-- Files:
--   Base, Word: numbers, lists, words of 32 and 64 digits, `BITS` and `SEXT` of include/macro.h.
--   Decode: `pattern_decode`, `pattern_decode_hex` and the test of `INSTPAT`.
--   Bus: what the processor asks of the memory. The processor is written over any bus;
--     Memory/PhysicalLaws makes one of `paddr_read` and `paddr_write`.
--   Riscv/Machine: the state and the commands that read and write a part of it. Riscv/Csr: control
--     registers. Riscv/Amw: the reserved words, as a list; Riscv/AmwHeap: on a heap,
--     and that it refines the list. Riscv/Operand, Riscv/Instr, Riscv/Exec: operands, the
--     rows of `decode_exec` in order, their bodies. Riscv/Trap: the end of `decode_exec` and
--     `illegal_instruction`. Riscv/Interrupt: `irp_and`, `find_irq_type_val` and `isa_exec_once`.
--     Riscv/Init: `csr_init` and `restart`. Riscv/Names: `isa_reg_str2val`.
--   Riscv/Keeps: rules for commands. Riscv/Closed: what every command keeps when its parts do;
--     Riscv/Words and Riscv/OnBus apply it. Riscv/Zero, Riscv/Status, Riscv/TrapLaws,
--     Riscv/DelegateLaws, Riscv/SupervisorStatus, Riscv/SupervisorLaws, Riscv/InitLaws,
--     Riscv/InterruptLaws, Riscv/SelectLaws, Riscv/ImmediateLaws, Riscv/CsrLaws, Riscv/NamesLaws,
--     Riscv/DivideLaws, Riscv/AmwLaws: the theorems on them.
--   Cpu/Run: `exec_once`, `execute`, `cpu_exec`. Cpu/Laws: the theorems on them.
--   Memory/Host, Memory/IoMap, Memory/Physical: include/memory/host.h, src/device/io, src/memory.
--   Device/Keyboard: the queue of src/device/keyboard.c. Device/SdCard: src/device/sdcard.c.
--     Device/Clock: timer.c, clint.c, alarm.c and device.c there, and src/utils/timer.c.
--     Device/Serial: serial.c there. Device/Setup: `init_device` of device.c there and the init
--     functions it calls. Device/*Laws: the theorems on them.
--   Sdb/Outcome: results, failures and loops out of rounds. Sdb/Token, Sdb/Eval: `make_token` and
--     `tokens_calculation` of src/monitor/sdb/expr.c, over what an expression asks of the processor.
--     Sdb/Command: the commands of sdb.c there, over the run loop. Sdb/Watchpoint: watchpoint.c.
--     Sdb/TokenStep, Sdb/TokenLaws, Sdb/EvalEnds, Sdb/ChainLaws, Sdb/ExprLaws, Sdb/CommandLaws,
--     Sdb/ContinueLaws: the theorems on them. Sdb/EvalKeeps, Sdb/ExprKeeps, Sdb/RunKeeps,
--     Sdb/SessionKeeps: what a session keeps of the processor when a run and a read keep it.
--   Difftest/Dut: src/cpu/difftest/dut.c and src/isa/riscv32/difftest/dut.c, for the three references
--     that Kconfig offers. Difftest/Run: one round of `execute` with the comparison, over a memory
--     that notes whether `find_mapid_by_addr` of include/device/map.h found a region. The other
--     modules run with the comparison switched off. Difftest/DutLaws, Difftest/RunLaws: the theorems on them.
--   Isa/Core, Isa/Mips32, Isa/Loongarch32r: inst.c of src/isa/mips32 and src/isa/loongarch32r, over any
--     bus. Isa/Start: init.c there, and the run loop. Isa/CoreLaws, Isa/Mips32Laws,
--     Isa/Loongarch32rLaws, Isa/Returns: the theorems on them.
--   System/Step: the emulator as a whole, with the update of the devices over the shared state, as a
--     step relation. System/Runs: the run loop as steps. System/UpdateLaws, System/Invariant: the
--     theorems on them. Monitor/Args, Monitor/Load, Monitor/Init: src/monitor/monitor.c and `init_isa`.
--     Monitor/Main: `main` of src/nemu-main.c and src/engine/interpreter/init.c. Monitor/LoadLaws,
--     Monitor/InitLaws, Monitor/StartLaws, Monitor/MainLaws: the theorems on them.
--   Tests: a program run to its end, and the theorems at concrete inputs.
--
-- A command takes the state and gives a value and a new state, or `none` where the program ends by a
-- failed assertion. A `word_t` is a number below 2 ^ 32, and each assignment to one takes the
-- remainder. The configuration is the default one of Kconfig: RV32 with M, A, Zicsr, Zifencei and
-- the modes M, S and U, without the C extension; `MEM_ALL_ACCESS` is a parameter. The loop of
-- `find_irq_type_val` runs on 33 units of fuel: the word is empty after 32 shifts at most. In Sdb
-- a loop takes as many rounds as its text has characters (`make_token`) or as its stacks can take
-- steps (`tokens_calculation`); `cmd_c` runs as long as the program, and its rounds are an argument.
-- The other loops are recursion on a list or on the number of instructions.
--
-- Left out: messages of the emulator and traces, `init_difftest` and the emulator as a reference, the
-- windows and the sound, the log and the build tools. `Decode s` of `execute` is part of the machine
-- and kept between the calls, which each set it anew. What a device does for a read of the debugger
-- is lost when the expression fails later.
-- Functions of the C library (`regexec`, `strtok`, `atol`, `abs`, `getopt_long`, files, the terminal,
-- the time) and the reference are parameters. A byte array is a function from the index; a read or
-- write past the end of an array, undefined in C, is `none` or `fault`.
pub mod Base
pub mod Word
pub mod Decode
pub mod Bus
pub mod Riscv
pub mod Cpu
pub mod Memory
pub mod Device
pub mod Sdb
pub mod Difftest
pub mod Isa
pub mod System
pub mod Monitor
mod Tests

-- ===== src/Lib.antt =====
-- The processor, the memory, the devices and the breakpoints of the emulator v6emul (Vector-06C).
--
-- The program: libs/v6core holds the machine. `Hardware` (libs/v6core/src/hardware.cpp) runs it: one
-- instruction is a loop of machine cycles, each of which rasterizes a part of the frame, runs one
-- `ExecuteMachineCycle` of the CPU with the interrupt line of the display, and clocks the sound.
-- The CPU (libs/v6core/src/cpu_i8080.cpp) reaches the memory through `Memory`
-- (libs/v6core/src/memory.cpp) and the ports through two callbacks of `IO`.
--
-- The files:
--   Base, Base/*   tests and tables, lists over the numbers of the program, words of a width, and
--                  bitwise operations.
--   Memory         `Memory` of libs/v6core/include/core/memory.h and libs/v6core/src/memory.cpp: a
--                  record, with one function per operation. `m_ram` is a function from global
--                  addresses. Memory/Bounds has its validity and the bounds of addresses,
--                  Memory/Access reads after writes, and Memory/RamDisk the selection of a RAM
--                  disk.
--   Cpu/*          `CpuI8080` of libs/v6core/include/core/cpu_i8080.h and
--                  libs/v6core/src/cpu_i8080.cpp. Cpu/State has the registers as one record; a
--                  `Machine` adds the memory and the state behind the ports. Cpu/Tables has the
--                  tables, Cpu/Alu the helpers that compute, Cpu/Moves, Cpu/Arith and Cpu/Control
--                  the instruction helpers by their machine cycles (the first number is MC), Cpu/Ops
--                  and Cpu/Decode the switch of `Decode` as a list of its cases, Cpu/Step one
--                  machine cycle and the loop of `Hardware::ExecuteInstruction`, Cpu/Reset the
--                  reset, Cpu/Valid the widths.
--   Isa            the instruction set in one step per instruction, as the manual has it, written
--                  without machine cycles and scratch registers. Isa/Flags is its arithmetic.
--                  Isa/Arith compares the helpers that compute, Isa/Drive and Isa/Begin split a run
--                  into its cycles, Isa/Refine/* compares each instruction, and Isa/Run, Isa/Halt,
--                  Isa/Timing and Isa/Lengths state what follows of whole runs.
--   Watchpoint     `Watchpoint` and `Watchpoints` of libs/v6core/src/watchpoint.cpp and
--                  libs/v6core/src/watchpoints.cpp: the check of an access, and the set by its ids.
--                  Watchpoint/Laws is about one watchpoint, Watchpoint/Hits about the first hit of the
--                  set, Watchpoint/Ids about its ids.
--   Breakpoint     `Breakpoint` and `Breakpoints` of libs/v6core/src/breakpoint.cpp and
--                  libs/v6core/src/breakpoints.cpp. Breakpoint/Laws compares the map with a
--                  function, Breakpoint/Counters is about counted hits.
--   Fdc            `Fdc1793` of libs/v6core/src/fdc_wd1793.cpp. Fdc/Commands has the commands,
--                  Fdc/Access the ports and the mounting of images, Fdc/Transfer, Fdc/Sectors and
--                  Fdc/RoundTrip the sectors that are read and written, Fdc/Watchdog the end of a
--                  transfer that nobody goes on with, Fdc/Keeps and Fdc/Chosen the chosen drive.
--   Keyboard       `Keyboard` of libs/v6core/src/keyboard.cpp. Keyboard/Laws has its theorems.
--   Timer          `CounterUnit` and `TimerI8253` of libs/v6core/src/timer_i8253.cpp. Timer/Clock
--                  has the modes, Timer/Access writes and reads. Timer/Counting is about mode 0,
--                  Timer/Bcd about decimal counts.
--   Ay             `SoundAY8910` of libs/v6core/include/core/sound_ay8910.h.
--   Io             `IO` of libs/v6core/src/io.cpp, with the devices. Io/Ports has what each
--                  port does, Io/Access the accesses of the CPU and the commits, Io/Commit theorems
--                  on delayed writes.
--   Audio          `Audio` of libs/v6core/src/audio.cpp. Audio/Sources has what it does to the timer and
--                  the sound chip, Audio/Ticks is about their clocks and Audio/Queue about its
--                  ring.
--   Display        `Display` of libs/v6core/src/display.cpp. Display/Fill draws pixels, Display/Raster
--                  chooses what is drawn. Display/Safe, Display/Position and Display/Frames follow the
--                  raster over a frame.
--   Trace          `TraceLog` of libs/v6core/src/trace_log.cpp: the history. Trace/Caller is about the
--                  order of the history and the search in it. Trace/Glob has the patterns of a
--                  filter, with fuel for every pass, and Trace/Glob/Matches their meaning.
--   Disasm         the tables of libs/v6core/include/core/disasm_i8080_cmds.h (Disasm/I8080) and
--                  libs/v6core/include/core/disasm_z80_cmds.h (Disasm/Z80) and `Disasm` of
--                  libs/v6core/src/disasm.cpp. Disasm/Cmd has the tokens of a command, Disasm/Table
--                  the look-up, Disasm/Hex the digits, Disasm/Print the line of the trace log in its
--                  buffer, Disasm/Lines the lines of the window, Disasm/Search the
--                  search for an address some instructions away, whose two directions
--                  Disasm/Search/Back compares. Disasm/Agree compares the tables with
--                  the CPU, Disasm/Print/Width and Disasm/Lines/* bound what is written.
--   DebugData      `DebugData` of libs/v6core/src/debug_data.cpp, with the labels and constants in
--                  DebugData/Names and `CodePerf` of libs/v6core/include/core/code_perf.h in
--                  DebugData/Perf. DebugData/Names/* and DebugData/Laws have the theorems.
--   Recorder       `Recorder` of libs/v6core/src/recorder.cpp: the ring of the last frames.
--                  Recorder/Replay and Recorder/Live play it in both directions.
--   Hardware       `Hardware` of libs/v6core/src/hardware.cpp: the run, the stop and the resets.
--                  Hardware/Loop has `ExecuteInstruction` with the devices, Hardware/StepOver
--                  `GetStepOverAddr` and Hardware/StepOver/* its address against the CPU's,
--                  Hardware/Counters the counters of cycles, Hardware/Headless `RunHeadless`.
--                  Hardware/Passes bounds the passes of the loop, with Isa/Passes for the CPU, and
--                  Hardware/InStep follows the display and the clock together.
--   Tests, Tests/* concrete runs.
--
-- Parameters: `Bus` stands for the port callbacks, of which `io_bus` of Io is one; nothing is
-- assumed of it. In Cpu and Isa the interrupt lines of the display are a list, one for each machine
-- cycle. The list bounds the loop: the longest instruction has six cycles, and the theorems give
-- six lines. `Option` is the result of a run: `none` is the exit at an unknown opcode, or the end
-- of the list. In Hardware/Loop the same loop takes the line from `Display` and the ports from
-- `Io`; its fuel is six passes, which are shown to be enough. `RunHeadless` has one instruction for
-- each unit of fuel. `Outside` stands for the mixing of the samples and for the debugger, the state
-- of the machine is a parameter of the recorder, and the arithmetic on doubles in the samples of code
-- performance is one of DebugData/Perf.
--
-- Numbers are natural numbers with the wrap-around of their width written out. A `union` of bytes
-- and a word is its bytes, and the flag byte is its eight bits.
--
-- Not modelled: what the rasterizer hands to the window, the float amplitudes of the sound, the
-- links of the disassembler and the statistics of a line, the filters and the file of the trace
-- log, the filtered lists and the files of the debug data, the file of the recorder and its frame
-- buffers, the debugger's requests, the scripts, the files that `Memory` loads and saves, the
-- thread, the delays and the request queue of `Hardware`, the IPC server and the tools around them:
-- they are input and output, JSON, threads, or calls of libraries.
pub mod Base
pub mod Memory
pub mod Cpu
pub mod DebugData
pub mod Disasm
pub mod Isa
pub mod Watchpoint
pub mod Fdc
pub mod Breakpoint
pub mod Hardware
pub mod Keyboard
pub mod Recorder
pub mod Timer
pub mod Ay
pub mod Io
pub mod Audio
pub mod Display
pub mod Trace
pub mod Tests

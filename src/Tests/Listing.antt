-- ===== src/Tests/Listing.antt =====
-- Concrete runs of the disassembler and the data of the debugger.
use v6emul.Base.{ℕ, ◌+◌, ◌≡◌, refl, arith, true, false, none, [], ◌∷◌, if◌then◌else◌, ◌==◌}
use v6emul.Base.Text.{Bytes}
use v6emul.Tests.{registers, memory, registers-IsCpu, memory-IsValid}
use v6emul.Cpu.Tables.{get_instr_len}
use v6emul.Disasm.Table.{disasm_lang_z80}
use v6emul.Disasm.Print.Width.{IsHead}
use v6emul.Disasm.Print.Width
use v6emul.Disasm.Lines.Built
use v6emul.Memory.{get_byte, byte_at}
use v6emul.Disasm.Search.{pos, negsuc, get_addr, get_addr_ahead}
use v6emul.Disasm.Search.Back
use v6emul.DebugData.{DebugData}
use v6emul.DebugData.Perf.{CodePerf, Means, check_perf}
use v6emul.DebugData.Names.Refine.{names_of, apply, edited, address, add_one, del_one}
use v6emul.DebugData.Names.Refine
use v6emul.DebugData.Names.Tidy.{apply_all}
use v6emul.DebugData.Laws.{run_perf}
use v6emul.DebugData.Laws

-- SHLD, whose text is one of the longest
print_to_buffer-IsHead_example :
    (head : Bytes) × IsHead disasm_lang_z80 registers (memory 0x22) 1000 255 head
print_to_buffer-IsHead_example =
    Width.print_to_buffer-IsHead disasm_lang_z80 registers (memory 0x22) 1000 255 registers-IsCpu
      (memory-IsValid 0x22 (omega arith)) (omega arith) (omega arith) (omega arith) (omega arith)

-- three labels of the operand, one of them local, and a constant
abbrev debug_data : DebugData ℕ
debug_data = record {
  labels = apply_all (
      add_one 0x2222 "next"
      ∷ del_one 0x2222 "old"
      ∷ add_one 0x2222 "@loop"
      ∷ add_one 0x2222 "old"
      ∷ []);
  consts = apply_all (add_one 0x1234 "SIZE" ∷ []);
  comments = (0x1234, "entry") ∷ [];
  memory_edits = [];
  code_perfs = [];
  labels_updates = 4;
  consts_updates = 1;
  comments_updates = 1;
  edits_updates = 0;
  code_perfs_updates = 0;
  next_code_perf_id = 0;
  code_perf_ids_exhausted = false;
  mem_runs = λ a. 0;
  mem_reads = λ a. 0;
  mem_writes = λ a. 0;
}

names_of-apply_example : names_of (apply (del_one 7 "b") ((7, "a" ∷ "b" ∷ []) ∷ [])) 7 ≡ (
    if address (del_one 7 "b") == 7
    then edited (del_one 7 "b") (names_of ((7, "a" ∷ "b" ∷ []) ∷ []) (address (del_one 7 "b")))
    else names_of ((7, "a" ∷ "b" ∷ []) ∷ []) 7)
names_of-apply_example = Refine.names_of-apply (del_one 7 "b") ((7, "a" ∷ "b" ∷ []) ∷ []) 7

-- sums of times in place of means
abbrev sums : Means ℕ
sums = record { nothing = 0; sampled = λ mean time count. mean + time }

abbrev timed : CodePerf ℕ
timed = record {
  name = "draw";
  addr_start = 0x100;
  addr_end = 0x180;
  average_clock_cycles = 40;
  test_count = 2;
  sample_start_clock = none;
  active = true;
}

run_perf-sample_example :
    check_perf sums 0x180 1234
      (run_perf sums ((0x101, 1004) ∷ (0x140, 1100) ∷ []) (check_perf sums 0x100 1000 timed))
    ≡ record timed { test_count = 3; average_clock_cycles = 274 }
run_perf-sample_example =
    Laws.run_perf-sample sums timed ((0x101, 1004) ∷ (0x140, 1100) ∷ []) 1000 1234 refl
      (omega arith) (omega arith) ((omega arith, omega arith), ((omega arith, omega arith), tt))
      (omega arith)

-- LXI H everywhere: seven instructions have 21 bytes
get_addr_back_example :
    get_addr debug_data (memory 0x21) (get_addr debug_data (memory 0x21) 5 (negsuc 6)) (pos 7) ≡ 5
unfolding get_addr get_addr_ahead get_byte byte_at get_instr_len
get_addr_back_example =
    Back.get_addr_back (memory 0x21) (memory-IsValid 0x21 (omega arith)) debug_data 6 5 65520
      (omega arith) (omega arith) refl

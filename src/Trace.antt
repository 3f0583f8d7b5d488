-- ===== src/Trace.antt =====
-- The history of the trace log (libs/v6core/include/core/trace_log.h, libs/v6core/src/trace_log.cpp):
-- a ring that grows downwards, and the search for a caller in it. A request is its fields, and an
-- exception is a result. The lists of a filter and the file of the log are left out.
pub mod Caller
pub mod Glob
use v6emul.Base.{
  ℕ, zero, suc, ◌+◌, ◌-◌, ◌%◌, ◌^◌, min, ◌&&◌, ◌||◌, leb, ltb, ◌==◌, not, if◌then◌else◌, u16, u64,
  update, Option, none, some,
}
use v6emul.Cpu.Tables.{get_instr_len}

abbrev pub trace_log_size : ℕ
trace_log_size = 300000

-- EMPTY_ITEM, -1 on 32 bits
abbrev pub empty_item : ℕ
empty_item = 2 ^ 32 - 1

abbrev pub trace_hlt : ℕ
trace_hlt = 0x76

abbrev pub trace_pchl : ℕ
trace_pchl = 0xe9

pub record Item : Type 0 where
  pub global_addr : ℕ
  pub opcode : ℕ
  pub data_w : ℕ

pub record TraceLog : Type 0 where
  pub log : ℕ → Item
  pub log_idx : ℕ
  pub history_count : ℕ
  pub history_generation : ℕ

-- `m_log[(m_logIdx + cursor) % TRACE_LOG_SIZE]`
abbrev pub item_at : ℕ → TraceLog → Item
item_at cursor l = l.log ((l.log_idx + cursor) % trace_log_size)

-- `UpdateLogBuffer`: one instruction, with PC for PCHL; a repeated HLT is skipped.
unfoldable pub update_log_buffer : Item → ℕ → TraceLog → TraceLog
update_log_buffer instr pc l =
    let idx = (l.log_idx + trace_log_size - 1) % trace_log_size in
    let item = record instr { data_w = if instr.opcode == trace_pchl then pc else instr.data_w } in
    if instr.opcode == trace_hlt && (l.log l.log_idx).opcode == trace_hlt then l else record {
      log = update l.log idx item;
      log_idx = idx;
      history_count = min (l.history_count + 1) trace_log_size;
      history_generation = u64 (l.history_generation + 1);
    }

-- `Reset`
unfoldable pub reset_log : TraceLog → TraceLog
reset_log l = record l {
  history_count = 0;
  history_generation = u64 (l.history_generation + 1);
  log_idx = 0;
  log = update l.log 0 (record (l.log 0) { global_addr = empty_item });
}

-- `FindCaller`: what it returns or throws
pub data CallerResult : Type 0 where
  invalid_range stale_generation invalid_cursor history_end : CallerResult
  found : ℕ → ℕ → ℕ → CallerResult

abbrev pub pc_at : ℕ → TraceLog → ℕ
pc_at cursor l = u16 (item_at cursor l).global_addr

-- its loop from `cursor` on, `n` items left: the caller, the entrance and the cursor
unfoldable pub caller_loop : ℕ → ℕ → ℕ → ℕ → ℕ → TraceLog → CallerResult
caller_loop zero cursor destination start end l = history_end
caller_loop (suc n) cursor destination start end l =
    let pc = pc_at cursor l in
    let rest = caller_loop n (cursor + 1) pc start end l in
    if ltb pc start || leb end pc then found pc destination cursor else rest

-- `callerCursor` and `historyGeneration` of a request that goes on
unfoldable pub find_caller : ℕ → ℕ → Option (ℕ × ℕ) → ℕ → TraceLog → CallerResult
find_caller start end none live_pc l =
    if leb end start || ltb 0x10000 end
    then invalid_range
    else caller_loop l.history_count 0 live_pc start end l
find_caller start end (some (cursor, generation)) live_pc l =
    if leb end start || ltb 0x10000 end
    then invalid_range
    else if not (generation == l.history_generation)
    then stale_generation
    else if leb l.history_count cursor
    then invalid_cursor
    else caller_loop (l.history_count - (cursor + 1)) (cursor + 1) (pc_at cursor l) start end l

-- `CallerSuccessor`
unfoldable pub caller_successor : ℕ → ℕ → TraceLog → Option ℕ
caller_successor cursor generation l =
    if not (generation == l.history_generation) || leb l.history_count cursor
    then none
    else some (u16 ((item_at cursor l).global_addr + get_instr_len (item_at cursor l).opcode))

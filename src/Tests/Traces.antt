-- ===== src/Tests/Traces.antt =====
-- Concrete runs of the trace log.
use v6emul.Base.{◌==◌, ◌≡◌, true, some, arith, ◌+◌, none, if◌then◌else◌}
use v6emul.Trace.{TraceLog, find_caller}
use v6emul.Trace.Caller.{Answer}
use v6emul.Trace.Caller
use v6emul.Trace.Glob.{glob_matches}
use v6emul.Trace.Glob.Matches.{glob, later}
use v6emul.Trace.Glob.Matches
use v6emul.Base.Text.{codes}

-- four instructions; the third was a call from outside of 0x1000 to 0x10ff
abbrev history : TraceLog
history = record {
  log = λ i. record {
    global_addr = if i == 1 then 0x2000 else 0x1000 + i;
    opcode = 0xcd;
    data_w = 0x1000;
  };
  log_idx = 299999;
  history_count = 4;
  history_generation = 5;
}

find_caller_example :
    Answer 0 0x1010 0x1000 0x1100 history (find_caller 0x1000 0x1100 none 0x1010 history)
find_caller_example =
    Caller.find_caller_lem 0x1000 0x1100 0x1010 history (omega arith) (omega arith)

-- the second star takes more after a try that fails
glob_matches-glob_example : glob_matches (codes "m*a,*b") (codes "MOV a, A,B") ≡ some true
unfolding glob later
glob_matches-glob_example = Matches.glob_matches-glob (codes "m*a,*b") (codes "MOV a, A,B")

-- ===== src/Tests/Breaks.antt =====
-- Concrete runs of the breakpoints.
use v6emul.Base.{◌≡◌, refl, true, false, none, List, [], ◌∷◌}
use v6emul.Memory.{Memory}
use v6emul.Cpu.State.{Cpu}
use v6emul.Breakpoint.{
  Breakpoint, Breakpoints, active, op_b, check_status, find, operand_value, mapping_bit, compares,
}
use v6emul.Breakpoint.Laws.{RefinesMap, lookup}
use v6emul.Breakpoint.Laws
use v6emul.Breakpoint.Counters.{IsHit, check_all}
use v6emul.Breakpoint.Counters
use v6emul.Watchpoint.{equ}
use v6emul.Tests.{registers, memory}

-- It breaks at the second instruction at its address with 1 in B, and is gone then.
abbrev second_time : Breakpoint
second_time = record {
  mem_pages = 0x1_ffff_ffff;
  value = 1;
  counter = 2;
  addr = 0x1234;
  operand = op_b;
  cond = equ;
  status = active;
  auto_del = true;
}

abbrev one_breakpoint : Breakpoints
one_breakpoint = record { bps = second_time ∷ []; updates = 1 }

abbrev two_steps : List (Cpu × Memory)
two_steps = (registers, memory 0) ∷ (record registers { a = 7 }, memory 1) ∷ []

check_all-breaks_example :
    ((check_all two_steps one_breakpoint).0 ≡ false ∷ true ∷ [])
    × (lookup (check_all two_steps one_breakpoint).1 0x1234 ≡ none)
unfolding find check_status operand_value mapping_bit compares
check_all-breaks_example =
    Counters.check_all-breaks 1 0x1234 two_steps second_time one_breakpoint refl refl refl
      ((refl, refl), ((refl, refl), tt))

lookup-RefinesMap_example : RefinesMap one_breakpoint
lookup-RefinesMap_example = Laws.lookup-RefinesMap one_breakpoint

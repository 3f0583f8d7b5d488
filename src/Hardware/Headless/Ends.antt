-- ===== src/Hardware/Headless/Ends.antt =====
-- The end of `RunHeadless` (libs/v6core/src/hardware.cpp) at its limits.
use v6emul.Base.{ℕ, ◌+◌, ◌*◌, ◌<◌, ◌≡◌, true, u64}
use v6emul.Hardware.{Hardware, Outside}
use v6emul.Hardware.Headless.{Limits, is_over}

module _ {A : Type 0} (out : Outside A) where
  module _ (limits : Limits) (start_cc start_frame : ℕ) where
    -- The machine after 4t clock cycles, over by its limits before 24 more than the limit of cycles.
    record Ended (last : Hardware A) : Type 0 where
      quarter : ℕ
      time : last.cpu.cc ≡ u64 (start_cc + 4 * quarter)
      soon : 4 * quarter < limits.max_cycles + 24
      over : is_over out limits start_cc start_frame last ≡ true

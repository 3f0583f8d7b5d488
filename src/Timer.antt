-- ===== src/Timer.antt =====
-- The timer i8253 (libs/v6core/include/core/timer_i8253.h, libs/v6core/src/timer_i8253.cpp). An `int`
-- is its 32 bits. `m_flags` is its four flags. `Clock` of the whole timer gives the outputs of the
-- three counters, whose mean as a `float` is left out.
pub mod Clock
pub mod Access
pub mod Bcd
pub mod Counting
use v6emul.Base.{
  ℕ, zero, suc, ◌+◌, ◌-◌, ◌*◌, ◌/◌, ◌%◌, ◌^◌, bit_or, Bool, false, ◌||◌, leb, ltb, ◌==◌,
  if◌then◌else◌, u16,
}

-- `int` on 32 bits: `a - b`, `a + b` and `a <= 0`
abbrev pub i32_sub : ℕ → ℕ → ℕ
i32_sub a b = (a + 2 ^ 32 - b % 2 ^ 32) % 2 ^ 32

abbrev pub i32_add : ℕ → ℕ → ℕ
i32_add a b = (a + b) % 2 ^ 32

abbrev pub i32_at_most_zero : ℕ → Bool
i32_at_most_zero a = a == 0 || leb (2 ^ 31) a

-- `-1`, the latch that holds nothing
abbrev pub no_latch : ℕ
no_latch = 2 ^ 32 - 1

abbrev pub latch_delay : ℕ
latch_delay = 1

pub record Counter : Type 0 where
  pub latch_value : ℕ
  pub write_state : ℕ
  pub latch_mode : ℕ
  pub out : ℕ
  pub value : ℕ
  pub mode_int : ℕ
  pub write_lsb : ℕ
  pub write_msb : ℕ
  pub load_value : ℕ
  pub delay : ℕ
  pub armed : Bool
  pub load_flag : Bool
  pub enabled : Bool
  pub bcd : Bool

-- `CounterUnit::Reset`
unfoldable pub reset_counter : Counter
reset_counter = record {
  latch_value = no_latch;
  write_state = 0;
  latch_mode = 0;
  out = 0;
  value = 0;
  mode_int = 0;
  write_lsb = 0;
  write_msb = 0;
  load_value = 0;
  delay = 0;
  armed = false;
  load_flag = false;
  enabled = false;
  bcd = false;
}

-- the loops of `ToBcd` and `FromBcd`, `n` digits left
unfoldable pub to_bcd_loop : ℕ → ℕ → ℕ → ℕ → ℕ
to_bcd_loop zero i x result = result
to_bcd_loop (suc n) i x result =
    to_bcd_loop n (i + 1) (x / 10) (bit_or result (x % 10 * 2 ^ (i * 4)))

unfoldable pub to_bcd : ℕ → ℕ
to_bcd x = u16 (to_bcd_loop 4 0 (u16 x) 0)

abbrev pub bcd_digit : ℕ → ℕ
bcd_digit x = let digit = x / 4096 % 16 in if ltb 9 digit then 9 else digit

unfoldable pub from_bcd_loop : ℕ → ℕ → ℕ → ℕ
from_bcd_loop zero x result = result
from_bcd_loop (suc n) x result = from_bcd_loop n (u16 (x * 16)) (result * 10 + bcd_digit x)

unfoldable pub from_bcd : ℕ → ℕ
from_bcd x = u16 (from_bcd_loop 4 (u16 x) 0)

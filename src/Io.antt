-- ===== src/Io.antt =====
-- The ports `IO` (libs/v6core/include/core/io.h, libs/v6core/src/io.cpp) with the devices behind them.
-- The memory is passed beside them. An `int8_t` timer is its 8 bits. The callback and the log of the
-- debug port 0xED are left out. `none` is a fault of the disk controller.
pub mod Ports
pub mod Access
pub mod Commit
use v6emul.Base.{ℕ, Bool, false, update}
use v6emul.Keyboard.{Keyboard}
use v6emul.Timer.Access.{Timer}
use v6emul.Ay.{Ay}
use v6emul.Fdc.{Fdc}

abbrev pub out_commit_time : ℕ
out_commit_time = 1

abbrev pub palette_commit_time : ℕ
palette_commit_time = 5

abbrev pub display_mode_commit_time : ℕ
display_mode_commit_time = 8

pub record Io : Type 0 where
  pub palette : ℕ → ℕ
  pub cw : ℕ
  pub port_a : ℕ
  pub port_b : ℕ
  pub port_c : ℕ
  pub cw2 : ℕ
  pub port_a2 : ℕ
  pub port_b2 : ℕ
  pub port_c2 : ℕ
  pub ruslat_history : ℕ
  pub outport : ℕ
  pub outbyte : ℕ
  pub out_commit_timer : ℕ
  pub palette_commit_timer : ℕ
  pub display_mode_timer : ℕ
  pub joy0 : ℕ
  pub joy1 : ℕ
  pub hw_color : ℕ
  pub req_display_mode : Bool
  pub brd_color_idx : ℕ
  pub display_mode : Bool
  pub ruslat : ℕ
  pub ports_in : ℕ → ℕ
  pub ports_out : ℕ → ℕ
  pub palette_time : ℕ
  pub keyboard : Keyboard
  pub timer : Timer
  pub ay : Ay
  pub fdc : Fdc

-- `Init`
unfoldable pub init_io : Io → Io
init_io io = record io {
  cw = 0x08;
  cw2 = 0;
  port_a = 0xff;
  port_b = 0xff;
  port_c = 0xff;
  port_a2 = 0xff;
  port_b2 = 0xff;
  port_c2 = 0xff;
  joy0 = 0xff;
  joy1 = 0xff;
  outport = 0;
  outbyte = 0;
  hw_color = 0;
  brd_color_idx = 0;
  palette = λ i. 0;
  ruslat = 0;
  display_mode = false;
  out_commit_timer = 0;
  palette_commit_timer = 0;
  display_mode_timer = 0;
  ruslat_history = 0;
}

-- `SetColor` and `SetPaletteCommitTime`
unfoldable pub set_color : ℕ → Io → Io
set_color idx io = record io { palette = update io.palette idx io.hw_color }

unfoldable pub set_palette_commit_time : ℕ → Io → Io
set_palette_commit_time time io = record io { palette_time = time }

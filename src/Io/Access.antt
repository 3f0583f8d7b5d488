-- ===== src/Io/Access.antt =====
-- Reads and writes of the CPU, and the delayed commit (libs/v6core/src/io.cpp).
use v6emul.Base.{ℕ, ◌-◌, Bool, not, ◌&&◌, ltb, ◌==◌, if◌then◌else◌, u8, update, Option, none, some}
use v6emul.Memory.{Memory}
use v6emul.Cpu.State.{Bus}
use v6emul.Io.{out_commit_time, display_mode_commit_time, Io, set_color}
use v6emul.Io.Ports.{is_port, port_in_handling, port_out_handling}

-- `PortIn`
unfoldable pub port_in : ℕ → Io → Option (ℕ × Io)
port_in port io = elim (port_in_handling port io) [
  | none ↦ none
  | some (v, io') ↦ some (v, record io' { ports_in = update io'.ports_in port v })
]

-- `PortOut`: the write is only noted, with the time of its commit.
unfoldable pub port_out : ℕ → ℕ → Io → Io
port_out port v io = record io {
  ports_out = update io.ports_out port v;
  outport = port;
  outbyte = v;
  out_commit_timer = out_commit_time;
  palette_commit_timer =
      if is_port 0x0c 0x0f port then u8 io.palette_time else io.palette_commit_timer;
  display_mode_timer = if port == 0x02 then display_mode_commit_time else io.display_mode_timer;
}

-- `PortOutCommit`
unfoldable pub port_out_commit : Io → Memory → Option (Io × Memory)
port_out_commit io m = port_out_handling io.outport io.outbyte io m

-- `int8_t > 0`
abbrev pub is_positive8 : ℕ → Bool
is_positive8 t = not (t == 0) && ltb t 128

-- the three parts of `TryToCommit`
abbrev pub commit_out : Io → Memory → Option (Io × Memory)
commit_out io m =
    let io' = record io { out_commit_timer = io.out_commit_timer - 1 } in
    if is_positive8 io.out_commit_timer
    then (if io'.out_commit_timer == 0 then port_out_commit io' m else some (io', m))
    else some (io, m)

abbrev pub commit_color : ℕ → Io → Io
commit_color color_idx io =
    let io' = record io { palette_commit_timer = io.palette_commit_timer - 1 } in
    if is_positive8 io.palette_commit_timer
    then (if io'.palette_commit_timer == 0 then set_color color_idx io' else io')
    else io

abbrev pub commit_mode : Io → Io
commit_mode io =
    let io' = record io { display_mode_timer = io.display_mode_timer - 1 } in
    if is_positive8 io.display_mode_timer
    then (if io'.display_mode_timer == 0
        then record io' { display_mode = io.req_display_mode }
        else io')
    else io

-- `TryToCommit`, once for each pixel
unfoldable pub try_to_commit : ℕ → Io → Memory → Option (Io × Memory)
try_to_commit color_idx io m = elim (commit_out io m) [
  | none ↦ none
  | some (io', m') ↦ some (commit_mode (commit_color color_idx io'), m')
]

-- The ports as the CPU sees them; after a fault they give 0.
unfoldable pub io_bus : Bus (Option Io)
io_bus = record {
  input = λ port w. elim w [
    | none ↦ (0, none)
    | some io ↦ elim (port_in port io) [ none ↦ (0, none) | some (v, io') ↦ (v, some io') ]
  ];
  output = λ port v w. elim w [ none ↦ none | some io ↦ some (port_out port v io) ];
}

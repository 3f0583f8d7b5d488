-- ===== src/Io/Ports.antt =====
-- What the ports do when they are read, and when a write is committed (libs/v6core/src/io.cpp).
use v6emul.Base.{
  ℕ, ◌+◌, ◌*◌, ◌/◌, ◌%◌, ◌^◌, bit_and, bit_or, Bool, ◌&&◌, leb, ◌==◌, if◌then◌else◌, nonzero, u8,
  not8, not32, Option, none, some,
}
use v6emul.Keyboard.{read_rows}
use v6emul.Memory.{Memory, set_ram_disk_mode}
use v6emul.Timer.Access.{read_timer, write_timer}
use v6emul.Ay.{read_ay, write_ay}
use v6emul.Fdc.{Port, command_port, track_port, sector_port, data_port, system_port}
use v6emul.Fdc.Access
use v6emul.Io.{Io}

-- port C as it is read: its halves are inputs or outputs
abbrev pub read_port_c : Io → ℕ
read_port_c io =
    let low = if nonzero (bit_and io.cw 0x01) then 0x0b else bit_and io.port_c 0x0f in
    let keys =
      bit_or (if io.keyboard.key_ss then 0 else 0x20) (
        bit_or (if io.keyboard.key_us then 0 else 0x40)
          (if io.keyboard.key_rus then 0 else 0x80)) in
    bit_or low (if nonzero (bit_and io.cw 0x08) then keys else bit_and io.port_c 0xf0)

-- a read of the disk controller
abbrev pub read_fdc : Port → Io → Option (ℕ × Io)
read_fdc p io = elim (Access.read p io.fdc) [
  | none ↦ none
  | some (v, fdc) ↦ some (v, record io { fdc = fdc })
]

abbrev pub is_port : ℕ → ℕ → ℕ → Bool
is_port first last port = leb first port && leb port last

-- `PortInHandling`
unfoldable pub port_in_handling : ℕ → Io → Option (ℕ × Io)
port_in_handling port io =
    if port == 0x01
    then some (read_port_c io, io)
    else if port == 0x02
    then some
        (if nonzero (bit_and io.cw 0x02) then read_rows io.port_a io.keyboard else io.port_b, io)
    else if port == 0x03
    then some (if bit_and io.cw 0x10 == 0 then io.port_a else 0xff, io)
    else if port == 0x04
    then some (io.cw2, io)
    else if port == 0x05
    then some (io.port_c2, io)
    else if port == 0x06
    then some (io.port_b2, io)
    else if port == 0x07
    then some (io.port_a2, io)
    else if is_port 0x08 0x0b port
    then (let (v, timer) = read_timer (not32 (port % 4)) io.timer in
        some (u8 v, record io { timer = timer }))
    else if port == 0x0e
    then some (io.joy0, io)
    else if port == 0x0f
    then some (io.joy1, io)
    else if is_port 0x14 0x15 port
    then some (u8 (read_ay (port % 2) io.ay), io)
    else if port == 0x18
    then read_fdc data_port io
    else if port == 0x19
    then read_fdc sector_port io
    else if port == 0x1a
    then read_fdc track_port io
    else if port == 0x1b
    then read_fdc command_port io
    else if port == 0x1c
    then read_fdc system_port io
    else some (0xff, io)

-- writes to the parallel ports
abbrev pub write_port_c : ℕ → Io → Io
write_port_c v io =
    let ruslat = io.port_c / 8 % 2 in
    record io {
      ruslat = ruslat;
      ruslat_history = (io.ruslat_history * 2 + ruslat) % 2 ^ 32;
      port_c = v;
    }

abbrev pub write_port_b : ℕ → Io → Io
write_port_b v io = record io {
  port_b = v;
  brd_color_idx = v % 16;
  req_display_mode = nonzero (bit_and v 0x10);
}

abbrev pub write_port_a : ℕ → Io → Io
write_port_a v io = record io { port_a = v }

-- the control word: one bit of port C, or the modes
abbrev pub write_control : ℕ → Io → Io
write_control v io0 =
    let io = record io0 { ruslat = io0.port_c / 8 % 2 } in
    let bit = v / 2 % 8 in
    if bit_and v 0x80 == 0
    then (if v % 2 == 1
        then record io { port_c = u8 (bit_or io.port_c (2 ^ bit)) }
        else record io { port_c = bit_and io.port_c (not8 (2 ^ bit)) })
    else write_port_a 0 (write_port_b 0 (write_port_c 0 (record io { cw = v })))

abbrev pub write_fdc : Port → ℕ → Io → Memory → Option (Io × Memory)
write_fdc p v io m = elim (Access.write p v io.fdc) [
  | none ↦ none
  | some fdc ↦ some (record io { fdc = fdc }, m)
]

-- `PortOutHandling`
unfoldable pub port_out_handling : ℕ → ℕ → Io → Memory → Option (Io × Memory)
port_out_handling port v io m =
    if port == 0x00
    then some (write_control v io, m)
    else if port == 0x01
    then some (write_port_c v io, m)
    else if port == 0x02
    then some (write_port_b v io, m)
    else if port == 0x03
    then some (write_port_a v io, m)
    else if port == 0x04
    then some (record io { cw2 = v }, m)
    else if port == 0x05
    then some (record io { port_c2 = v }, m)
    else if port == 0x06
    then some (record io { port_b2 = v }, m)
    else if port == 0x07
    then some (record io { port_a2 = v }, m)
    else if is_port 0x08 0x0b port
    then some (record io { timer = write_timer (not32 port % 4) v io.timer }, m)
    else if is_port 0x0c 0x0f port
    then some (record io { hw_color = v }, m)
    else if port == 0x10
    then some (io, set_ram_disk_mode 0 v m)
    else if port == 0x11
    then some (io, set_ram_disk_mode 1 v m)
    else if is_port 0x14 0x15 port
    then some (record io { ay = write_ay (port % 2) v io.ay }, m)
    else if port == 0x18
    then write_fdc data_port v io m
    else if port == 0x19
    then write_fdc sector_port v io m
    else if port == 0x1a
    then write_fdc track_port v io m
    else if port == 0x1b
    then write_fdc command_port v io m
    else if port == 0x1c
    then write_fdc system_port v io m
    else if port == 0x20
    then some (io, set_ram_disk_mode 2 v m)
    else if port == 0x21
    then some (io, set_ram_disk_mode 3 v m)
    else if port == 0x40
    then some (io, set_ram_disk_mode 4 v m)
    else if port == 0x41
    then some (io, set_ram_disk_mode 5 v m)
    else if port == 0x80
    then some (io, set_ram_disk_mode 6 v m)
    else if port == 0x81
    then some (io, set_ram_disk_mode 7 v m)
    else some (io, m)

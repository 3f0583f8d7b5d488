-- ===== src/Display/Fill.antt =====
-- The loops that draw pixels (libs/v6core/src/display.cpp).
use v6emul.Base.{
  ℕ, zero, suc, ◌+◌, ◌-◌, ◌/◌, ◌%◌, Bool, ◌&&◌, ◌||◌, ◌==◌, if◌then◌else◌, u64, Option, none, some,
}
use v6emul.Io.{Io}
use v6emul.Display.{
  frame_len, scan_active_area_top, active_area_h, rasterized_pxls_max, scroll_commit_pxl, Display,
  Scene, raster_line, raster_pixel, entry_color, screen_bytes, color_idx_256, color_idx_512,
  put_pixel, commit_pixel,
}

-- `FillBorder`, `n` pixels left
unfoldable pub fill_border : ℕ → Scene → Option Scene
fill_border zero s = some s
fill_border (suc n) s = elim (put_pixel (entry_color s.io.brd_color_idx s.io) s) [
  | none ↦ none
  | some s' ↦ fill_border n s'
]

-- what `FillBorderPortHandling` does after a pixel: the frame may end, and the interrupt is raised
abbrev pub end_of_pixel : Scene → Scene
end_of_pixel s =
    let d = s.disp in
    let idx = d.fb_idx % frame_len in
    let d1 = record d { fb_idx = idx; irq = d.irq || idx == d.irq_commit_pxl } in
    record s {
      disp =
          if d.fb_idx / frame_len == 0
          then d1
          else record d1 { frame_num = u64 (d1.frame_num + 1); back = d1.frame };
    }

-- `FillBorderPortHandling`
unfoldable pub border_pixel : Scene → Option Scene
border_pixel s = elim (commit_pixel s.io.brd_color_idx s) [
  | none ↦ none
  | some s1 ↦ elim (put_pixel (entry_color s1.io.brd_color_idx s1.io) s1) [
    | none ↦ none
    | some s2 ↦ some (end_of_pixel s2)
  ]
]

unfoldable pub fill_border_ports : ℕ → Scene → Option Scene
fill_border_ports zero s = some s
fill_border_ports (suc n) s = elim (border_pixel s) [
  | none ↦ none
  | some s' ↦ fill_border_ports n s'
]

-- the line of the screen memory that is drawn
abbrev pub scrolled_line : Display → ℕ
scrolled_line d =
    (raster_line d - scan_active_area_top + (255 - d.scroll_idx) + active_area_h) % active_area_h
    + scan_active_area_top

-- the scroll register is taken over at one pixel of the first line
abbrev pub take_scroll : ℕ → Scene → Scene
take_scroll line s =
    if line == scan_active_area_top && raster_pixel s.disp == scroll_commit_pxl
    then record s { disp = record (s.disp) { scroll_idx = s.io.port_a } }
    else s

-- One mode of the active area: the colour index of a pixel, and whether its byte ends after the
-- pixel with this number of the call.
pub data Mode : Type 0 where
  mode_256 mode_512 : Mode

abbrev pub color_idx : Mode → ℕ → ℕ → ℕ
color_idx mode_256 bytes bit = color_idx_256 bytes bit
color_idx mode_512 bytes bit = color_idx_512 bytes bit

-- the first bit, and the next one: `zero` after the last
abbrev pub first_bit : Mode → Display → ℕ
first_bit mode_256 d = 7 - (d.fb_idx - d.border_left) % rasterized_pxls_max / 2
first_bit mode_512 d = 15 - (d.fb_idx - d.border_left) % rasterized_pxls_max

abbrev pub byte_ends : Mode → ℕ → ℕ → Bool
byte_ends mode_256 i bit = bit == 0 && i % 2 == 1
byte_ends mode_512 i bit = bit == 0

abbrev pub next_bit : Mode → ℕ → ℕ → ℕ
next_bit mode_256 i bit = if byte_ends mode_256 i bit then 7 else bit - i % 2
next_bit mode_512 i bit = if byte_ends mode_512 i bit then 15 else bit - 1

-- the loops of `FillActiveArea256` and `FillActiveArea512` from pixel `i` on, `n` of them left
unfoldable pub active_loop : Mode → ℕ → ℕ → ℕ → ℕ → ℕ → Scene → Option Scene
active_loop mode zero i line bytes bit s = some s
active_loop mode (suc n) i line bytes bit s =
    elim (put_pixel (entry_color (color_idx mode bytes bit) s.io) s) [
      | none ↦ none
      | some s' ↦
          active_loop mode n (i + 1) line
            (if byte_ends mode i bit then screen_bytes line (raster_pixel s'.disp) s' else bytes)
            (next_bit mode i bit) s'
    ]

unfoldable pub fill_active : Mode → ℕ → Scene → Option Scene
fill_active mode n s =
    let line = scrolled_line s.disp in
    active_loop mode n 0 line (screen_bytes line (raster_pixel s.disp) s) (first_bit mode s.disp) s

-- one pixel of `FillActiveArea256PortHandling` and `FillActiveArea512PortHandling`
unfoldable pub active_pixel : Mode → ℕ → ℕ → ℕ → Scene → Option Scene
active_pixel mode raster bytes bit s =
    elim (commit_pixel (color_idx mode bytes bit) (take_scroll raster s)) [
      | none ↦ none
      | some s1 ↦ put_pixel (entry_color (color_idx mode bytes bit) s1.io) s1
    ]

-- their loops; the next byte is read at the place of the pixel that is drawn
unfoldable pub active_ports_loop : Mode → ℕ → ℕ → ℕ → ℕ → ℕ → ℕ → Scene → Option Scene
active_ports_loop mode zero i raster line bytes bit s = some s
active_ports_loop mode (suc n) i raster line bytes bit s =
    elim (active_pixel mode raster bytes bit s) [
      | none ↦ none
      | some s' ↦
          active_ports_loop mode n (i + 1) raster line
            (if byte_ends mode i bit then screen_bytes line (raster_pixel s.disp) s' else bytes)
            (next_bit mode i bit) s'
    ]

unfoldable pub fill_active_ports : Mode → ℕ → Scene → Option Scene
fill_active_ports mode n s =
    let line = scrolled_line s.disp in
    active_ports_loop mode n 0 (raster_line s.disp) line (screen_bytes line (raster_pixel s.disp) s)
      (first_bit mode s.disp) s

abbrev pub mode_of : Io → Mode
mode_of io = if io.display_mode then mode_512 else mode_256

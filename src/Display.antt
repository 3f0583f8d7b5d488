-- ===== src/Display.antt =====
-- The rasterizer `Display` (libs/v6core/include/core/display.h, libs/v6core/src/display.cpp). Frame
-- buffers are functions from pixels. `none` is a fault: a pixel outside the frame buffer, or one of
-- the disk controller in a write that is committed. The lock, the pixel format and the cropped copy
-- for the window are left out.
pub mod Fill
pub mod Raster
pub mod Safe
pub mod Position
pub mod Frames
use v6emul.Base.{
  ℕ, ◌+◌, ◌-◌, ◌*◌, ◌/◌, ◌%◌, ◌^◌, bit_and, bit_or, Bool, false, ltb, ◌==◌, if◌then◌else◌, u16,
  update, Option, none, some,
}
use v6emul.Memory.{Memory, get_screen_bytes}
use v6emul.Io.{Io}
use v6emul.Io.Access.{try_to_commit}

abbrev pub frame_w : ℕ
frame_w = 768

-- FRAME_W * FRAME_H
abbrev pub frame_len : ℕ
frame_len = 239616

abbrev pub scan_active_area_top : ℕ
scan_active_area_top = 40

abbrev pub active_area_w : ℕ
active_area_w = 512

abbrev pub active_area_h : ℕ
active_area_h = 256

abbrev pub rasterized_pxls_max : ℕ
rasterized_pxls_max = 16

abbrev pub scroll_commit_pxl : ℕ
scroll_commit_pxl = 131

abbrev pub scroll_default : ℕ
scroll_default = 0xff

pub record Display : Type 0 where
  pub frame_num : ℕ
  pub irq : Bool
  pub fb_idx : ℕ
  pub scroll_idx : ℕ
  pub frame : ℕ → ℕ
  pub back : ℕ → ℕ
  pub border_left : ℕ
  pub irq_commit_pxl : ℕ

-- The display with what it reads and commits.
pub record Scene : Type 0 where
  pub disp : Display
  pub io : Io
  pub mem : Memory

-- `Reset`
unfoldable pub reset_display : Display → Display
reset_display d = record d {
  frame_num = 0;
  irq = false;
  fb_idx = 0;
  scroll_idx = scroll_default;
  frame = λ i. 0xff000000;
}

-- `GetRasterLine` and `GetRasterPixel`
abbrev pub raster_line : Display → ℕ
raster_line d = d.fb_idx / frame_w

abbrev pub raster_pixel : Display → ℕ
raster_pixel d = d.fb_idx % frame_w

-- `VectorColorToArgb`
abbrev pub vector_color_to_argb : ℕ → ℕ
vector_color_to_argb v = 0xff000000 + v % 8 * 2 ^ 5 + v / 8 % 8 * 2 ^ 13 + v / 64 % 4 * 2 ^ 22

-- the colour of a palette entry
abbrev pub entry_color : ℕ → Io → ℕ
entry_color idx io = vector_color_to_argb (io.palette idx)

-- `GetScreenBytes`
abbrev pub screen_bytes : ℕ → ℕ → Scene → ℕ
screen_bytes line pixel s =
    let addr_high = (pixel - s.disp.border_left) / rasterized_pxls_max in
    let addr_low = active_area_h - 1 - (line - scan_active_area_top) in
    get_screen_bytes s.mem (u16 (bit_or (addr_high * 256) addr_low))

-- `BytesToColorIdx256` and `BytesToColorIdx512`
abbrev pub color_idx_256 : ℕ → ℕ → ℕ
color_idx_256 bytes bit =
    bit_or
      (bit_or (bit_or (bit_and (bytes / 2 ^ bit) 1) (bit_and (bytes / 2 ^ (bit + 7)) 2))
        (bit_and (bytes / 2 ^ (bit + 14)) 4))
      (bit_and (bytes / 2 ^ (bit + 21)) 8)

abbrev pub color_idx_512 : ℕ → ℕ → ℕ
color_idx_512 bytes pxl =
    let bit = pxl / 2 in
    if pxl % 2 == 1
    then bit_or (bit_and (bytes / 2 ^ bit) 1) (bit_and (bytes / 2 ^ (bit + 7)) 2)
    else bit_or (bit_and (bytes / 2 ^ (bit + 16)) 1) (bit_and (bytes / 2 ^ (bit + 23)) 2) * 4

-- `m_frameBuffer[framebufferIdx++] = color`
unfoldable pub put_pixel : ℕ → Scene → Option Scene
put_pixel color s =
    if ltb s.disp.fb_idx frame_len
    then some (record s {
      disp = record (s.disp) {
        frame = update s.disp.frame s.disp.fb_idx color;
        fb_idx = s.disp.fb_idx + 1;
      };
    })
    else none

-- `TryToCommit` of the ports
abbrev pub commit_pixel : ℕ → Scene → Option Scene
commit_pixel color_idx s = elim (try_to_commit color_idx s.io s.mem) [
  | none ↦ none
  | some (io, m) ↦ some (record s { io = io; mem = m })
]

-- ===== src/Display/Raster.antt =====
-- The choice of what is drawn (libs/v6core/src/display.cpp).
use v6emul.Base.{
  ℕ, ◌+◌, ◌-◌, min, Bool, false, not, ◌&&◌, ◌||◌, leb, ltb, ◌==◌, if◌then◌else◌, Option, none, some,
}
use v6emul.Io.Access.{is_positive8}
use v6emul.Display.{
  scan_active_area_top, active_area_w, active_area_h, rasterized_pxls_max, Display, Scene,
  raster_line, raster_pixel,
}
use v6emul.Display.Fill.{fill_border, fill_border_ports, fill_active, fill_active_ports, mode_of}

-- `RasterizeActiveArea`: commits are near, or the scroll register is taken over
abbrev pub is_commit_near : Scene → Bool
is_commit_near s =
    (is_positive8 s.io.out_commit_timer || is_positive8 s.io.palette_commit_timer)
    || raster_line s.disp == scan_active_area_top
      && ltb (raster_pixel s.disp) (s.disp.border_left + rasterized_pxls_max)

unfoldable pub rasterize_active_area : ℕ → Scene → Option Scene
rasterize_active_area n s =
    if is_commit_near s
    then fill_active_ports (mode_of s.io) n s
    else fill_active (mode_of s.io) n s

-- `RasterizeBorder`, whose test of the timers is `int8_t >= 0`
abbrev pub is_nonnegative8 : ℕ → Bool
is_nonnegative8 t = ltb t 128

abbrev pub is_border_commit : Scene → Bool
is_border_commit s =
    (is_nonnegative8 s.io.out_commit_timer || is_nonnegative8 s.io.palette_commit_timer)
    || raster_line s.disp == 0
    || raster_line s.disp == 311

unfoldable pub rasterize_border : ℕ → Scene → Option Scene
rasterize_border n s = if is_border_commit s then fill_border_ports n s else fill_border n s

-- the two parts of `Rasterize`, the second if pixels are left over
abbrev pub then_rest : ℕ → (ℕ → Scene → Option Scene) → Option Scene → Option Scene
then_rest n rest none = none
then_rest n rest (some s) =
    if ltb n rasterized_pxls_max then rest (rasterized_pxls_max - n) s else some s

abbrev pub is_active_scan : Display → Bool
is_active_scan d =
    leb scan_active_area_top (raster_line d)
    && ltb (raster_line d) (scan_active_area_top + active_area_h)

abbrev pub active_right : Display → ℕ
active_right d = d.border_left + active_area_w

abbrev pub is_active_area : Display → Bool
is_active_area d =
    is_active_scan d && leb d.border_left (raster_pixel d) && ltb (raster_pixel d) (active_right d)

-- the pixels of the first part
abbrev pub active_part : Display → ℕ
active_part d = min (active_right d - raster_pixel d) rasterized_pxls_max

abbrev pub border_part : Display → ℕ
border_part d =
    if not (is_active_scan d) || leb (active_right d) (raster_pixel d)
    then rasterized_pxls_max
    else min (d.border_left - raster_pixel d) rasterized_pxls_max

-- `Rasterize`
unfoldable pub rasterize : Scene → Option Scene
rasterize s0 =
    let s = record s0 { disp = record (s0.disp) { irq = false } } in
    if is_active_area s.disp
    then then_rest (active_part s.disp) rasterize_border
        (rasterize_active_area (active_part s.disp) s)
    else then_rest (border_part s.disp) rasterize_active_area
        (rasterize_border (border_part s.disp) s)

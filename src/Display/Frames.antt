-- ===== src/Display/Frames.antt =====
-- One call of `Rasterize`, and the calls of a frame (libs/v6core/src/display.cpp).
use v6emul.Base.{
  ℕ, ◌+◌, ◌*◌, ◌/◌, ◌%◌, ◌≤◌, ◌<◌, ◌≡◌, refl, sym, ◌∙◌, ap, subst, arith, Bool, true, false, ◌==◌,
  ltb, leb, if◌then◌else◌, Option,
}
use v6emul.Display.{Display, Scene}
use v6emul.Display.Fill.{
  Mode, fill_border, fill_border_ports, fill_active, fill_active_ports, mode_of,
}
use v6emul.Display.Raster.{
  rasterize_active_area, rasterize_border, rasterize, then_rest, is_active_area, active_part,
  border_part, is_commit_near, is_border_commit,
}
use v6emul.Display.Position.{
  IsAt, Reaches, same_reach, place_after, frames_after, passes, fill_border-IsAt, fill_ports-IsAt,
  active_loop-IsAt, active_ports_loop-IsAt,
}

either-Reaches :
    (b : Bool) (o o' : Option Scene) (idx : ℕ) (irq : Bool) (num : ℕ)
    → (b ≡ true → Reaches idx irq num o)
    → (b ≡ false → Reaches idx irq num o')
    → Reaches idx irq num (if b then o else o')
either-Reaches true o o' idx irq num h h' = h refl
either-Reaches false o o' idx irq num h h' = h' refl

no_rest :
    (n idx : ℕ) (irq : Bool) (num : ℕ) (rest part : ℕ → Scene → Option Scene) (s : Scene)
    → n ≡ 16
    → Reaches idx irq num (part 16 s)
    → Reaches idx irq num (then_rest n rest (part n s))
no_rest n idx irq num rest part s e (s', r, h) =
    subst (λ x. Reaches idx irq num (then_rest x rest (part x s))) (sym e)
      (s', ap (then_rest 16 rest) r, h)

fill_active-IsAt :
    (mode : Mode) (idx num : ℕ) (s : Scene)
    → IsAt idx false num s
    → idx + 16 ≤ 239616
    → Reaches (idx + 16) false num (fill_active mode 16 s)
unfolding fill_active
fill_active-IsAt mode idx num s h le = active_loop-IsAt mode 16 0 _ _ _ idx false num s h le

fill_active_ports-IsAt :
    (mode : Mode) (idx num : ℕ) (s : Scene)
    → IsAt idx false num s
    → idx + 16 ≤ 239616
    → Reaches (idx + 16) false num (fill_active_ports mode 16 s)
unfolding fill_active_ports
fill_active_ports-IsAt mode idx num s h le =
    active_ports_loop-IsAt mode 16 0 _ _ _ _ idx false num s h le

active_area-IsAt :
    (idx : ℕ) (num : ℕ) (s : Scene)
    → IsAt idx false num s
    → idx + 16 ≤ 239616
    → Reaches (idx + 16) false num (rasterize_active_area 16 s)
unfolding rasterize_active_area
active_area-IsAt idx num s h le =
    either-Reaches (is_commit_near s) (fill_active_ports (mode_of s.io) 16 s)
      (fill_active (mode_of s.io) 16 s) (idx + 16) false num
      (λ b. fill_active_ports-IsAt (mode_of s.io) idx num s h le)
      (λ b. fill_active-IsAt (mode_of s.io) idx num s h le)

border-IsAt :
    (idx : ℕ) (num : ℕ) (s : Scene)
    → IsAt idx false num s
    → idx < 239616
    → idx + 16 ≤ 239616
    → Reaches (place_after idx 16) (passes idx 16) (frames_after idx 16 num) (rasterize_border 16 s)
unfolding rasterize_border
border-IsAt idx num s h small le =
    either-Reaches (is_border_commit s) (fill_border_ports 16 s) (fill_border 16 s)
      (place_after idx 16) (passes idx 16) (frames_after idx 16 num)
      (λ b. fill_ports-IsAt 16 idx false num s h small le)
      (λ b.
        let line : s.disp.fb_idx / 768 ≡ idx / 768 = ap (λ x. x / 768) (h.place) in
        let first : (idx / 768 == 0) ≡ false = ground (arith, b, line) in
        let final : (idx / 768 == 311) ≡ false = ground (arith, b, line) in
        same_reach (idx + 16) (place_after idx 16) false (passes idx 16) num
          (frames_after idx 16 num) _ (ground (arith, final, le)) (ground (arith, first))
          (ground (arith, final, le)) (fill_border-IsAt 16 idx false num s h le))

-- the parts of a call that starts at a multiple of 16
module _ (k : ℕ) (d : Display) (place : d.fb_idx ≡ 16 * k) (left : d.border_left ≡ 128) where
  active_lines :
      is_active_area d ≡ true
      → (leb 40 (16 * k / 768) ≡ true) × (ltb (16 * k / 768) 296 ≡ true) × (active_part d ≡ 16)
  active_lines b =
      let line : d.fb_idx / 768 ≡ 16 * k / 768 = ap (λ x. x / 768) place in
      let pixel : d.fb_idx % 768 ≡ k % 48 * 16 = ap (λ x. x % 768) place ∙ omega arith in
      (ground (arith, b, line), ground (arith, b, line), ground (arith, b, pixel, left))

  border_pixels : is_active_area d ≡ false → border_part d ≡ 16
  border_pixels b =
      let pixel : d.fb_idx % 768 ≡ k % 48 * 16 = ap (λ x. x % 768) place ∙ omega arith in
      ground (arith, b, pixel, left)

-- With the standard border and interrupt pixel, and the last write to a port not to one of the disk
-- controller, committed or not, `Rasterize` at a multiple of 16 pixels ends 16 pixels on, or at 0
-- after the last of the frame, without a fault. The interrupt line is then on exactly if the call
-- began at pixel 96, and the frames are one more, on 64 bits, exactly after the last call of a
-- frame.
pub rasterize-IsAt :
    (k num : ℕ) (irq : Bool) (s : Scene)
    → IsAt (16 * k) irq num s
    → k < 14976
    → Reaches (place_after (16 * k) 16) (k == 6) (frames_after (16 * k) 16 num) (rasterize s)
unfolding rasterize
rasterize-IsAt k num irq s0 h0 small =
    let s : Scene = record s0 { disp = record (s0.disp) { irq = false } } in
    let h : IsAt (16 * k) false num s = record {
      place = h0.place;
      line_irq = refl;
      frames = h0.frames;
      left_border = h0.left_border;
      irq_pixel = h0.irq_pixel;
      safe = h0.safe;
    } in
    let at = place_after (16 * k) 16 in
    let count = frames_after (16 * k) 16 num in
    either-Reaches (is_active_area s.disp) _ _ at (k == 6) count
      (λ b.
        let (top, bottom, n) = active_lines k s.disp (h0.place) (h0.left_border) b in
        no_rest (active_part s.disp) at (k == 6) count rasterize_border rasterize_active_area s n (
          same_reach (16 * k + 16) at false (k == 6) num count _ (ground (arith, bottom, small))
            (ground (arith, top)) (ground (arith, bottom, small))
            (active_area-IsAt (16 * k) num s h (omega (arith, small)))))
      (λ b.
        no_rest (border_part s.disp) at (k == 6) count rasterize_active_area rasterize_border s
          (border_pixels k s.disp (h0.place) (h0.left_border) b)
          (same_reach at at (passes (16 * k) 16) (k == 6) count count _ refl (ground arith) refl
            (border-IsAt (16 * k) num s h (omega (arith, small)) (omega (arith, small)))))

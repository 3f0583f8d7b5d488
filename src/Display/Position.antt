-- ===== src/Display/Position.antt =====
-- The place of the raster and the interrupt line (libs/v6core/src/display.cpp).
use v6emul.Base.{
  ℕ, zero, suc, ◌+◌, ◌%◌, ◌≤◌, ◌<◌, ◌≡◌, refl, sym, ◌∙◌, ap, ap₂, subst, arith, Bool, true, false,
  ◌&&◌, ◌||◌, ◌==◌, ltb, leb, if◌then◌else◌, u64, update, Option, none, some, Bool-cases, inl, inr,
}
use mathlib.Core.Option.{none-ne-some, some-injective}
use v6emul.Memory.{Memory}
use v6emul.Io.{Io}
use v6emul.Io.Ports.{is_port}
use v6emul.Display.{Scene, frame_len, put_pixel, commit_pixel}
use v6emul.Display.Fill.{
  Mode, fill_border, border_pixel, fill_border_ports, end_of_pixel, active_loop, active_pixel,
  take_scroll, active_ports_loop,
}
use v6emul.Display.Safe.{commit_IsSafe}

-- The raster is at a pixel of the frame, with the standard border and interrupt, and the port that was
-- written last is not one of the disk controller.
pub record IsAt (idx : ℕ) (irq : Bool) (num : ℕ) (s : Scene) : Type 0 where
  pub place : s.disp.fb_idx ≡ idx
  pub line_irq : s.disp.irq ≡ irq
  pub frames : s.disp.frame_num ≡ num
  pub left_border : s.disp.border_left ≡ 128
  pub irq_pixel : s.disp.irq_commit_pxl ≡ 112
  pub safe : is_port 0x18 0x1c s.io.outport ≡ false

-- a run that ends there
abbrev pub Reaches : ℕ → Bool → ℕ → Option Scene → Type 0
Reaches idx irq num o = (s : Scene) × (o ≡ some s) × IsAt idx irq num s

put_pixel-IsAt :
    (color idx : ℕ) (irq : Bool) (num : ℕ) (s : Scene)
    → IsAt idx irq num s
    → idx < 239616
    → Reaches (idx + 1) irq num (put_pixel color s)
unfolding put_pixel
put_pixel-IsAt color idx irq num s h small =
    let inside : ltb s.disp.fb_idx frame_len ≡ true = ground (arith, h.place, small) in
    let drawn : Scene = record s {
      disp = record (s.disp) {
        frame = update s.disp.frame s.disp.fb_idx color;
        fb_idx = s.disp.fb_idx + 1;
      };
    } in
    (
      drawn,
      ap (λ b. if b then some drawn else none) inside,
      record {
        place = ap (λ i. i + 1) (h.place);
        line_irq = h.line_irq;
        frames = h.frames;
        left_border = h.left_border;
        irq_pixel = h.irq_pixel;
        safe = h.safe;
      },
    )

abbrev with_ports : Scene → Option (Io × Memory) → Option Scene
with_ports s o = elim o [ none ↦ none | some (io, m) ↦ some (record s { io = io; mem = m }) ]

commit_pixel-IsAt :
    (c idx : ℕ) (irq : Bool) (num : ℕ) (s : Scene)
    → IsAt idx irq num s
    → Reaches idx irq num (commit_pixel c s)
commit_pixel-IsAt c idx irq num s h =
    let (io', m', e, same) = commit_IsSafe c s.io s.mem h.safe in
    (
      record s { io = io'; mem = m' },
      ap (with_ports s) e,
      record {
        place = h.place;
        line_irq = h.line_irq;
        frames = h.frames;
        left_border = h.left_border;
        irq_pixel = h.irq_pixel;
        safe = ap (is_port 0x18 0x1c) same ∙ h.safe;
      },
    )

-- one run after another
then-Reaches :
    (idx : ℕ) (irq : Bool) (num : ℕ) (o : Option Scene) (next : Scene → Option Scene) (idx' : ℕ)
    (irq' : Bool) (num' : ℕ)
    → Reaches idx irq num o
    → ((s : Scene) → IsAt idx irq num s → Reaches idx' irq' num' (next s))
    → Reaches idx' irq' num' (elim o [ none ↦ none | some s ↦ next s ])
then-Reaches idx irq num none next idx' irq' num' (s, e, h) k = absurd (none-ne-some s e)
then-Reaches idx irq num (some s0) next idx' irq' num' (s, e, h) k =
    k s0 (subst (IsAt idx irq num) (sym (some-injective s0 s e)) h)

pub moved_to :
    (a b : ℕ) (irq : Bool) (num : ℕ) (o : Option Scene)
    → a ≡ b
    → Reaches a irq num o
    → Reaches b irq num o
moved_to a b irq num o e r = subst (λ x. Reaches x irq num o) e r

-- the loops over pixels of the active area, and of a border inside the frame
pub active_loop-IsAt :
    (mode : Mode) (n i line bytes bit idx : ℕ) (irq : Bool) (num : ℕ) (s : Scene)
    → IsAt idx irq num s
    → idx + n ≤ 239616
    → Reaches (idx + n) irq num (active_loop mode n i line bytes bit s)
unfolding active_loop
active_loop-IsAt mode zero i line bytes bit idx irq num s h le =
    moved_to idx (idx + 0) irq num _ (omega arith) (s, refl, h)
active_loop-IsAt mode (suc n) i line bytes bit idx irq num s h le =
    moved_to (idx + 1 + n) (idx + suc n) irq num _ (omega arith) (
      then-Reaches (idx + 1) irq num _ _ (idx + 1 + n) irq num
        (put_pixel-IsAt _ idx irq num s h (omega (arith, le)))
        (λ s' h'.
          active_loop-IsAt mode n (i + 1) line _ _ (idx + 1) irq num s' h' (omega (arith, le))))

take_scroll-IsAt :
    (line idx : ℕ) (irq : Bool) (num : ℕ) (s : Scene)
    → IsAt idx irq num s
    → IsAt idx irq num (take_scroll line s)
take_scroll-IsAt line idx irq num s h =
    elim (Bool-cases (line == 40 && s.disp.fb_idx % 768 == 131)) [
      | inl e ↦ simp (e) (record {
        place = h.place;
        line_irq = h.line_irq;
        frames = h.frames;
        left_border = h.left_border;
        irq_pixel = h.irq_pixel;
        safe = h.safe;
      })
      | inr e ↦ simp (e) h
    ]

active_pixel-IsAt :
    (mode : Mode) (raster bytes bit idx : ℕ) (irq : Bool) (num : ℕ) (s : Scene)
    → IsAt idx irq num s
    → idx < 239616
    → Reaches (idx + 1) irq num (active_pixel mode raster bytes bit s)
unfolding active_pixel
active_pixel-IsAt mode raster bytes bit idx irq num s h small =
    then-Reaches idx irq num _ _ (idx + 1) irq num
      (commit_pixel-IsAt _ idx irq num (take_scroll raster s)
        (take_scroll-IsAt raster idx irq num s h))
      (λ s' h'. put_pixel-IsAt _ idx irq num s' h' small)

pub active_ports_loop-IsAt :
    (mode : Mode) (n i raster line bytes bit idx : ℕ) (irq : Bool) (num : ℕ) (s : Scene)
    → IsAt idx irq num s
    → idx + n ≤ 239616
    → Reaches (idx + n) irq num (active_ports_loop mode n i raster line bytes bit s)
unfolding active_ports_loop
active_ports_loop-IsAt mode zero i raster line bytes bit idx irq num s h le =
    moved_to idx (idx + 0) irq num _ (omega arith) (s, refl, h)
active_ports_loop-IsAt mode (suc n) i raster line bytes bit idx irq num s h le =
    moved_to (idx + 1 + n) (idx + suc n) irq num _ (omega arith) (
      then-Reaches (idx + 1) irq num _ _ (idx + 1 + n) irq num
        (active_pixel-IsAt mode raster bytes bit idx irq num s h (omega (arith, le)))
        (λ s' h'.
          active_ports_loop-IsAt mode n (i + 1) raster line _ _ (idx + 1) irq num s' h'
            (omega (arith, le))))

pub fill_border-IsAt :
    (n idx : ℕ) (irq : Bool) (num : ℕ) (s : Scene)
    → IsAt idx irq num s
    → idx + n ≤ 239616
    → Reaches (idx + n) irq num (fill_border n s)
unfolding fill_border
fill_border-IsAt zero idx irq num s h le =
    moved_to idx (idx + 0) irq num _ (omega arith) (s, refl, h)
fill_border-IsAt (suc n) idx irq num s h le =
    moved_to (idx + 1 + n) (idx + suc n) irq num _ (omega arith) (
      then-Reaches (idx + 1) irq num _ _ (idx + 1 + n) irq num
        (put_pixel-IsAt _ idx irq num s h (omega (arith, le)))
        (λ s' h'. fill_border-IsAt n (idx + 1) irq num s' h' (omega (arith, le))))

-- the interrupt is raised when the raster comes to pixel 112
abbrev pub passes : ℕ → ℕ → Bool
passes idx n = leb idx 111 && leb 112 (idx + n)

-- the place and the count of frames after `n` pixels, up to the end of the frame
abbrev pub place_after : ℕ → ℕ → ℕ
place_after idx n = if idx + n == 239616 then 0 else idx + n

abbrev pub frames_after : ℕ → ℕ → ℕ → ℕ
frames_after idx n num = if idx + n == 239616 then u64 (num + 1) else num

ended :
    (idx : ℕ) (irq : Bool) (num : ℕ) (s : Scene)
    → IsAt (idx + 1) irq num s
    → idx < 239616
    → IsAt (place_after idx 1) (irq || idx == 111) (frames_after idx 1 num) (end_of_pixel s)
ended idx irq num s h small =
    let d = s.disp in
    let hits : (d.fb_idx % 239616 == d.irq_commit_pxl) ≡ (idx == 111) =
      ground (arith, h.place, h.irq_pixel, small) in
    record {
      place = ground (arith, h.place, small);
      line_irq = ground (arith, ap₂ (λ a b. a || b) (h.line_irq) hits);
      frames = ground (arith, h.place, h.frames, small);
      left_border = ground (arith, h.left_border);
      irq_pixel = ground (arith, h.irq_pixel);
      safe = h.safe;
    }

border_pixel-IsAt :
    (idx : ℕ) (irq : Bool) (num : ℕ) (s : Scene)
    → IsAt idx irq num s
    → idx < 239616
    → Reaches (place_after idx 1) (irq || idx == 111) (frames_after idx 1 num) (border_pixel s)
unfolding border_pixel
border_pixel-IsAt idx irq num s h small =
    then-Reaches idx irq num _ _ (place_after idx 1) (irq || idx == 111) (frames_after idx 1 num)
      (commit_pixel-IsAt _ idx irq num s h)
      (λ s1 h1.
        then-Reaches (idx + 1) irq num _ _ (place_after idx 1) (irq || idx == 111)
          (frames_after idx 1 num) (put_pixel-IsAt _ idx irq num s1 h1 small)
          (λ s2 h2. (end_of_pixel s2, refl, ended idx irq num s2 h2 small)))

pub same_reach :
    (a b : ℕ) (p q : Bool) (x y : ℕ) (o : Option Scene)
    → a ≡ b
    → p ≡ q
    → x ≡ y
    → Reaches a p x o
    → Reaches b q y o
same_reach a b p q x y o e f g r =
    subst (λ a. Reaches a q y o) e
      (subst (λ p. Reaches a p y o) f (subst (λ x. Reaches a p x o) g r))

pub fill_ports-IsAt :
    (n idx : ℕ) (irq : Bool) (num : ℕ) (s : Scene)
    → IsAt idx irq num s
    → idx < 239616
    → idx + n ≤ 239616
    → Reaches
        (place_after idx n)
        (irq || passes idx n)
        (frames_after idx n num)
        (fill_border_ports n s)
unfolding fill_border_ports
fill_ports-IsAt zero idx irq num s h small le =
    same_reach idx (place_after idx 0) irq (irq || passes idx 0) num (frames_after idx 0 num) _
      (ground (arith, small)) (ground arith) (ground (arith, small)) (s, refl, h)
fill_ports-IsAt (suc zero) idx irq num s h small le =
    then-Reaches (place_after idx 1) (irq || idx == 111) (frames_after idx 1 num) _ _ _ _ _
      (border_pixel-IsAt idx irq num s h small)
      (λ s' h'.
        same_reach (place_after idx 1) (place_after idx 1) (irq || idx == 111) (irq || passes idx 1)
          (frames_after idx 1 num) (frames_after idx 1 num) _ refl (ground arith) refl
          (s', refl, h'))
fill_ports-IsAt (suc (suc n)) idx irq num s h small le =
    let inner : place_after idx 1 ≡ idx + 1 = ground (arith, le) in
    let count : frames_after idx 1 num ≡ num = ground (arith, le) in
    then-Reaches (idx + 1) (irq || idx == 111) num _ _ _ _ _
      (same_reach (place_after idx 1) (idx + 1) (irq || idx == 111) (irq || idx == 111)
        (frames_after idx 1 num) num _ inner refl count (border_pixel-IsAt idx irq num s h small))
      (λ s' h'.
        same_reach (place_after (idx + 1) (suc n)) (place_after idx (suc (suc n)))
          (irq || idx == 111 || passes (idx + 1) (suc n)) (irq || passes idx (suc (suc n)))
          (frames_after (idx + 1) (suc n) num) (frames_after idx (suc (suc n)) num) _ (ground arith)
          (ground arith) (ground arith)
          (fill_ports-IsAt (suc n) (idx + 1) (irq || idx == 111) num s' h' (omega (arith, le))
            (omega (arith, le))))

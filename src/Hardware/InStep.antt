-- ===== src/Hardware/InStep.antt =====
-- The display in step with the CPU (libs/v6core/src/hardware.cpp): 16 pixels in each machine cycle.
use v6emul.Base.{
  ℕ, suc, ◌+◌, ◌*◌, ◌/◌, ◌%◌, ◌^◌, ◌<◌, ◌≡◌, sym, ap, ◌∙◌, arith, Bool, false, ◌==◌, Option, some,
  >>=-some, u64, subst,
}
use mathlib.Core.Option.{some-injective}
use v6emul.Cpu.State.{Machine}
use v6emul.Cpu.Step.{execute_machine_cycle}
use v6emul.Io.{Io}
use v6emul.Io.Access.{io_bus}
use v6emul.Io.Ports.{is_port}
use v6emul.Display.{Scene}
use v6emul.Display.Raster.{rasterize}
use v6emul.Display.Position.{IsAt, place_after, frames_after}
use v6emul.Display.Frames.{rasterize-IsAt}
use v6emul.Hardware.{Hardware, Outside}
use v6emul.Hardware.Loop.{scene_of, machine_cycle, cycle_cpu}
use v6emul.Hardware.Passes.{machine_cycle-Cycled}

module _ {A : Type 0} (out : Outside A) where
  -- machine cycles, none of which leaves a write to the disk controller as the last one
  pub data Shows : ℕ → Hardware A → Hardware A → Type 0 where
    here : (hw : Hardware A) → Shows 0 hw hw
    shown :
        (n : ℕ) (hw hw' last : Hardware A)
        → machine_cycle out hw ≡ some hw'
        → is_port 0x18 0x1c hw'.io.outport ≡ false
        → Shows n hw' last
        → Shows (suc n) hw last

  -- One machine cycle draws 16 pixels.
  machine_cycle-IsAt :
      (k num : ℕ) (irq : Bool) (hw hw' : Hardware A)
      → machine_cycle out hw ≡ some hw'
      → is_port 0x18 0x1c hw'.io.outport ≡ false
      → IsAt (16 * k) irq num (scene_of hw)
      → k < 14976
      → IsAt (place_after (16 * k) 16) (k == 6) (frames_after (16 * k) 16 num) (scene_of hw')
  unfolding machine_cycle cycle_cpu
  machine_cycle-IsAt k num irq hw hw' h quiet at small =
      let (s, scanned, rest) = >>=-some (rasterize (scene_of hw)) _ hw' h in
      let (s', ends, there) = rasterize-IsAt k num irq (scene_of hw) at small in
      let start : Machine (Option Io) = record { cpu = hw.cpu; mem = s.mem; io = some s.io } in
      let (m, cycle, more) = >>=-some (execute_machine_cycle io_bus s.disp.irq start) _ hw' rest in
      let (io, ports, same) = >>=-some m.io _ hw' more in
      let drawn : hw'.disp ≡ s'.disp =
        ap (λ d. d.disp) (sym (some-injective _ hw' same))
        ∙ ap (λ r. r.disp) (some-injective s s' (sym scanned ∙ ends)) in
      record {
        place = ap (λ d. d.fb_idx) drawn ∙ there.place;
        line_irq = ap (λ d. d.irq) drawn ∙ there.line_irq;
        frames = ap (λ d. d.frame_num) drawn ∙ there.frames;
        left_border = ap (λ d. d.border_left) drawn ∙ there.left_border;
        irq_pixel = ap (λ d. d.irq_commit_pxl) drawn ∙ there.irq_pixel;
        safe = quiet;
      }

  same_place :
      (a b n c : ℕ) (irq : Bool) (s : Scene) → a ≡ b → n ≡ c → IsAt a irq n s → IsAt b irq c s
  same_place a b n c irq s e f at = subst (λ i. IsAt i irq c s) e (subst (λ i. IsAt a irq i s) f at)

  -- From a display with the standard border and interrupt pixel, 16k pixels into a frame with k
  -- below 14976, with counts of 64 bits, where the last write to a port is not to the disk
  -- controller: after n machine cycles without a fault, none of which leaves such a write as the
  -- last one, 4n clock cycles have passed and the display is 16n pixels on, with a frame counted
  -- for each 14976 machine cycles, on 64 bits.
  pub Shows-IsAt :
      {n : ℕ} {hw last : Hardware A} (k num : ℕ) (irq : Bool)
      → IsAt (16 * k) irq num (scene_of hw)
      → k < 14976
      → num < 2 ^ 64
      → hw.cpu.cc < 2 ^ 64
      → Shows n hw last
      → ((line : Bool) × IsAt
            (16 * ((k + n) % 14976))
            line
            (u64 (num + (k + n) / 14976))
            (scene_of last))
        × (last.cpu.cc ≡ u64 (hw.cpu.cc + 4 * n))
  Shows-IsAt k num irq at small count clock (here hw) = (
    (
      irq,
      same_place _ _ _ _ irq (scene_of hw) (omega (arith, small)) (omega (arith, small, count)) at,
    ),
    omega (arith, clock),
  )
  Shows-IsAt k num irq at small count clock (shown m hw hw' last h quiet steps) =
      let next = machine_cycle-IsAt k num irq hw hw' h quiet at small in
      let k' = (k + 1) % 14976 in
      let num' = u64 (num + (k + 1) / 14976) in
      let moved =
        same_place _ (16 * k') _ num' _ _ (ground (arith, small)) (ground (arith, small, count))
          next in
      let time = (machine_cycle-Cycled out hw hw' h).clock in
      let ((line, there), later) =
        Shows-IsAt k' num' (k == 6) moved (omega arith) (omega arith) (omega (arith, time)) steps in
      (
        (line, same_place _ _ _ _ line (scene_of last) (omega arith) (omega arith) there),
        omega (arith, later, time),
      )

-- ===== src/Tests/Devices.antt =====
-- Concrete runs of the timer, the ports and the sample buffer.
use v6emul.Base.{
  ℕ, ◌≡◌, refl, arith, true, false, some, [], ◌∷◌, ◌++◌, ◌*◌, ◌==◌, update, replicate,
}
use v6emul.Keyboard.{new_keyboard}
use v6emul.Timer.{reset_counter}
use v6emul.Timer.Access.{new_timer}
use v6emul.Timer.Counting.{outputs, programmed}
use v6emul.Timer.Counting
use v6emul.Fdc.{new_fdc}
use v6emul.Ay.{init_ay}
use v6emul.Audio.Sources.{Sources, ay_clocks, sources_ticks}
use v6emul.Audio.Ticks.{timer_clocks, chip_samples}
use v6emul.Audio.Ticks
use v6emul.Io.{Io}
use v6emul.Io.Access.{port_out}
use v6emul.Io.Commit.{ticks, last}
use v6emul.Io.Commit
use v6emul.Audio.{Audio, FloatOps}
use v6emul.Audio.Queue.{IsFit, RefinesQueue}
use v6emul.Audio.Queue
use v6emul.Display.{Scene}
use v6emul.Display.Raster.{rasterize}
use v6emul.Display.Position.{Reaches, place_after, frames_after}
use v6emul.Display.Frames
use v6emul.Tests.{memory}

-- a count of three
outputs-programmed_example : outputs 6 (programmed 3 0 reset_counter) ≡ replicate 5 0 ++ (1 ∷ [])
outputs-programmed_example = Counting.outputs-programmed 3 0 2 reset_counter refl (omega arith)

abbrev pub ports : Io
ports = record {
  palette = λ i. 0;
  cw = 8;
  port_a = 0xff;
  port_b = 0xff;
  port_c = 0xff;
  cw2 = 0;
  port_a2 = 0xff;
  port_b2 = 0xff;
  port_c2 = 0xff;
  ruslat_history = 0;
  outport = 0;
  outbyte = 0;
  out_commit_timer = 0;
  palette_commit_timer = 0;
  display_mode_timer = 3;
  joy0 = 0xff;
  joy1 = 0xff;
  hw_color = 0;
  req_display_mode = true;
  brd_color_idx = 0;
  display_mode = false;
  ruslat = 0;
  ports_in = λ i. 0;
  ports_out = λ i. 0;
  palette_time = 5;
  keyboard = new_keyboard;
  timer = new_timer;
  ay = init_ay;
  fdc = new_fdc;
}

palette-port_out_example :
    (io' : Io) × (ticks (1 ∷ 1 ∷ 2 ∷ 2 ∷ 3 ∷ []) (port_out 0x0c 0x55 ports) (memory 0)
      ≡ some (io', memory 0))
    × (io'.palette ≡ update ports.palette 3 0x55)
    × (io'.palette_commit_timer ≡ 0)
    × (io'.out_commit_timer ≡ 0)
palette-port_out_example =
    Commit.palette-port_out 0x0c 0x55 1 (1 ∷ 2 ∷ 2 ∷ 3 ∷ []) ports (memory 0) refl refl
      (omega arith)

-- numbers for samples, and three of them waiting across the end of the buffer
abbrev plain_ops : FloatOps ℕ
plain_ops = record { none_yet = 0; full = 1; plus = λ x y. x; times = λ x y. x; over = λ x n. x }

abbrev waiting : Audio ℕ
waiting = record {
  buffer = λ i. i;
  read_idx = 3998;
  write_idx = 4001;
  mute_mul = 1;
  inited = true;
  downsample_rate = 30;
  sample_counter = 0;
  accumulator = 0;
}

waiting-IsFit : IsFit waiting
waiting-IsFit = record { in_order = omega arith; in_buffer = omega arith; no_wrap = omega arith }

queue-RefinesQueue_example : RefinesQueue plain_ops waiting
queue-RefinesQueue_example = Queue.queue-RefinesQueue plain_ops waiting waiting-IsFit

-- the pixels before the interrupt
abbrev pub scene : Scene
scene = record {
  disp = record {
    frame_num = 9;
    irq = false;
    fb_idx = 96;
    scroll_idx = 0xff;
    frame = λ i. 0;
    back = λ i. 0;
    border_left = 128;
    irq_commit_pxl = 112;
  };
  io = ports;
  mem = memory 0;
}

rasterize-IsAt_example :
    Reaches (place_after (16 * 6) 16) (6 == 6) (frames_after (16 * 6) 16 9) (rasterize scene)
rasterize-IsAt_example =
    Frames.rasterize-IsAt 6 9 false scene
      (record {
        place = refl;
        line_irq = refl;
        frames = refl;
        left_border = refl;
        irq_pixel = refl;
        safe = refl;
      })
      (omega arith)

abbrev sources : Sources
sources = record { timer = new_timer; ay = init_ay; ay_accu = 90 }

sources_ticks-clocks_example :
    ((sources_ticks 7 1 sources).1.timer ≡ timer_clocks 7 new_timer)
    × ((sources_ticks 7 1 sources).1.ay ≡ (ay_clocks 1 init_ay).1)
    × ((sources_ticks 7 1 sources).1.ay_accu ≡ 92)
    × (chip_samples (sources_ticks 7 1 sources).0 ≡ (ay_clocks 1 init_ay).0)
sources_ticks-clocks_example = Ticks.sources_ticks-clocks 7 1 sources (omega arith)

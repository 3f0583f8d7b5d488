-- ===== src/Tests/Machines.antt =====
-- Concrete runs of the machine: an address to step over to, and a run with a reset.
use v6emul.Base.{length, ℕ, ◌+◌, ◌*◌, Bool, ◌≡◌, refl, arith, true, false, none, some, [], ◌∷◌}
use v6emul.Cpu.Ops.{Op}
use v6emul.Cpu.Decode.{decode_op}
use v6emul.Cpu.Tables.{get_instr_type, get_instr_len}
use v6emul.Cpu.Control
use v6emul.Cpu.Step.{execute_instruction, execute_machine_cycle, exec}
use v6emul.Io.Access.{try_to_commit}
use v6emul.Display.{put_pixel}
use v6emul.Display.Raster.{rasterize, rasterize_border}
use v6emul.Display.Fill.{fill_border_ports, border_pixel}
use v6emul.Memory.{get_byte, byte_at}
use v6emul.Hardware.Loop.{cycle_cpu, machine_cycle}
use v6emul.Hardware.{Hardware, Outside, stop_status, run, stop, reset_hardware}
use v6emul.Hardware.Headless.{Limits}
use v6emul.Hardware.Headless.Ends
use v6emul.Hardware.InStep.{here, shown}
use v6emul.Hardware.InStep
use v6emul.Hardware.StepOver
use v6emul.Io.Ports.{is_port}
use v6emul.Display.Position.{IsAt}
use v6emul.Hardware.Loop.{scene_of}
use v6emul.Hardware.StepOver.Reached
use v6emul.Hardware.Counters.{Runs, was_reset, cycled, ended}
use v6emul.Hardware.Counters
use v6emul.Tests.{memory, machine, machine-IsReady, registers, bus}
use v6emul.Tests.Devices.{ports, scene}
use mathlib.Core.Option

-- JP, the sign being minus
execute_instruction-step_over_example :
    Option.map
      (λ m. m.cpu.pc)
      (execute_instruction bus (false ∷ false ∷ false ∷ false ∷ false ∷ false ∷ []) (machine 0xf2))
    ≡ some 0x1237
unfolding decode_op get_byte byte_at StepOver.get_step_over_addr StepOver.step_addr
    StepOver.step_kind StepOver.branch_kind get_instr_type get_instr_len
execute_instruction-step_over_example =
    Reached.execute_instruction-step_over bus (Op.jmp _) (machine 0xf2) false false false false
      false false [] (machine-IsReady 0xf2 (omega arith)) refl refl (λ e. omega (arith, e)) refl
      refl

-- a count of the samples
abbrev counting : Outside ℕ
counting = record {
  mix = λ samples n. n + length samples;
  reset = λ n. 0;
  pause = λ p n. n;
  notice = λ q n. n;
}

abbrev idle : Hardware ℕ
idle = record {
  status = stop_status;
  cpu = registers;
  disp = scene.disp;
  io = ports;
  mem = memory 0;
  ay_accu = 90;
  outside = 0;
  cycle_offset = 1000;
  frame_offset = 7;
  run_start_cycles = 0;
  last_run_cycles = 0;
  stop_sequence = 2;
  stop_record = none;
  debug_attached = false;
}

abbrev ran : Hardware ℕ
ran = elim (machine_cycle counting (run counting idle)) [ none ↦ idle | some hw ↦ hw ]

ran-machine_cycle : machine_cycle counting (run counting idle) ≡ some ran
unfolding machine_cycle rasterize run rasterize_border fill_border_ports border_pixel try_to_commit
    put_pixel cycle_cpu execute_machine_cycle decode_op exec Control.rst
ran-machine_cycle = refl

quiet_port : is_port 0x18 0x1c ran.io.outport ≡ false
unfolding machine_cycle rasterize run rasterize_border fill_border_ports border_pixel try_to_commit
    put_pixel cycle_cpu execute_machine_cycle decode_op exec Control.rst
quiet_port = refl

-- the seventh pass of the first line
Shows-IsAt_example : ((line : Bool) × IsAt (16 * 7) line 9 (scene_of ran)) × (ran.cpu.cc ≡ 404)
unfolding run
Shows-IsAt_example =
    InStep.Shows-IsAt counting 6 9 false
      (record {
        place = refl;
        line_irq = refl;
        frames = refl;
        left_border = refl;
        irq_pixel = refl;
        safe = refl;
      })
      (omega arith) (omega arith) (omega arith)
      (shown 0 (run counting idle) ran ran ran-machine_cycle quiet_port (here ran))

stop-last_run_example : (stop counting true (reset_hardware counting ran)).last_run_cycles ≡ 4
stop-last_run_example =
    Counters.stop-last_run counting true 1 idle (reset_hardware counting ran) refl (
      cycled 0 (run counting idle) ran (reset_hardware counting ran) ran-machine_cycle
        (was_reset 0 ran (reset_hardware counting ran) (ended (reset_hardware counting ran))))

abbrev limits : Limits
limits = record { halt_exit = true; max_frames = 0; max_cycles = 59904 }

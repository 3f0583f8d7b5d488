-- ===== src/Hardware.antt =====
-- `Hardware` (libs/v6core/src/hardware.cpp): the machine with its display, ports and memory, and the state
-- that a run, a stop and a reset change. The sample buffer and the debugger are a parameter, with what
-- the machine tells them. The thread, the delays, the JSON of requests and the trigger in a stop
-- record are left out.
pub mod Loop
pub mod StepOver
pub mod InStep
pub mod Passes
pub mod Headless
pub mod Counters
use v6emul.Base.{ℕ, ◌+◌, ◌-◌, ◌%◌, ◌^◌, Bool, true, false, Option, some, List, if◌then◌else◌, u64}
use v6emul.Memory.{Memory, ram, get_global_addr, restart}
use v6emul.Memory
use v6emul.Cpu.State.{Cpu}
use v6emul.Cpu.Reset
use v6emul.Io.{Io, init_io}
use v6emul.Audio.Sources.{Sources, RawSample, reset_sources}
use v6emul.Display.{Display, reset_display}

-- `Status`
pub data Status : Type 0 where
  run_status stop_status exit_status : Status

-- the reasons that the machine itself gives for a stop
pub data Reason : Type 0 where
  pause step frame_step exception script : Reason

-- the record of a stop, but for its trigger
pub record StopRecord : Type 0 where
  pub sequence : ℕ
  pub reason : Reason
  pub pc : ℕ
  pub global_instruction_address : ℕ

-- `Hardware`, over the state of the samples and the debugger; `ay_accu` is the one of `AYWrapper`
pub record Hardware (A : Type 0) : Type 0 where
  pub status : Status
  pub cpu : Cpu
  pub disp : Display
  pub io : Io
  pub mem : Memory
  pub ay_accu : ℕ
  pub outside : A
  pub cycle_offset : ℕ
  pub frame_offset : ℕ
  pub run_start_cycles : ℕ
  pub last_run_cycles : ℕ
  pub stop_sequence : ℕ
  pub stop_record : Option StopRecord
  pub debug_attached : Bool

-- the requests that the machine makes of the debugger
pub data Notice : Type 0 where
  cancel_code_perf_samples reset_trace_history invalidate_trace_log_filter : Notice

-- The sample buffer of `Audio`, which mixes raw samples and is reset and paused, and the debugger.
pub record Outside (A : Type 0) : Type 0 where
  pub mix : List RawSample → A → A
  pub reset : A → A
  pub pause : Bool → A → A
  pub notice : Notice → A → A

abbrev is_run : Status → Bool
is_run run_status = true
is_run status = false

-- the timer and the chip of `Audio` are those of the ports
abbrev pub sources_of : ℕ → Io → Sources
sources_of accu io = record { timer = io.timer; ay = io.ay; ay_accu = accu }

module _ {A : Type 0} where
  -- `GetTotalCycles`, `GetTotalFrames`
  abbrev pub get_total_cycles : Hardware A → ℕ
  get_total_cycles hw = u64 (hw.cycle_offset + hw.cpu.cc)

  abbrev pub get_total_frames : Hardware A → ℕ
  get_total_frames hw = u64 (hw.frame_offset + hw.disp.frame_num)

  -- `RecordStop`
  unfoldable pub record_stop : Reason → Hardware A → Hardware A
  record_stop reason hw =
      let sequence = u64 (hw.stop_sequence + 1) in
      record hw {
        stop_sequence = sequence;
        stop_record = some (record {
          sequence = sequence;
          reason = reason;
          pc = hw.cpu.pc;
          global_instruction_address = get_global_addr hw.mem hw.cpu.pc ram;
        });
      }

  -- `Init`
  unfoldable pub init_hardware : Hardware A → Hardware A
  init_hardware hw = record hw {
    mem = Memory.init hw.mem;
    disp = reset_display hw.disp;
    io = init_io hw.io;
  }

  -- the counters of `Reset` and `Restart`
  unfoldable pub add_offsets : Hardware A → Hardware A
  add_offsets hw = record hw {
    cycle_offset = get_total_cycles hw;
    frame_offset = get_total_frames hw;
  }

  module _ (out : Outside A) where
    -- `Run`
    unfoldable pub run : Hardware A → Hardware A
    run hw = record hw {
      run_start_cycles = if is_run hw.status then hw.run_start_cycles else get_total_cycles hw;
      status = run_status;
      outside = out.pause false hw.outside;
    }

    -- `Stop`
    unfoldable pub stop : Bool → Hardware A → Hardware A
    stop recorded hw =
        let stopped = record hw {
          last_run_cycles =
              if is_run hw.status
              then (get_total_cycles hw + 2 ^ 64 - hw.run_start_cycles) % 2 ^ 64
              else hw.last_run_cycles;
          status = stop_status;
          outside = out.notice invalidate_trace_log_filter (out.pause true hw.outside);
        } in
        if recorded then record_stop pause stopped else stopped

    -- `StopForScript`
    unfoldable pub stop_for_script : Hardware A → Hardware A
    stop_for_script hw = record_stop script (stop false hw)

    -- what `Reset` and `Restart` reset both
    unfoldable pub reset_devices : Hardware A → Hardware A
    reset_devices hw =
        let sources = reset_sources (sources_of hw.ay_accu hw.io) in
        record hw {
          cpu = Reset.reset hw.cpu;
          disp = reset_display hw.disp;
          io = record (hw.io) { timer = sources.timer; ay = sources.ay };
          ay_accu = sources.ay_accu;
          outside = out.reset hw.outside;
        }

    -- the debugger is told
    unfoldable pub tell_reset : Hardware A → Hardware A
    tell_reset hw = record hw {
      outside = out.notice reset_trace_history (out.notice cancel_code_perf_samples hw.outside);
    }

    -- `Reset`
    unfoldable pub reset_hardware : Hardware A → Hardware A
    reset_hardware hw = tell_reset (reset_devices (init_hardware (add_offsets hw)))

    -- `Restart`
    unfoldable pub restart_hardware : Hardware A → Hardware A
    restart_hardware hw =
        let devices = reset_devices (add_offsets hw) in
        tell_reset (record devices { mem = restart devices.mem })

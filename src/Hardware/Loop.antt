-- ===== src/Hardware/Loop.antt =====
-- `ExecuteInstruction` (libs/v6core/src/hardware.cpp): the machine cycles of an instruction, with the
-- display, the ports, the memory and the sound, and what follows them. The debugger's check of an
-- instruction and the handling of a request are parameters. `none` is a fault of the display, the ports
-- or an opcode.
use v6emul.Base.{
  ℕ, zero, suc, ◌%◌, Bool, true, false, ◌||◌, Option, none, some, ◌>>=◌, ◌==◌, if◌then◌else◌,
}
use v6emul.Memory.{init_ram_disk_mapping, is_exception}
use v6emul.Memory
use v6emul.Cpu.Step.{execute_machine_cycle}
use v6emul.Io.Access.{io_bus}
use v6emul.Display.{Scene}
use v6emul.Display.Raster.{rasterize}
use v6emul.Audio.Sources.{sources_ticks}
use v6emul.Hardware.{sources_of, Hardware, Outside, exception, record_stop}

-- how a loop ends: a fault is one of the display, the ports or an opcode
pub data Outcome (R : Type 0) : Type 0 where
  finished : R → Outcome R
  fault out_of_fuel : Outcome R

-- a pass that may fault, and then the rest
abbrev pub or_fault : {R S : Type 0} → Option R → (R → Outcome S) → Outcome S
or_fault none f = fault
or_fault (some x) f = f x

abbrev pub and_then : {R S : Type 0} → Outcome R → (R → Outcome S) → Outcome S
and_then (finished x) f = f x
and_then fault f = fault
and_then out_of_fuel f = out_of_fuel

-- the test at the end of a pass
abbrev pub stop_or : {R : Type 0} → Bool → R → Outcome R → Outcome R
stop_or true x rest = finished x
stop_or false x rest = rest

module _ {A : Type 0} where
  abbrev pub scene_of : Hardware A → Scene
  scene_of hw = record { disp = hw.disp; io = hw.io; mem = hw.mem }

  module _ (out : Outside A) where
    -- the CPU and the sound of a machine cycle, after the display
    unfoldable pub cycle_cpu : Hardware A → Scene → Option (Hardware A)
    cycle_cpu hw s = do
      m ←
          execute_machine_cycle io_bus s.disp.irq
            (record { cpu = hw.cpu; mem = s.mem; io = some s.io })
      io ← m.io
      let (samples, sources) = sources_ticks 2 (io.port_c % 2) (sources_of hw.ay_accu io)
      some (record hw {
        cpu = m.cpu;
        disp = s.disp;
        io = record io { timer = sources.timer; ay = sources.ay };
        mem = m.mem;
        ay_accu = sources.ay_accu;
        outside = out.mix samples hw.outside;
      })

    -- one pass of the loop of `ExecuteInstruction`
    unfoldable pub machine_cycle : Hardware A → Option (Hardware A)
    machine_cycle hw = do s ← rasterize (scene_of hw); cycle_cpu hw s

    -- the loop, at most `fuel` passes
    unfoldable pub machine_cycles : ℕ → Hardware A → Outcome (Hardware A)
    machine_cycles zero hw = out_of_fuel
    machine_cycles (suc fuel) hw =
        or_fault (machine_cycle hw)
          λ hw'. stop_or (hw'.cpu.mc == 0 || hw'.cpu.hlta) hw' (machine_cycles fuel hw')

    -- the loop with its start
    abbrev pub instruction : Hardware A → Outcome (Hardware A)
    instruction hw = machine_cycles 6 (record hw { mem = Memory.debug_init hw.mem })

    -- what follows the loop: the debugger's call, then the collision of RAM disks, then a request
    unfoldable pub after_instruction :
        (Hardware A → Bool × Hardware A)
        → (Hardware A → Hardware A)
        → Hardware A
        → Bool × Hardware A
    after_instruction debug handle hw =
        let (breaks, seen) = if hw.debug_attached then debug hw else (false, hw) in
        let (collision, mem) = is_exception seen.mem in
        let tested = record seen { mem = mem } in
        if breaks
        then (true, seen)
        else if collision
        then (true, record_stop exception (record tested { mem = init_ram_disk_mapping mem }))
        else (false, handle tested)

    -- `ExecuteInstruction`: whether the execution breaks
    unfoldable pub execute_instruction_debug :
        (Hardware A → Bool × Hardware A)
        → (Hardware A → Hardware A)
        → Hardware A
        → Outcome (Bool × Hardware A)
    execute_instruction_debug debug handle hw =
        and_then (instruction hw) λ done. finished (after_instruction debug handle done)

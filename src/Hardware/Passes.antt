-- ===== src/Hardware/Passes.antt =====
-- What a machine cycle of the whole machine (libs/v6core/src/hardware.cpp) keeps and counts, and the
-- six passes that are enough for an instruction.
use v6emul.Base.{
  ℕ, zero, suc, ◌+◌, ◌*◌, ◌≤◌, ◌<◌, ◌≡◌, refl, arith, Bool, true, false, ◌||◌, ◌==◌, Option, none,
  some, >>=-some, subst, u64,
}
use mathlib.Core.Option.{some-injective}
use v6emul.Memory.{debug_init}
use v6emul.Cpu.State.{Machine}
use v6emul.Cpu.Step.{execute_machine_cycle}
use v6emul.Isa.Passes.{is_mid, Passed, execute_machine_cycle-Passed, execute_machine_cycle-clock}
use v6emul.Io.{Io}
use v6emul.Io.Access.{io_bus}
use v6emul.Display.Raster.{rasterize}
use v6emul.Hardware.{Hardware, Outside}
use v6emul.Hardware.Loop.{
  Outcome, finished, fault, out_of_fuel, or_fault, and_then, stop_or, scene_of, cycle_cpu,
  machine_cycle, machine_cycles, instruction,
}
use v6emul.Hardware.Headless.{}

-- The loop ends with a result as given, or with a fault.
abbrev pub Within : {R : Type 0} → (R → Type 0) → Outcome R → Type 0
Within P (finished r) = P r
Within P fault = Unit
Within P out_of_fuel = ⊥

Within-mono :
    {R : Type 0} {P Q : R → Type 0} (r : Outcome R)
    → ((x : R) → P x → Q x)
    → Within P r
    → Within Q r
Within-mono (finished x) f h = f x h
Within-mono fault f h = tt
Within-mono out_of_fuel f h = h

Within-or_fault :
    {R S : Type 0} (P : S → Type 0) (o : Option R) (f : R → Outcome S)
    → ((x : R) → o ≡ some x → Within P (f x))
    → Within P (or_fault o f)
Within-or_fault P none f h = tt
Within-or_fault P (some x) f h = h x refl

pub Within-and_then :
    {R S : Type 0} {P : R → Type 0} (Q : S → Type 0) (r : Outcome R) (f : R → Outcome S)
    → Within P r
    → ((x : R) → P x → Within Q (f x))
    → Within Q (and_then r f)
Within-and_then Q (finished x) f h g = g x h
Within-and_then Q fault f h g = tt
Within-and_then Q out_of_fuel f h g = absurd h

pub Within-stop_or :
    {R : Type 0} (P : R → Type 0) (b : Bool) (x : R) (rest : Outcome R)
    → (b ≡ true → P x)
    → (b ≡ false → Within P rest)
    → Within P (stop_or b x rest)
Within-stop_or P true x rest stops goes = stops refl
Within-stop_or P false x rest stops goes = goes refl

module _ {A : Type 0} (out : Outside A) where
  -- what one machine cycle does to the clock, the machine cycle and the state of the run
  pub record Cycled (hw hw' : Hardware A) : Type 0 where
    pub passed : is_mid hw.cpu ≡ true → Passed hw.cpu hw'.cpu
    pub clock : hw'.cpu.cc ≡ u64 (hw.cpu.cc + 4)
    pub offset : hw'.cycle_offset ≡ hw.cycle_offset
    pub status : hw'.status ≡ hw.status
    pub start : hw'.run_start_cycles ≡ hw.run_start_cycles

  pub machine_cycle-Cycled : (hw hw' : Hardware A) → machine_cycle out hw ≡ some hw' → Cycled hw hw'
  unfolding machine_cycle cycle_cpu
  machine_cycle-Cycled hw hw' h =
      let (s, shown, rest) = >>=-some (rasterize (scene_of hw)) _ hw' h in
      let start : Machine (Option Io) = record { cpu = hw.cpu; mem = s.mem; io = some s.io } in
      let (m, cycle, more) = >>=-some (execute_machine_cycle io_bus s.disp.irq start) _ hw' rest in
      let (io, ports, same) = >>=-some m.io _ hw' more in
      subst (Cycled hw) (some-injective _ hw' same) (record {
        passed = execute_machine_cycle-Passed io_bus s.disp.irq start m cycle;
        clock = execute_machine_cycle-clock io_bus s.disp.irq start m cycle;
        offset = refl;
        status = refl;
        start = refl;
      })

  -- An instruction takes one to six machine cycles, and ends between two of them.
  pub record Executed (most : ℕ) (hw hw' : Hardware A) : Type 0 where
    pub cycles : ℕ
    pub some_cycles : 0 < cycles
    pub few_cycles : cycles ≤ most
    pub time : hw'.cpu.cc ≡ u64 (hw.cpu.cc + 4 * cycles)
    pub between : is_mid hw'.cpu ≡ true

  one_more :
      (fuel : ℕ) (hw hw' last : Hardware A)
      → hw'.cpu.cc ≡ u64 (hw.cpu.cc + 4)
      → Executed fuel hw' last
      → Executed (suc fuel) hw last
  one_more fuel hw hw' last clock e = record {
    cycles = e.cycles + 1;
    some_cycles = omega arith;
    few_cycles = omega (arith, e.few_cycles);
    time = omega (arith, clock, e.time);
    between = e.between;
  }

  machine_cycles-Executed :
      (fuel : ℕ) (hw : Hardware A)
      → is_mid hw.cpu ≡ true
      → hw.cpu.mc < 6
      → 6 ≤ fuel + hw.cpu.mc
      → Within (Executed fuel hw) (machine_cycles out fuel hw)
  unfolding machine_cycles
  machine_cycles-Executed zero hw mid small enough = omega (arith, small, enough)
  machine_cycles-Executed (suc fuel) hw mid small enough =
      Within-or_fault _ (machine_cycle out hw) _ λ hw' e.
        let cycled = machine_cycle-Cycled hw hw' e in
        let passed = cycled.passed mid in
        Within-stop_or _ (hw'.cpu.mc == 0 || hw'.cpu.hlta) hw' (machine_cycles out fuel hw')
          (λ done. record {
            cycles = 1;
            some_cycles = omega arith;
            few_cycles = omega arith;
            time = cycled.clock;
            between = passed.mid;
          })
          λ on.
            let (next, below) = passed.goes_on on in
            Within-mono (machine_cycles out fuel hw')
              (λ last e. one_more fuel hw hw' last cycled.clock e)
              (machine_cycles-Executed fuel hw' passed.mid below (omega (arith, next, enough)))

  same_start :
      (hw start last : Hardware A)
      → start.cpu.cc ≡ hw.cpu.cc
      → Executed 6 start last
      → Executed 6 hw last
  same_start hw start last same e = record {
    cycles = e.cycles;
    some_cycles = e.some_cycles;
    few_cycles = e.few_cycles;
    time = omega (arith, e.time, same);
    between = e.between;
  }

  -- Six passes are enough for every instruction.
  pub instruction-Executed :
      (hw : Hardware A) → is_mid hw.cpu ≡ true → Within (Executed 6 hw) (instruction out hw)
  instruction-Executed hw mid =
      let start = record hw { mem = debug_init hw.mem } in
      Within-mono (machine_cycles out 6 start) (λ last e. same_start hw start last refl e)
        (machine_cycles-Executed 6 start mid (ground (arith, mid)) (omega arith))

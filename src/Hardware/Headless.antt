-- ===== src/Hardware/Headless.antt =====
-- `RunHeadless` (libs/v6core/src/hardware.cpp).
pub mod Ends
use v6emul.Base.{ℕ, zero, suc, ◌+◌, ◌-◌, ◌%◌, ◌^◌, Bool, true, false, ◌&&◌, ◌||◌, ltb, leb}
use v6emul.Cpu.State.{pair_psw, pair_bc, pair_de, pair_hl, get_word}
use v6emul.Hardware.{Hardware, Outside}
use v6emul.Hardware.Loop.{Outcome, finished, fault, out_of_fuel, and_then, stop_or, instruction}

-- the JSON of the request; 0 is no limit
pub record Limits : Type 0 where
  pub halt_exit : Bool
  pub max_frames : ℕ
  pub max_cycles : ℕ

-- the JSON of the answer
pub record HeadlessResult : Type 0 where
  pub cc : ℕ
  pub frames : ℕ
  pub halted : Bool
  pub pc : ℕ
  pub sp : ℕ
  pub af : ℕ
  pub bc : ℕ
  pub de : ℕ
  pub hl : ℕ

-- the difference of two counts of 64 bits
abbrev pub elapsed : ℕ → ℕ → ℕ
elapsed now start = (now + 2 ^ 64 - start) % 2 ^ 64

module _ {A : Type 0} (out : Outside A) (limits : Limits) (start_cc start_frame : ℕ) where
  -- the three checks after an instruction
  unfoldable pub is_over : Hardware A → Bool
  is_over hw =
      (limits.halt_exit && hw.cpu.hlta)
      || (ltb 0 limits.max_cycles && leb limits.max_cycles (elapsed hw.cpu.cc start_cc))
      || (ltb 0 limits.max_frames && leb limits.max_frames (elapsed hw.disp.frame_num start_frame))

  -- the loop, at most `fuel` instructions
  unfoldable pub headless_loop : ℕ → Hardware A → Outcome (Hardware A)
  headless_loop zero hw = out_of_fuel
  headless_loop (suc fuel) hw =
      and_then (instruction out hw) λ hw'. stop_or (is_over hw') hw' (headless_loop fuel hw')

module _ {A : Type 0} (out : Outside A) where
  unfoldable pub headless_result : Hardware A → Hardware A → HeadlessResult
  headless_result hw last = record {
    cc = elapsed last.cpu.cc hw.cpu.cc;
    frames = elapsed last.disp.frame_num hw.disp.frame_num;
    halted = last.cpu.hlta;
    pc = last.cpu.pc;
    sp = last.cpu.sp;
    af = get_word pair_psw last.cpu;
    bc = get_word pair_bc last.cpu;
    de = get_word pair_de last.cpu;
    hl = get_word pair_hl last.cpu;
  }

  -- `RunHeadless`
  unfoldable pub run_headless : Limits → ℕ → Hardware A → Outcome (HeadlessResult × Hardware A)
  run_headless limits fuel hw =
      and_then (headless_loop out limits hw.cpu.cc hw.disp.frame_num fuel hw)
        λ last. finished (headless_result hw last, last)

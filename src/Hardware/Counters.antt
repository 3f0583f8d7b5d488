-- ===== src/Hardware/Counters.antt =====
-- The counters of cycles: a reset loses none, and a run that is stopped has counted its own.
use v6emul.Base.{
  ℕ, suc, ◌+◌, ◌-◌, ◌*◌, ◌%◌, ◌^◌, ◌≡◌, refl, ap, ◌∙◌, arith, Bool, true, false, some,
  if◌then◌else◌, u64,
}
use v6emul.Cpu.Reset
use v6emul.Hardware.Loop.{machine_cycle}
use v6emul.Hardware.Passes.{machine_cycle-Cycled}
use v6emul.Hardware.{
  Hardware, Outside, is_run, get_total_cycles, run, stop, reset_devices, add_offsets, tell_reset,
  reset_hardware, restart_hardware, init_hardware, record_stop,
}

module _ {A : Type 0} (out : Outside A) where
  -- the machine cycles, resets and restarts of a run, the number of its machine cycles counted
  pub data Runs : ℕ → Hardware A → Hardware A → Type 0 where
    ended : (hw : Hardware A) → Runs 0 hw hw
    cycled :
        (n : ℕ) (hw hw' last : Hardware A)
        → machine_cycle out hw ≡ some hw'
        → Runs n hw' last
        → Runs (suc n) hw last
    was_reset :
        (n : ℕ) (hw last : Hardware A) → Runs n (reset_hardware out hw) last → Runs n hw last
    restarted :
        (n : ℕ) (hw last : Hardware A) → Runs n (restart_hardware out hw) last → Runs n hw last

  -- What a run keeps, and the cycles that it has counted.
  record Counted (n : ℕ) (hw last : Hardware A) : Type 0 where
    total : get_total_cycles last ≡ u64 (get_total_cycles hw + 4 * n)
    kept_status : last.status ≡ hw.status
    same_start : last.run_start_cycles ≡ hw.run_start_cycles

  machine_cycle-Counted : (hw hw' : Hardware A) → machine_cycle out hw ≡ some hw' → Counted 1 hw hw'
  machine_cycle-Counted hw hw' h =
      let cycled = machine_cycle-Cycled out hw hw' h in
      record {
        total = omega (arith, cycled.clock, cycled.offset);
        kept_status = cycled.status;
        same_start = cycled.start;
      }

  reset-Counted : (hw : Hardware A) → Counted 0 hw (reset_hardware out hw)
  unfolding reset_hardware reset_devices add_offsets tell_reset init_hardware Reset.reset
  reset-Counted hw = record { total = omega arith; kept_status = refl; same_start = refl }

  restart-Counted : (hw : Hardware A) → Counted 0 hw (restart_hardware out hw)
  unfolding restart_hardware reset_devices add_offsets tell_reset Reset.reset
  restart-Counted hw = record { total = omega arith; kept_status = refl; same_start = refl }

  then-Counted :
      {k n t : ℕ} {hw mid last : Hardware A}
      → Counted k hw mid
      → Counted n mid last
      → k + n ≡ t
      → Counted t hw last
  then-Counted a b sum = record {
    total = omega (arith, a.total, b.total, sum);
    kept_status = b.kept_status ∙ a.kept_status;
    same_start = b.same_start ∙ a.same_start;
  }

  Runs-Counted : {n : ℕ} {hw last : Hardware A} → Runs n hw last → Counted n hw last
  Runs-Counted (ended hw) = record { total = omega arith; kept_status = refl; same_start = refl }
  Runs-Counted (cycled n hw hw' last h r) =
      then-Counted (machine_cycle-Counted hw hw' h) (Runs-Counted r) (omega arith)
  Runs-Counted (was_reset n hw last r) =
      then-Counted (reset-Counted hw) (Runs-Counted r) (omega arith)
  Runs-Counted (restarted n hw last r) =
      then-Counted (restart-Counted hw) (Runs-Counted r) (omega arith)

  elapsed_lem :
      (hw last : Hardware A) (n : ℕ)
      → is_run hw.status ≡ false
      → Counted n (run out hw) last
      → (if is_run last.status
          then (get_total_cycles last + 2 ^ 64 - last.run_start_cycles) % 2 ^ 64
          else last.last_run_cycles)
        ≡ u64 (4 * n)
  unfolding run
  elapsed_lem hw last n idle counted =
      let on : is_run last.status ≡ true = ap is_run counted.kept_status in
      let start : last.run_start_cycles ≡ get_total_cycles hw =
        counted.same_start
        ∙ ap (λ b. if b then hw.run_start_cycles else get_total_cycles hw) idle in
      let total = counted.total in rw (on) (omega (arith, start, total))

  -- From a machine that is not running, after `Run` and n machine cycles, with any resets and
  -- restarts before, between and after them, `Stop` records 4n clock cycles for the run, modulo
  -- 2^64.
  pub stop-last_run :
      (recorded : Bool) (n : ℕ) (hw last : Hardware A)
      → is_run hw.status ≡ false
      → Runs n (run out hw) last
      → (stop out recorded last).last_run_cycles ≡ u64 (4 * n)
  unfolding stop run record_stop
  stop-last_run true n hw last idle r = elapsed_lem hw last n idle (Runs-Counted r)
  stop-last_run false n hw last idle r = elapsed_lem hw last n idle (Runs-Counted r)

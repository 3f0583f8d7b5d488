-- ===== src/DebugData/Laws.antt =====
-- The ids of the code performance records, and what a record samples.
use v6emul.Base.{
  ℕ, ◌+◌, ◌-◌, ◌<◌, ◌≤◌, ◌≡◌, ◌≢◌, refl, arith, true, false, not, ◌||◌, none, some, List, [], ◌∷◌,
  All, leb, ltb, ◌==◌, if-both,
}
use v6emul.DebugData.{}
use v6emul.DebugData.Perf.{CodePerf, Means, check_perf, cancel_sample, end_sample, max_test_count}

-- the instructions between two passages: the addresses and the clocks
unfoldable pub run_perf {ℓ} : {D : Type ℓ} → Means D → List (ℕ × ℕ) → CodePerf D → CodePerf D
run_perf means [] c = c
run_perf means ((addr, clock) ∷ rest) c = run_perf means rest (check_perf means addr clock c)

-- Every instruction of the list is at another address than the start and the end.
abbrev pub Elsewhere {ℓ} : {D : Type ℓ} → CodePerf D → List (ℕ × ℕ) → Type 0
Elsewhere c = All (λ step. (c.addr_start ≢ step.0) × (c.addr_end ≢ step.0))

module _ {ℓ} {D : Type ℓ} (means : Means D) where
  -- An instruction elsewhere changes nothing.
  check_perf-elsewhere :
      (c : CodePerf D) (addr clock : ℕ)
      → c.addr_start ≢ addr
      → c.addr_end ≢ addr
      → check_perf means addr clock c ≡ c
  unfolding check_perf
  check_perf-elsewhere c addr clock s e =
      let not_start : (c.addr_start == addr) ≡ false = ground (arith, s) in
      let not_end : (c.addr_end == addr) ≡ false = ground (arith, e) in
      rw (not_start, not_end)
        (if-both (λ r. r ≡ c) (not c.active || leb max_test_count c.test_count) refl refl)

  run_perf-Elsewhere :
      (steps : List (ℕ × ℕ)) (c : CodePerf D) → Elsewhere c steps → run_perf means steps c ≡ c
  unfolding run_perf
  run_perf-Elsewhere [] c h = refl
  run_perf-Elsewhere ((addr, clock) ∷ steps) c ((s, e), h) =
      rw (check_perf-elsewhere c addr clock s e) (run_perf-Elsewhere steps c h)

  check_perf-start :
      (c : CodePerf D) (clock : ℕ)
      → c.active ≡ true
      → c.test_count < max_test_count
      → check_perf means c.addr_start clock c ≡ record c { sample_start_clock = some clock }
  unfolding check_perf
  check_perf-start c clock a h =
      let here : (c.addr_start == c.addr_start) ≡ true = ground arith in
      let few : leb max_test_count c.test_count ≡ false = ground arith in rw (a, few, here) refl

  check_perf-end :
      (c : CodePerf D) (start clock : ℕ)
      → c.active ≡ true
      → c.test_count < max_test_count
      → c.addr_start ≢ c.addr_end
      → c.sample_start_clock ≡ some start
      → start ≤ clock
      → check_perf means c.addr_end clock c ≡ record c {
        sample_start_clock = none;
        test_count = c.test_count + 1;
        average_clock_cycles =
            means.sampled c.average_clock_cycles (clock - start) (c.test_count + 1);
      }
  unfolding check_perf end_sample cancel_sample
  check_perf-end c start clock a h other started later =
      let here : (c.addr_end == c.addr_end) ≡ true = ground arith in
      let there : (c.addr_start == c.addr_end) ≡ false = ground (arith, other) in
      let few : leb max_test_count c.test_count ≡ false = ground arith in
      let forward : ltb clock start ≡ false = ground arith in
      simp (a, few, here, there, started, forward)

  -- For an active record with fewer samples than the maximum and an end other than its start, a
  -- passage of the start, instructions at other addresses, and a passage of the end at a clock that
  -- is not earlier are one sample of the time between, and the record then waits for its start.
  pub run_perf-sample :
      (c : CodePerf D) (steps : List (ℕ × ℕ)) (start clock : ℕ)
      → c.active ≡ true
      → c.test_count < max_test_count
      → c.addr_start ≢ c.addr_end
      → Elsewhere c steps
      → start ≤ clock
      → check_perf means c.addr_end clock
          (run_perf means steps (check_perf means c.addr_start start c))
        ≡ record c {
          sample_start_clock = none;
          test_count = c.test_count + 1;
          average_clock_cycles =
              means.sampled c.average_clock_cycles (clock - start) (c.test_count + 1);
        }
  run_perf-sample c steps start clock a h other quiet later =
      let begun : CodePerf D = record c { sample_start_clock = some start } in
      rw (check_perf-start c start a h, run_perf-Elsewhere steps begun quiet)
        (check_perf-end begun start clock a h other refl later)

-- ===== src/DebugData/Perf.antt =====
-- A code performance record (libs/v6core/include/core/code_perf.h): the clock at the last passage of
-- its start, and the mean of the times from there to its end. The mean is a number of a type of its
-- own, since the arithmetic of `double` is not modelled.
use v6emul.Base.{
  ℕ, ◌+◌, ◌-◌, Bool, true, false, ◌&&◌, ◌||◌, not, Option, none, some, leb, ltb, ◌==◌,
  if◌then◌else◌,
}
use Prim.Native.String.{String}

-- MAX_TEST_COUNT, MAX_RECORDS
abbrev pub max_test_count : ℕ
max_test_count = 20000

abbrev pub max_records : ℕ
max_records = 256

-- `CodePerf`, over the type of the mean
pub record CodePerf {ℓ} (D : Type ℓ) : Type ℓ where
  pub name : String
  pub addr_start : ℕ
  pub addr_end : ℕ
  pub average_clock_cycles : D
  pub test_count : ℕ
  pub sample_start_clock : Option ℕ
  pub active : Bool

-- The mean that no sample has, and a mean changed by a time, the samples with it counted.
pub record Means {ℓ} (D : Type ℓ) : Type ℓ where
  pub nothing : D
  pub sampled : D → ℕ → ℕ → D

abbrev same_flag : Bool → Bool → Bool
same_flag true b = b
same_flag false b = not b

module _ {ℓ} {D : Type ℓ} (means : Means D) where
  -- `CancelSample`
  unfoldable pub cancel_sample : CodePerf D → CodePerf D
  cancel_sample c = record c { sample_start_clock = none }

  -- `ResetStatistics`
  unfoldable pub reset_statistics : CodePerf D → CodePerf D
  reset_statistics c = record c {
    average_clock_cycles = means.nothing;
    test_count = 0;
    sample_start_clock = none;
  }

  -- `Edit`
  unfoldable pub edit : CodePerf D → CodePerf D → CodePerf D
  edit new c =
      let named = record c { name = new.name } in
      let moved = record named { addr_start = new.addr_start; addr_end = new.addr_end } in
      let checked =
        if not (c.addr_start == new.addr_start && c.addr_end == new.addr_end)
        then reset_statistics moved
        else if same_flag c.active new.active
        then named
        else cancel_sample named in
      record checked { active = new.active }

  -- the end of a sample that has begun
  unfoldable pub end_sample : ℕ → ℕ → CodePerf D → CodePerf D
  end_sample start cc c =
      if ltb cc start
      then cancel_sample c
      else cancel_sample (record c {
        test_count = c.test_count + 1;
        average_clock_cycles = means.sampled c.average_clock_cycles (cc - start) (c.test_count + 1);
      })

  -- `CheckPerf`
  unfoldable pub check_perf : ℕ → ℕ → CodePerf D → CodePerf D
  check_perf addr cc c =
      if not c.active || leb max_test_count c.test_count
      then c
      else if c.addr_start == addr
      then record c { sample_start_clock = some cc }
      else if c.addr_end == addr
      then elim (c.sample_start_clock) [ none ↦ c | some start ↦ end_sample start cc c ]
      else c

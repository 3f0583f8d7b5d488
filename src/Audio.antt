-- ===== src/Audio.antt =====
-- The sample buffer `Audio` (libs/v6core/include/core/audio.h, libs/v6core/src/audio.cpp). The samples
-- and the `float` operations on them are parameters. `Clock` is given, for each tick, the sum of the
-- timer, the sound chip and the beeper. The static variables of `Downsample` are fields.
pub mod Queue
pub mod Sources
pub mod Ticks
use v6emul.Base.{
  ℕ, zero, suc, ◌+◌, ◌-◌, ◌%◌, ◌^◌, min, Bool, true, ltb, if◌then◌else◌, u64, update, List, [], ◌∷◌,
}

abbrev pub buffer_size : ℕ
buffer_size = 4000

-- INPUT_RATE / OUTPUT_RATE
abbrev pub downsample_default : ℕ
downsample_default = 30

-- What `Downsample` and the volume do with samples.
pub record FloatOps (S : Type 0) : Type 0 where
  pub none_yet : S
  pub full : S
  pub plus : S → S → S
  pub times : S → S → S
  pub over : S → ℕ → S

pub record Audio (S : Type 0) : Type 0 where
  pub buffer : ℕ → S
  pub read_idx : ℕ
  pub write_idx : ℕ
  pub mute_mul : S
  pub inited : Bool
  pub downsample_rate : ℕ
  pub sample_counter : ℕ
  pub accumulator : S

module _ {S : Type 0} (ops : FloatOps S) where
  -- `Mute`
  unfoldable pub mute : Bool → Audio S → Audio S
  mute on a = record a { mute_mul = if on then ops.none_yet else ops.full }

  -- `Reset`, of the buffer
  unfoldable pub reset_audio : Audio S → Audio S
  reset_audio a = record a {
    buffer = λ i. ops.none_yet;
    read_idx = 0;
    write_idx = 0;
    mute_mul = ops.full;
  }

  -- `Init`
  unfoldable pub init_audio : Audio S → Audio S
  init_audio a = record a { buffer = λ i. ops.none_yet; inited = true }

  -- `m_buffer[(m_writeBuffIdx++) % BUFFER_SIZE] = sample`
  unfoldable pub put_sample : S → Audio S → Audio S
  put_sample s a = record a {
    buffer = update a.buffer (a.write_idx % buffer_size) s;
    write_idx = u64 (a.write_idx + 1);
  }

  -- one tick of `Clock`, with `Downsample` in it
  unfoldable pub tick_audio : S → Audio S → Audio S
  tick_audio raw a =
      let total = ops.plus a.accumulator (ops.times raw a.mute_mul) in
      let count = a.sample_counter + 1 in
      if ltb a.downsample_rate count
      then put_sample (ops.over total a.downsample_rate)
          (record a { sample_counter = 0; accumulator = ops.none_yet })
      else record a { sample_counter = count; accumulator = total }

  -- the loop of `Clock`
  unfoldable pub run_ticks : List S → Audio S → Audio S
  run_ticks [] a = a
  run_ticks (s ∷ ss) a = run_ticks ss (tick_audio s a)

  unfoldable pub clock_audio : List S → Audio S → Audio S
  clock_audio ss a = if a.inited then run_ticks ss a else a

module _ {S : Type 0} where
  -- `GetAvailableSamples`
  abbrev pub available : Audio S → ℕ
  available a = (a.write_idx + 2 ^ 64 - a.read_idx) % 2 ^ 64 % 2 ^ 32

  -- the loop of `ReadSamples`
  unfoldable pub read_loop : ℕ → Audio S → List S × Audio S
  read_loop zero a = ([], a)
  read_loop (suc n) a =
      let (ss, a') = read_loop n (record a { read_idx = u64 (a.read_idx + 1) }) in
      (a.buffer (a.read_idx % buffer_size) ∷ ss, a')

  -- `ReadSamples`; a difference that is negative as an `int` reads nothing
  unfoldable pub read_samples : ℕ → Audio S → List S × Audio S
  read_samples max_samples a =
      let n = if ltb (available a) (2 ^ 31) then min (available a) max_samples else 0 in
      read_loop n a

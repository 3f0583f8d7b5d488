-- ===== src/Audio/Sources.antt =====
-- What `Audio::Clock` (libs/v6core/src/audio.cpp) does to the timer and the sound chip, through
-- `AYWrapper` (libs/v6core/include/core/sound_ay8910.h). The sum and the mean of their outputs are
-- `float`, and left to whom takes the raw samples. `m_inited` is set by the constructor.
use v6emul.Base.{ℕ, zero, suc, ◌+◌, ◌*◌, ◌/◌, ◌%◌, Option, List, [], ◌∷◌}
use v6emul.Timer.Access.{Timer, clock_timer, reset_timer}
use v6emul.Ay.{Ay, clock_ay, init_ay}

-- the timer and the chip, which the ports share, and `ayAccu`
pub record Sources : Type 0 where
  pub timer : Timer
  pub ay : Ay
  pub ay_accu : ℕ

-- the amplitudes of the three channels
abbrev pub AySample : Type 0
AySample = Option ℕ × Option ℕ × Option ℕ

-- what a tick mixes: the outputs of the three counters, the samples of the chip, and the beeper
pub record RawSample : Type 0 where
  pub counters : ℕ × ℕ × ℕ
  pub ay_samples : List AySample
  pub beeper : ℕ

-- the loop of `AYWrapper::Clock`, `n` times
unfoldable pub ay_clocks : ℕ → Ay → List AySample × Ay
ay_clocks zero ay = ([], ay)
ay_clocks (suc n) ay =
    let (sample, ay') = clock_ay ay in
    let (samples, ay'') = ay_clocks n ay' in (sample ∷ samples, ay'')

-- one tick of `Audio::Clock`: `m_timer.Clock(1)` and `m_aywrapper.Clock(2)`
unfoldable pub sources_tick : ℕ → Sources → RawSample × Sources
sources_tick beeper s =
    let (counters, timer) = clock_timer 1 s.timer in
    let accu = s.ay_accu + 7 * 2 in
    let (samples, ay) = ay_clocks (accu / 96) s.ay in
    (
      record { counters = counters; ay_samples = samples; beeper = beeper },
      record { timer = timer; ay = ay; ay_accu = accu % 96 },
    )

-- the loop of `Audio::Clock`
unfoldable pub sources_ticks : ℕ → ℕ → Sources → List RawSample × Sources
sources_ticks zero beeper s = ([], s)
sources_ticks (suc n) beeper s =
    let (sample, s') = sources_tick beeper s in
    let (samples, s'') = sources_ticks n beeper s' in (sample ∷ samples, s'')

-- `Audio::Reset`, of the timer and the chip; `ayAccu` stays
unfoldable pub reset_sources : Sources → Sources
reset_sources s = record s { timer = reset_timer s.timer; ay = init_ay }

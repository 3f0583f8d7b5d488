-- ===== src/Audio/Ticks.antt =====
-- The clocks of the timer and the sound chip over many ticks of `Audio::Clock`
-- (libs/v6core/src/audio.cpp, libs/v6core/include/core/sound_ay8910.h).
use v6emul.Base.{
  ℕ, zero, suc, ◌+◌, ◌*◌, ◌/◌, ◌%◌, ◌<◌, ◌≡◌, refl, ap, ◌∙◌, arith, List, [], ◌∷◌, ◌++◌,
}
use v6emul.Timer.Access.{Timer, clock_timer}
use v6emul.Ay.{Ay, clock_ay}
use v6emul.Audio.Sources.{Sources, AySample, RawSample, ay_clocks, sources_tick, sources_ticks}

abbrev pub timer_clocks : ℕ → Timer → Timer
timer_clocks zero t = t
timer_clocks (suc n) t = timer_clocks n (clock_timer 1 t).1

-- the samples of the chip in all ticks, one after the other
abbrev pub chip_samples : List RawSample → List AySample
chip_samples [] = []
chip_samples (sample ∷ samples) = sample.ay_samples ++ chip_samples samples

-- Clocks of the chip in two parts are all of them, with their samples in order.
ay_clocks-split :
    (a b k : ℕ) (ay : Ay)
    → a + b ≡ k
    → ((ay_clocks b (ay_clocks a ay).1).1 ≡ (ay_clocks k ay).1)
      × ((ay_clocks a ay).0 ++ (ay_clocks b (ay_clocks a ay).1).0 ≡ (ay_clocks k ay).0)
unfolding ay_clocks
ay_clocks-split zero b k ay h =
    let e : b ≡ k = omega (arith, h) in
    (ap (λ n. (ay_clocks n ay).1) e, ap (λ n. (ay_clocks n ay).0) e)
ay_clocks-split (suc a) b zero ay h = absurd (omega (arith, h))
ay_clocks-split (suc a) b (suc k) ay h =
    let (sample, ay') = clock_ay ay in
    let (state, samples) = ay_clocks-split a b k ay' (omega (arith, h)) in
    (state, ap (λ ss. sample ∷ ss) samples)

-- the clocks of the chip in one tick and in the others
clocks_split :
    (accu n : ℕ) → (accu + 14) / 96 + ((accu + 14) % 96 + 14 * n) / 96 ≡ (accu + 14 * suc n) / 96
clocks_split accu n = omega arith

accu_split : (accu n : ℕ) → ((accu + 14) % 96 + 14 * n) % 96 ≡ (accu + 14 * suc n) % 96
accu_split accu n = omega arith

-- In n ticks of `Audio::Clock`, from an accumulator below 96, the timer has n clocks of one cycle,
-- and the sound chip as many clocks as 96 goes into the accumulator and 14 for each tick, with the
-- rest left in the accumulator. The samples of the chip in all ticks, one after the other, are
-- those of these clocks: none is lost or twice.
pub sources_ticks-clocks :
    (n beeper : ℕ) (s : Sources)
    → s.ay_accu < 96
    → ((sources_ticks n beeper s).1.timer ≡ timer_clocks n s.timer)
      × ((sources_ticks n beeper s).1.ay ≡ (ay_clocks ((s.ay_accu + 14 * n) / 96) s.ay).1)
      × ((sources_ticks n beeper s).1.ay_accu ≡ (s.ay_accu + 14 * n) % 96)
      × (chip_samples (sources_ticks n beeper s).0 ≡ (ay_clocks ((s.ay_accu + 14 * n) / 96) s.ay).0)
unfolding sources_ticks sources_tick ay_clocks
sources_ticks-clocks zero beeper s h =
    let none_due : 0 ≡ (s.ay_accu + 14 * 0) / 96 = omega (arith, h) in
    (
      refl,
      ap (λ k. (ay_clocks k s.ay).1) none_due,
      omega (arith, h),
      ap (λ k. (ay_clocks k s.ay).0) none_due,
    )
sources_ticks-clocks (suc n) beeper s h =
    let (timer, ay, accu, samples) =
      sources_ticks-clocks n beeper (sources_tick beeper s).1 (omega arith) in
    let (state, all_samples) =
      ay_clocks-split ((s.ay_accu + 14) / 96) (((s.ay_accu + 14) % 96 + 14 * n) / 96)
        ((s.ay_accu + 14 * suc n) / 96) s.ay (clocks_split s.ay_accu n) in
    (
      timer,
      ay ∙ state,
      accu ∙ accu_split s.ay_accu n,
      ap (λ ss. (ay_clocks ((s.ay_accu + 14) / 96) s.ay).0 ++ ss) samples ∙ all_samples,
    )

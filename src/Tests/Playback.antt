-- ===== src/Tests/Playback.antt =====
-- Concrete runs of the recorder: two frames, in the first of which a cell is written twice.
use v6emul.Base.{ℕ, ◌≡◌, refl, arith, true, false, List, [], ◌∷◌, ◌==◌, if◌then◌else◌}
use v6emul.Recorder.{Recorder, Stage, Write, redo, play_forward, play_reverse}
use v6emul.Recorder.Replay.{Frames, Recorded, IsFrame}
use v6emul.Recorder.Replay
use v6emul.Recorder.Live.{record_all, ram_after, Happened}
use v6emul.Recorder.Live

abbrev first_write : Write
first_write = record { global_addr = 5; before = 0; after = 7 }

abbrev second_write : Write
second_write = record { global_addr = 5; before = 7; after = 9 }

-- the hardware is the number of its frame
abbrev tape : Recorder ℕ
tape = record {
  record_frames = 3000;
  state_idx = 1;
  state_recorded = 2;
  state_current = 1;
  last_record = false;
  states = λ i. record { hw = i; writes = if i == 1 then first_write ∷ second_write ∷ [] else [] };
  frame_num = 2;
}

abbrev stage : Stage ℕ
stage = record { cells = λ i. 0; hw = 1 }

play_reverse-play_forward_example : play_reverse 1 (play_forward 1 (tape, stage)) ≡ (tape, stage)
unfolding Frames Recorded
play_reverse-play_forward_example =
    Replay.play_reverse-play_forward 1 (tape, stage)
      (
        record {
          replaying = refl;
          more = omega arith;
          counted = omega arith;
          no_turn = omega arith;
          few = omega arith;
          same_hw = refl;
          wrote = (refl, (refl, tt));
        },
        tt,
      )

-- the start of the third frame
abbrev live : Recorder ℕ
live = record tape { state_idx = 2; state_current = 2; last_record = true; frame_num = 3 }

abbrev three_steps : List (List Write × ℕ)
three_steps = (first_write ∷ [], 10) ∷ ([], 11) ∷ (second_write ∷ [], 12) ∷ []

play_reverse-record_all_example :
    (play_reverse 1
      (record_all 3 three_steps live, record { cells = ram_after three_steps λ i. 0; hw = 12 })).1
    ≡ record { cells = λ i. 0; hw = 2 }
unfolding Happened Recorded redo
play_reverse-record_all_example =
    Live.play_reverse-record_all live (λ i. 0) three_steps 12 refl refl
      ((refl, tt), (tt, ((refl, tt), tt)))

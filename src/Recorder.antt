-- ===== src/Recorder.antt =====
-- The recorder (libs/v6core/src/recorder.cpp, libs/v6core/include/core/recorder.h): a ring with the
-- state of the hardware at the start of each frame and the writes of the frame, with what they wrote
-- over. The states of the CPU, the memory mapping, the ports and the display are one type, `H`; the
-- frame buffers, the file and the copy `m_ram` for it are left out. Three lists of equal length are
-- one list of writes. `m_stateIdx - 1` is on 64 bits before the remainder, as in the source.
pub mod Replay
pub mod Live
use v6emul.Base.{
  ℕ, zero, suc, ◌+◌, ◌-◌, ◌*◌, ◌%◌, ◌^◌, min, Bool, true, false, not, ◌&&◌, Option, none, some,
  List, [], ◌∷◌, ◌++◌, length, ◌==◌, if◌then◌else◌, update,
}

-- RECORD_FRAMES_MAX
abbrev pub record_frames_max : ℕ
record_frames_max = 50 * 60

-- a write of the CPU: `globalAddrs`, `memBeforeWrites` and `memWrites`
pub record Write : Type 0 where
  pub global_addr : ℕ
  pub before : ℕ
  pub after : ℕ

-- `HwState`
pub record HwState {ℓ} (H : Type ℓ) : Type ℓ where
  pub hw : H
  pub writes : List Write

pub record Recorder {ℓ} (H : Type ℓ) : Type ℓ where
  pub record_frames : ℕ
  pub state_idx : ℕ
  pub state_recorded : ℕ
  pub state_current : ℕ
  pub last_record : Bool
  pub states : ℕ → HwState H
  pub frame_num : ℕ

-- what it plays on: the RAM, and the states of the hardware
pub record Stage {ℓ} (H : Type ℓ) : Type ℓ where
  pub cells : ℕ → ℕ
  pub hw : H

-- `Recorder`
abbrev pub frames_of : ℕ → ℕ
frames_of frames = min frames record_frames_max

-- the loops over the writes of a frame: forwards with the new values, backwards with the old ones
unfoldable pub redo : List Write → (ℕ → ℕ) → ℕ → ℕ
redo [] cells = cells
redo (w ∷ ws) cells = redo ws (update cells w.global_addr w.after)

unfoldable pub undo : List Write → (ℕ → ℕ) → ℕ → ℕ
undo [] cells = cells
undo (w ∷ ws) cells = update (undo ws cells) w.global_addr w.before

-- the writes of `debug`: as many as `writeLen`
unfoldable pub writes_of : ℕ → List ℕ → List ℕ → List ℕ → List Write
writes_of zero addrs befores afters = []
writes_of (suc n) (g ∷ gs) (b ∷ bs) (a ∷ as_) =
    record { global_addr = g; before = b; after = a } ∷ writes_of n gs bs as_
writes_of (suc n) addrs befores afters = []

module _ {ℓ} {H : Type ℓ} where
  abbrev pub current : Recorder H → HwState H
  current r = r.states r.state_idx

  abbrev next_idx : Recorder H → ℕ
  next_idx r = (r.state_idx + 1) % r.record_frames

  -- `(m_stateIdx - 1) % m_recordFrames`
  abbrev pub previous_idx : Recorder H → ℕ
  previous_idx r = (r.state_idx + 2 ^ 64 - 1) % 2 ^ 64 % r.record_frames

  -- `StoreState`
  unfoldable pub store_state : H → Recorder H → Recorder H
  store_state hw r =
      let count = min (r.state_current + 1) r.record_frames in
      record r {
        state_idx = next_idx r;
        state_current = count;
        state_recorded = count;
        states = update r.states (next_idx r) (record { hw = hw; writes = [] });
      }

  -- `Reset`
  unfoldable pub reset_recorder : ℕ → H → Recorder H → Recorder H
  reset_recorder frame hw r = store_state hw (record r {
    state_idx = 0;
    state_recorded = 0;
    state_current = 0;
    last_record = true;
    frame_num = frame;
  })

  -- `CleanMemUpdates`
  unfoldable pub clean_mem_updates : Recorder H → Recorder H
  clean_mem_updates r = record r {
    last_record = true;
    state_recorded = r.state_current;
    states = update r.states r.state_idx (record (current r) { writes = [] });
  }

  -- `StoreMemoryDiff`
  unfoldable pub store_memory_diff : List Write → Recorder H → Recorder H
  store_memory_diff ws r = record r {
    states = update r.states r.state_idx (record (current r) { writes = (current r).writes ++ ws });
  }

  -- `Update`: the writes of an instruction, the number of the frame and the states after it
  unfoldable pub update_recorder : List Write → ℕ → H → Recorder H → Recorder H
  update_recorder ws frame hw r =
      let cleaned = if r.last_record then r else clean_mem_updates r in
      let stored = store_memory_diff ws cleaned in
      if stored.frame_num == frame
      then stored
      else record (store_state hw stored) { frame_num = frame }

  -- a frame of `PlayForward`; `none` at the end of the record, where the loop stops
  unfoldable pub forward : Recorder H × Stage H → Option (Recorder H × Stage H)
  forward (r, s) =
      if r.state_current == r.state_recorded
      then none
      else some (
        record r { state_idx = next_idx r; state_current = r.state_current + 1 },
        record { cells = redo (current r).writes s.cells; hw = (r.states (next_idx r)).hw },
      )

  unfoldable pub play_forward : ℕ → Recorder H × Stage H → Recorder H × Stage H
  play_forward zero (r, s) = (r, s)
  play_forward (suc n) (r, s) = elim (forward (r, s)) [
    | none ↦ (record r { last_record = false }, s)
    | some p ↦ play_forward n p
  ]

  -- a frame of `PlayReverse`: the state to go to, and its writes undone
  unfoldable pub step_back : Recorder H → Recorder H
  step_back r =
      if r.last_record
      then record r { last_record = false }
      else record r { state_idx = previous_idx r; state_current = r.state_current - 1 }

  unfoldable pub restore_frame : Recorder H → Stage H → Stage H
  restore_frame r s = record { cells = undo (current r).writes s.cells; hw = (current r).hw }

  unfoldable pub play_reverse : ℕ → Recorder H × Stage H → Recorder H × Stage H
  play_reverse zero (r, s) = (r, s)
  play_reverse (suc n) (r, s) =
      let rest = play_reverse n (step_back r, restore_frame (step_back r) s) in
      if r.state_current == 1 && not r.last_record then (r, s) else rest

  -- `GetStatesSize`, with the size of a state
  unfoldable pub get_states_size : ℕ → Recorder H → ℕ
  get_states_size size r = size_from r.state_recorded 0
    where
      size_from : ℕ → ℕ → ℕ
      size_from zero i = 0
      size_from (suc n) i =
          let state = r.states ((r.state_idx + 2 ^ 64 - i) % 2 ^ 64 % r.record_frames) in
          size + length state.writes + length state.writes * 4 + size_from n (i + 1)

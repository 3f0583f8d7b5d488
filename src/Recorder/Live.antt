-- ===== src/Recorder/Live.antt =====
-- The frame that is being recorded: a step in reverse gives back the RAM and the hardware of its start.
use v6emul.Base.{
  ℕ, ◌≡◌, refl, sym, ap, ap₂, ◌∙◌, arith, true, false, not, ◌&&◌, List, [], ◌∷◌, ◌++◌, ◌==◌, subst,
}
use v6emul.Recorder.{
  Recorder, Stage, Write, redo, undo, play_reverse, step_back, restore_frame, current,
  store_memory_diff, update_recorder,
}
use v6emul.Recorder.Replay.{Recorded, undo-redo, redo-append, Recorded-append}

module _ {ℓ} {H : Type ℓ} where
  -- Each instruction made its writes on the RAM that the one before it left.
  unfoldable pub Happened : List (List Write × H) → (ℕ → ℕ) → Type 0
  Happened [] cells = Unit
  Happened ((ws, hw) ∷ steps) cells = Recorded ws cells × Happened steps (redo ws cells)

  unfoldable pub ram_after : List (List Write × H) → (ℕ → ℕ) → ℕ → ℕ
  ram_after [] cells = cells
  ram_after ((ws, hw) ∷ steps) cells = ram_after steps (redo ws cells)

  -- `Update` after each of them, in one frame
  unfoldable pub record_all : ℕ → List (List Write × H) → Recorder H → Recorder H
  record_all frame [] r = r
  record_all frame ((ws, hw) ∷ steps) r = record_all frame steps (update_recorder ws frame hw r)

  -- The recorder has the writes from the start of the frame to now.
  record IsLive (frame : ℕ) (start cells : ℕ → ℕ) (hw : H) (r : Recorder H) : Type ℓ where
    recording : r.last_record ≡ true
    same_frame : r.frame_num ≡ frame
    starts : (current r).hw ≡ hw
    wrote : Recorded (current r).writes start
    now : redo (current r).writes start ≡ cells

  update-same :
      (ws : List Write) (frame : ℕ) (hw : H) (r : Recorder H)
      → r.last_record ≡ true
      → r.frame_num ≡ frame
      → update_recorder ws frame hw r ≡ store_memory_diff ws r
  unfolding update_recorder store_memory_diff
  update-same ws frame hw r a b =
      let same : (r.frame_num == frame) ≡ true = ground (arith, b) in simp (a, same)

  current-diff :
      (ws : List Write) (r : Recorder H)
      → current (store_memory_diff ws r) ≡ record (current r) { writes = (current r).writes ++ ws }
  unfolding store_memory_diff
  current-diff ws r = let here : (r.state_idx == r.state_idx) ≡ true = ground arith in simp here

  IsLive-update :
      {frame : ℕ} {start cells : ℕ → ℕ} {first : H} {r : Recorder H} (ws : List Write) (hw : H)
      → Recorded ws cells
      → IsLive frame start cells first r
      → IsLive frame start (redo ws cells) first (update_recorder ws frame hw r)
  unfolding store_memory_diff
  IsLive-update {frame} {start} {cells} {first} {r} ws hw h v =
      rw (update-same ws frame hw r v.recording v.same_frame) (record {
        recording = v.recording;
        same_frame = v.same_frame;
        starts = ap (λ s. s.hw) (current-diff ws r) ∙ v.starts;
        wrote =
            subst (λ w. Recorded w start) (sym (ap (λ s. s.writes) (current-diff ws r)))
              (Recorded-append (current r).writes ws start v.wrote
                (subst (Recorded ws) (sym v.now) h));
        now =
            ap (λ s. redo s.writes start) (current-diff ws r)
            ∙ redo-append (current r).writes ws start
            ∙ ap (redo ws) v.now;
      })

  IsLive-record_all :
      (steps : List (List Write × H)) {frame : ℕ} {start cells : ℕ → ℕ} {first : H} {r : Recorder H}
      → Happened steps cells
      → IsLive frame start cells first r
      → IsLive frame start (ram_after steps cells) first (record_all frame steps r)
  unfolding Happened ram_after record_all
  IsLive-record_all [] h v = v
  IsLive-record_all ((ws, hw) ∷ steps) (h, hs) v =
      IsLive-record_all steps hs (IsLive-update ws hw h v)

  reverse-IsLive :
      {frame : ℕ} {start cells : ℕ → ℕ} {first : H} {r : Recorder H} (hw : H)
      → IsLive frame start cells first r
      → (play_reverse 1 (r, record { cells = cells; hw = hw })).1
        ≡ record { cells = start; hw = first }
  unfolding play_reverse step_back restore_frame
  reverse-IsLive {frame} {start} {cells} {first} {r} hw v =
      let stage : (ℕ → ℕ) → H → Stage H = λ cells hw. record { cells = cells; hw = hw } in
      let old : undo (current r).writes cells ≡ start =
        subst (λ c. undo (current r).writes c ≡ start) v.now
          (undo-redo (current r).writes start v.wrote) in
      let goes : (r.state_current == 1 && not true) ≡ false = ground arith in
      simp (goes, v.recording) (ap₂ stage old v.starts)

  -- A recorder that is at the start of a frame and has no writes of it yet, then updated after any
  -- instructions of that frame and played one frame in reverse, gives back the RAM and the hardware
  -- of the start of the frame. Each instruction recorded what its writes wrote over.
  pub play_reverse-record_all :
      (r : Recorder H) (cells : ℕ → ℕ) (steps : List (List Write × H)) (hw : H)
      → r.last_record ≡ true
      → (current r).writes ≡ []
      → Happened steps cells
      → (play_reverse 1
          (record_all r.frame_num steps r, record { cells = ram_after steps cells; hw = hw })).1
        ≡ record { cells = cells; hw = (current r).hw }
  unfolding Recorded redo
  play_reverse-record_all r cells steps hw recording fresh h = reverse-IsLive hw (
      IsLive-record_all steps h (record {
        recording = recording;
        same_frame = refl;
        starts = refl;
        wrote = subst (λ ws. Recorded ws cells) (sym fresh) tt;
        now = ap (λ ws. redo ws cells) fresh;
      }))

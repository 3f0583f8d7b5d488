-- ===== src/Recorder/Replay.antt =====
-- Playing the record: frames that are played forwards and then in reverse give back the hardware and
-- its RAM, and so does the frame that is being recorded.
use v6emul.Base.{
  ℕ, zero, suc, ◌+◌, ◌-◌, ◌%◌, ◌^◌, ◌≤◌, ◌<◌, ◌≡◌, ◌≢◌, refl, sym, ap, ap₂, ◌∙◌, arith, Bool, false,
  not, ◌&&◌, some, List, [], ◌∷◌, ◌++◌, ◌==◌, if◌then◌else◌, update, Bool-cases, inl, inr,
}
use v6emul.Recorder.{
  Recorder, Stage, Write, redo, undo, forward, play_forward, play_reverse, step_back, restore_frame,
  current, record_frames_max,
}
use mathlib.Core.Path.{fun_ext}
use native.Mathlib.Nat.{mod-eq_of_lt}

-- The writes were made on these cells: each wrote over what it says.
unfoldable pub Recorded : List Write → (ℕ → ℕ) → Type 0
Recorded [] cells = Unit
Recorded (w ∷ ws) cells =
    (w.before ≡ cells w.global_addr) × Recorded ws (update cells w.global_addr w.after)

update-back : (cells : ℕ → ℕ) (g v : ℕ) → update (update cells g v) g (cells g) ≡ cells
update-back cells g v = fun_ext (λ i. ground arith)

pub undo-redo :
    (ws : List Write) (cells : ℕ → ℕ) → Recorded ws cells → undo ws (redo ws cells) ≡ cells
unfolding undo redo Recorded
undo-redo [] cells h = refl
undo-redo (w ∷ ws) cells (old, h) =
    ap₂ (λ c v. update c w.global_addr v) (undo-redo ws (update cells w.global_addr w.after) h) old
    ∙ update-back cells w.global_addr w.after

pub redo-append :
    (vs ws : List Write) (cells : ℕ → ℕ) → redo (vs ++ ws) cells ≡ redo ws (redo vs cells)
unfolding redo
redo-append [] ws cells = refl
redo-append (v ∷ vs) ws cells = redo-append vs ws (update cells v.global_addr v.after)

pub Recorded-append :
    (vs ws : List Write) (cells : ℕ → ℕ)
    → Recorded vs cells
    → Recorded ws (redo vs cells)
    → Recorded (vs ++ ws) cells
unfolding redo Recorded
Recorded-append [] ws cells h k = k
Recorded-append (v ∷ vs) ws cells (old, h) k =
    (old, Recorded-append vs ws (update cells v.global_addr v.after) h k)

module _ {ℓ} {H : Type ℓ} where
  -- a frame back, or nothing at the first one
  back : Recorder H × Stage H → Recorder H × Stage H
  back (r, s) =
      if r.state_current == 1 && not r.last_record
      then (r, s)
      else (step_back r, restore_frame (step_back r) s)

  repeat : ℕ → Recorder H × Stage H → Recorder H × Stage H
  repeat zero p = p
  repeat (suc n) p = back (repeat n p)

  repeat-back : (n : ℕ) (p : Recorder H × Stage H) → repeat n (back p) ≡ back (repeat n p)
  unfolding repeat
  repeat-back zero p = refl
  repeat-back (suc n) p = ap back (repeat-back n p)

  -- At the first frame nothing more happens.
  repeat-stop : (n : ℕ) (p : Recorder H × Stage H) → back p ≡ p → repeat n p ≡ p
  unfolding repeat
  repeat-stop zero p h = refl
  repeat-stop (suc n) p h = ap back (repeat-stop n p h) ∙ h

  play_reverse-repeat : (n : ℕ) (p : Recorder H × Stage H) → play_reverse n p ≡ repeat n p
  unfolding play_reverse repeat back
  play_reverse-repeat zero (r, s) = refl
  play_reverse-repeat (suc n) (r, s) =
      elim (Bool-cases (r.state_current == 1 && not r.last_record)) [
        | inl e ↦
            let stop : back (r, s) ≡ (r, s) = rw (back, e) refl in
            rw e (sym (ap back (repeat-stop n (r, s) stop) ∙ stop))
        | inr e ↦
            let go : back (r, s) ≡ (step_back r, restore_frame (step_back r) s) =
              rw (back, e) refl in
            rw e (
              play_reverse-repeat n (step_back r, restore_frame (step_back r) s)
              ∙ ap (repeat n) (sym go)
              ∙ repeat-back n (r, s))
      ]

  -- What `forward` makes of a recorder that is not at its end.
  onward : Recorder H × Stage H → Recorder H × Stage H
  onward (r, s) = (
    record r {
      state_idx = (r.state_idx + 1) % r.record_frames;
      state_current = r.state_current + 1;
    },
    record {
      cells = redo (current r).writes s.cells;
      hw = (r.states ((r.state_idx + 1) % r.record_frames)).hw;
    },
  )

  -- The stage is at the start of a frame that was recorded, and the ring does not turn over after it.
  pub record IsFrame (p : Recorder H × Stage H) : Type ℓ where
    pub replaying : p.0.last_record ≡ false
    pub more : p.0.state_current ≢ p.0.state_recorded
    pub counted : 0 < p.0.state_current
    pub no_turn : p.0.state_idx + 1 < p.0.record_frames
    pub few : p.0.record_frames ≤ record_frames_max
    pub same_hw : (current (p.0)).hw ≡ p.1.hw
    pub wrote : Recorded (current (p.0)).writes p.1.cells

  -- So are the starts of the next frames.
  unfoldable pub Frames : ℕ → Recorder H × Stage H → Type ℓ
  unfolding onward
  Frames zero p = Unit
  Frames (suc n) p = IsFrame p × Frames n (onward p)

  -- The place before the next one, with the hardware and the RAM of its frame.
  returned :
      (p : Recorder H × Stage H) (idx count : ℕ)
      → IsFrame p
      → idx ≡ p.0.state_idx
      → count ≡ p.0.state_current
      → (
        record (p.0) { state_idx = idx; state_current = count; last_record = false },
        record {
          cells = undo (p.0.states idx).writes (redo (current (p.0)).writes p.1.cells);
          hw = (p.0.states idx).hw;
        },
      )
        ≡ p
  returned (r, s) idx count f here counts =
      let Pair = Recorder H × Stage H in
      let at_place : ℕ → ℕ → Bool → Pair = λ idx count last. (
        record r { state_idx = idx; state_current = count; last_record = last },
        record {
          cells = undo (r.states idx).writes (redo (current r).writes s.cells);
          hw = (r.states idx).hw;
        },
      ) in
      let on_stage : (ℕ → ℕ) → H → Pair = λ cells hw. (r, record { cells = cells; hw = hw }) in
      (λ i. at_place (here i) (counts i) (sym f.replaying i))
      ∙ ap₂ on_stage (undo-redo (current r).writes s.cells f.wrote) f.same_hw

  back-onward : (p : Recorder H × Stage H) → IsFrame p → back (onward p) ≡ p
  unfolding back onward step_back restore_frame
  back-onward (r, s) f =
      let not_first : (r.state_current + 1 == 1) ≡ false = ground (arith, f.counted) in
      let here : (r.state_idx + 1) % r.record_frames ≡ r.state_idx + 1 = mod-eq_of_lt f.no_turn in
      let small : r.state_idx < r.record_frames = omega (arith, f.no_turn) in
      let there : (r.state_idx + 1 + 2 ^ 64 - 1) % 2 ^ 64 % r.record_frames ≡ r.state_idx =
        ap (λ n. n % r.record_frames) (omega (arith, f.no_turn, f.few)) ∙ mod-eq_of_lt small in
      simp (not_first, f.replaying)
        (returned (r, s)
          (((r.state_idx + 1) % r.record_frames + 2 ^ 64 - 1) % 2 ^ 64 % r.record_frames)
          (r.state_current + 1 - 1) f
          (ap (λ n. (n + 2 ^ 64 - 1) % 2 ^ 64 % r.record_frames) here ∙ there) (omega arith))

  play_forward-onward :
      (n : ℕ) (p : Recorder H × Stage H)
      → p.0.state_current ≢ p.0.state_recorded
      → play_forward (suc n) p ≡ play_forward n (onward p)
  unfolding play_forward forward onward
  play_forward-onward n (r, s) more =
      let not_end : (r.state_current == r.state_recorded) ≡ false = ground (arith, more) in
      let goes : forward (r, s) ≡ some (onward (r, s)) = rw not_end refl in
      rw (goes, play_forward) refl

  -- Frames of the record that are played forwards and then in reverse leave everything as it was:
  -- the RAM, the states of the hardware and the place in the record. The play starts at the start
  -- of a frame, and before each of the frames the recorder is not at its end, the ring does not
  -- turn over, and the writes that it has were made on the RAM that is there.
  pub play_reverse-play_forward :
      (n : ℕ) (p : Recorder H × Stage H) → Frames n p → play_reverse n (play_forward n p) ≡ p
  unfolding Frames repeat play_forward
  play_reverse-play_forward n p f = play_reverse-repeat n (play_forward n p) ∙ go n p f
    where
      go : (n : ℕ) (p : Recorder H × Stage H) → Frames n p → repeat n (play_forward n p) ≡ p
      go zero (r, s) f = refl
      go (suc n) p (f, fs) =
          ap (repeat (suc n)) (play_forward-onward n p f.more)
          ∙ ap back (go n (onward p) fs)
          ∙ back-onward p f

-- ===== src/Audio/Queue.antt =====
-- The buffer of samples as a queue (libs/v6core/src/audio.cpp).
use v6emul.Base.{
  ℕ, zero, suc, ◌+◌, ◌-◌, ◌%◌, ◌^◌, ◌≤◌, ◌<◌, min, ◌≡◌, refl, sym, ◌∙◌, ap, ap₂, subst, arith, Bool,
  true, false, ltb, ◌==◌, if◌then◌else◌, update, List, [], ◌∷◌, ◌++◌, length,
}
use v6emul.Audio.{Audio, FloatOps, buffer_size, put_sample, read_loop, read_samples, available}

module _ {S : Type 0} where
  -- `n` samples of the ring from the index `p` on
  abbrev pub window : (ℕ → S) → ℕ → ℕ → List S
  window buffer p zero = []
  window buffer p (suc n) = buffer (p % buffer_size) ∷ window buffer (p + 1) n

  -- the samples that are written and not yet read
  abbrev pub queue : Audio S → List S
  queue a = window a.buffer a.read_idx (a.write_idx - a.read_idx)

  -- No sample is lost: at most as many wait as the buffer holds, and the indices have not wrapped.
  pub record IsFit (a : Audio S) : Type 0 where
    pub in_order : a.read_idx ≤ a.write_idx
    pub in_buffer : a.write_idx ≤ a.read_idx + 4000
    pub no_wrap : a.write_idx < 2 ^ 63

  window-update :
      (g : ℕ → S) (s : S) (w n p : ℕ)
      → p + n ≡ w
      → w < p + 4000
      → window (update g (w % 4000) s) p n ≡ window g p n
  window-update g s w zero p e h = refl
  window-update g s w (suc n) p e h =
      let other : (w % 4000 == p % 4000) ≡ false = ground (arith, e, h) in
      ap₂ ◌∷◌ (ap (λ b. if b then s else g (p % 4000)) other)
        (window-update g s w n (p + 1) (omega (arith, e)) (omega (arith, h)))

  window-last :
      (g : ℕ → S) (n p : ℕ) → window g p (suc n) ≡ window g p n ++ (g ((p + n) % 4000) ∷ [])
  window-last g zero p = ap (λ i. g i ∷ []) (omega arith)
  window-last g (suc n) p =
      let same : (p + 1 + n) % 4000 ≡ (p + suc n) % 4000 = omega arith in
      ap (λ l. g (p % 4000) ∷ l)
        (window-last g n (p + 1) ∙ ap (λ i. window g (p + 1) n ++ (g i ∷ [])) same)

  length-window : (g : ℕ → S) (p n : ℕ) → length (window g p n) ≡ n
  length-window g p zero = refl
  length-window g p (suc n) = ap suc (length-window g (p + 1) n)

  -- A sample put in, while the buffer has room.
  record Put (s : S) (a a' : Audio S) : Type 0 where
    joined : queue a' ≡ queue a ++ (s ∷ [])
    fit : IsFit a'

  put_sample-Put :
      (ops : FloatOps S) (s : S) (a : Audio S)
      → IsFit a
      → a.write_idx < a.read_idx + 4000
      → a.write_idx + 1 < 2 ^ 63
      → Put s a (put_sample ops s a)
  unfolding put_sample
  put_sample-Put ops s a h room small =
      let n = a.write_idx - a.read_idx in
      let next : (a.write_idx + 1) % 2 ^ 64 ≡ a.write_idx + 1 = omega (arith, small) in
      let longer : (a.write_idx + 1) % 2 ^ 64 - a.read_idx ≡ suc n =
        omega (arith, h.in_order, small) in
      let end : (a.read_idx + n) % 4000 ≡ a.write_idx % 4000 = omega (arith, h.in_order) in
      let g = update a.buffer (a.write_idx % 4000) s in
      let here : g ((a.read_idx + n) % 4000) ≡ s = ground (arith, end) in
      record {
        joined =
            ap (window g a.read_idx) longer
            ∙ window-last g n a.read_idx
            ∙ ap₂ (λ (l : List S) (x : S). l ++ (x ∷ []))
                (window-update a.buffer s a.write_idx n a.read_idx (omega (arith, h.in_order)) room)
                here;
        fit = record {
          in_order = omega (arith, next, h.in_order);
          in_buffer = omega (arith, next, room);
          no_wrap = omega (arith, next, small);
        };
      }

  -- Samples taken out.
  pub record Taken (n : ℕ) (a : Audio S) (r : List S × Audio S) : Type 0 where
    pub parts : queue a ≡ r.0 ++ queue r.1
    pub count : length r.0 ≡ n
    pub fit : IsFit r.1

  read_loop-Taken :
      (n : ℕ) (a : Audio S) → IsFit a → n ≤ a.write_idx - a.read_idx → Taken n a (read_loop n a)
  unfolding read_loop
  read_loop-Taken zero a h le = record { parts = refl; count = refl; fit = h }
  read_loop-Taken (suc n) a h le =
      let a1 : Audio S = record a { read_idx = (a.read_idx + 1) % 2 ^ 64 } in
      let next : (a.read_idx + 1) % 2 ^ 64 ≡ a.read_idx + 1 =
        omega (arith, h.no_wrap, h.in_order) in
      let h1 : IsFit a1 = record {
        in_order = omega (arith, next, le);
        in_buffer = omega (arith, next, h.in_buffer);
        no_wrap = h.no_wrap;
      } in
      let t = read_loop-Taken n a1 h1 (omega (arith, next, le)) in
      let split : a.write_idx - a.read_idx ≡ suc (a.write_idx - (a.read_idx + 1)) =
        omega (arith, le) in
      record {
        parts =
            ap (window a.buffer a.read_idx) split
            ∙ ap (λ i. a.buffer (a.read_idx % 4000) ∷ window a.buffer i (a.write_idx - i))
                (sym next)
            ∙ ap (λ l. a.buffer (a.read_idx % 4000) ∷ l) t.parts;
        count = ap suc t.count;
        fit = t.fit;
      }

  read_samples-Taken :
      (m : ℕ) (a : Audio S) → IsFit a → Taken (min (length (queue a)) m) a (read_samples m a)
  unfolding read_samples
  read_samples-Taken m a h =
      let n = a.write_idx - a.read_idx in
      let all : available a ≡ n = omega (arith, h.in_order, h.in_buffer, h.no_wrap) in
      let fits : ltb (available a) (2 ^ 31) ≡ true = ground (arith, all, h.in_buffer) in
      let count : min (available a) m ≡ min (length (queue a)) m =
        ap (λ x. min x m) (all ∙ sym (length-window a.buffer a.read_idx n)) in
      let k = min (available a) m in
      let taken = read_loop-Taken k a h (omega (arith, all)) in
      subst (λ x. Taken x a (read_samples m a)) count
        (subst (λ (b : Bool). Taken k a (read_loop (if b then k else 0) a)) (sym fits) taken)

  -- The operations of a queue.
  pub record RefinesQueue (ops : FloatOps S) (a : Audio S) : Type 0 where
    pub puts :
        (s : S)
        → a.write_idx < a.read_idx + 4000
        → a.write_idx + 1 < 2 ^ 63
        → (queue (put_sample ops s a) ≡ queue a ++ (s ∷ [])) × IsFit (put_sample ops s a)
    pub reads : (m : ℕ) → Taken (min (length (queue a)) m) a (read_samples m a)

  -- While at most 4000 samples wait and the indices are below 2 ^ 63, the ring is a queue: a sample
  -- is put at its end, if there is room and the index stays below 2 ^ 63, and `ReadSamples` takes
  -- from its front as many as are asked for and wait. Both keep this state.
  pub queue-RefinesQueue : (ops : FloatOps S) (a : Audio S) → IsFit a → RefinesQueue ops a
  queue-RefinesQueue ops a h = record {
    puts = λ s room small. let p = put_sample-Put ops s a h room small in (p.joined, p.fit);
    reads = λ m. read_samples-Taken m a h;
  }

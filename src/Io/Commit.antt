-- ===== src/Io/Commit.antt =====
-- The delayed writes of the ports (`PortOut` and `TryToCommit` of libs/v6core/src/io.cpp).
use v6emul.Base.{
  ℕ, suc, ◌-◌, ◌<◌, ◌≡◌, refl, sym, ◌∙◌, ap, ap₂, arith, true, false, ◌==◌, ltb, if◌then◌else◌,
  update, Option, none, some, List, [], ◌∷◌, length, suc_nonzero,
}
use v6emul.Memory.{Memory}
use v6emul.Io.{Io, set_color}
use v6emul.Io.Access.{
  port_out, port_out_commit, try_to_commit, commit_out, commit_color, commit_mode, is_positive8,
}
use v6emul.Io.Ports.{port_out_handling, is_port}

-- one pixel after the other, with the colour index that is drawn
unfoldable pub ticks : List ℕ → Io → Memory → Option (Io × Memory)
ticks [] io m = some (io, m)
ticks (c ∷ cs) io m = elim (try_to_commit c io m) [ none ↦ none | some (io', m') ↦ ticks cs io' m' ]

-- the last of some pixels
abbrev pub last : ℕ → List ℕ → ℕ
last c [] = c
last c (d ∷ cs) = last d cs

-- A colour that waits for its place in the palette.
record IsPending (k v : ℕ) (palette : ℕ → ℕ) (io : Io) : Type 0 where
  no_write : io.out_commit_timer ≡ 0
  color : io.hw_color ≡ v
  timer_left : io.palette_commit_timer ≡ k
  palette_kept : io.palette ≡ palette

mode-IsPending :
    (k v : ℕ) (p : ℕ → ℕ) (io : Io) → IsPending k v p io → IsPending k v p (commit_mode io)
mode-IsPending k v p io h = record {
  no_write = ground (arith, h.no_write);
  color = ground (arith, h.color);
  timer_left = ground (arith, h.timer_left);
  palette_kept = ground (arith, h.palette_kept);
}

color_waits :
    (c k v : ℕ) (p : ℕ → ℕ) (io : Io)
    → IsPending (suc (suc k)) v p io
    → suc (suc k) < 128
    → IsPending (suc k) v p (commit_color c io)
color_waits c k v p io h small =
    let pos : ltb (suc (suc k)) 128 ≡ true = ground (arith, small) in
    let left : suc (suc k) - 1 ≡ suc k = omega arith in
    simp (h.timer_left, pos, left, suc_nonzero)
      (record {
        no_write = h.no_write;
        color = h.color;
        timer_left = refl;
        palette_kept = h.palette_kept;
      })

color_stored :
    (c v : ℕ) (p : ℕ → ℕ) (io : Io)
    → IsPending 1 v p io
    → IsPending 0 v (update p c v) (commit_color c io)
unfolding set_color
color_stored c v p io h = simp (h.timer_left) (record {
  no_write = h.no_write;
  color = h.color;
  timer_left = refl;
  palette_kept = ap₂ (λ (q : ℕ → ℕ) (x : ℕ). update q c x) h.palette_kept h.color;
})

-- what is left of a pixel after the write
abbrev then_commit : ℕ → Option (Io × Memory) → Option (Io × Memory)
then_commit c o = elim o [
  | none ↦ none
  | some (io', m') ↦ some (commit_mode (commit_color c io'), m')
]

no_commit : (io : Io) (m : Memory) → io.out_commit_timer ≡ 0 → commit_out io m ≡ some (io, m)
no_commit io m e =
    let off : is_positive8 io.out_commit_timer ≡ false = ground (arith, e) in
    ap
      (λ b.
        if b
        then (if io.out_commit_timer - 1 == 0
            then port_out_commit (record io { out_commit_timer = io.out_commit_timer - 1 }) m
            else some (record io { out_commit_timer = io.out_commit_timer - 1 }, m))
        else some (io, m))
      off

-- no write is left, so that a pixel changes the colour and the mode only
tick_pending :
    (c k v : ℕ) (p : ℕ → ℕ) (io : Io) (m : Memory)
    → IsPending k v p io
    → try_to_commit c io m ≡ some (commit_mode (commit_color c io), m)
unfolding try_to_commit
tick_pending c k v p io m h = ap (then_commit c) (no_commit io m (h.no_write))

ticks-IsPending :
    (cs : List ℕ) (c v : ℕ) (p : ℕ → ℕ) (io : Io) (m : Memory)
    → IsPending (length (c ∷ cs)) v p io
    → length (c ∷ cs) < 128
    → (io' : Io) × (ticks (c ∷ cs) io m ≡ some (io', m))
      × IsPending 0 v (update p (last c cs) v) io'
unfolding ticks
ticks-IsPending [] c v p io m h small =
    let io' = commit_mode (commit_color c io) in
    (
      io',
      rw (tick_pending c 1 v p io m h, ticks) refl,
      mode-IsPending 0 v (update p c v) (commit_color c io) (color_stored c v p io h),
    )
ticks-IsPending (d ∷ cs) c v p io m h small =
    let k = length cs in
    let io1 = commit_mode (commit_color c io) in
    let h1 =
      mode-IsPending (suc k) v p (commit_color c io)
        (color_waits c k v p io h (omega (arith, small))) in
    let (io', e, done) = ticks-IsPending cs d v p io1 m h1 (omega (arith, small)) in
    (io', rw (tick_pending c (suc (suc k)) v p io m h, ticks) e, done)

-- a colour is written
color_written :
    (port v : ℕ) (io : Io) (m : Memory)
    → is_port 0x0c 0x0f port ≡ true
    → port_out_handling port v io m ≡ some (record io { hw_color = v }, m)
unfolding port_out_handling
color_written port v io m p = ground (arith, p)

-- the first pixel after the OUT, where the write is done
first_commit :
    (port v c : ℕ) (io : Io) (m : Memory)
    → is_port 0x0c 0x0f port ≡ true
    → try_to_commit c (port_out port v io) m
      ≡ some (
        commit_mode
            (commit_color c (record (port_out port v io) { out_commit_timer = 0; hw_color = v })),
        m,
      )
unfolding try_to_commit port_out port_out_commit
first_commit port v c io m p =
    ap (then_commit c)
      (color_written port v (record (port_out port v io) { out_commit_timer = 0 }) m p)

IsPending-color :
    (port v n : ℕ) (io : Io)
    → is_port 0x0c 0x0f port ≡ true
    → io.palette_time ≡ n
    → n < 128
    → IsPending n v io.palette (record (port_out port v io) { out_commit_timer = 0; hw_color = v })
unfolding port_out
IsPending-color port v n io p time small = record {
  no_write = refl;
  color = refl;
  timer_left = ground (arith, p, time, small);
  palette_kept = refl;
}

abbrev then_ticks : List ℕ → Option (Io × Memory) → Option (Io × Memory)
then_ticks cs o = elim o [ none ↦ none | some (io', m') ↦ ticks cs io' m' ]

-- A write to a port of the palette is stored after as many pixels as the palette time says, at
-- least one and fewer than 128, at the colour index of the last of them; no other entry of the
-- palette and nothing in the memory has changed, and no write waits any more. The time to the
-- display mode may be anything.
pub palette-port_out :
    (port v c : ℕ) (cs : List ℕ) (io : Io) (m : Memory)
    → is_port 0x0c 0x0f port ≡ true
    → io.palette_time ≡ length (c ∷ cs)
    → length (c ∷ cs) < 128
    → (io' : Io) × (ticks (c ∷ cs) (port_out port v io) m ≡ some (io', m))
      × (io'.palette ≡ update io.palette (last c cs) v)
      × (io'.palette_commit_timer ≡ 0)
      × (io'.out_commit_timer ≡ 0)
unfolding ticks
palette-port_out port v c cs io m p time small =
    let io1 = record (port_out port v io) { out_commit_timer = 0; hw_color = v } in
    let pending = IsPending-color port v (length (c ∷ cs)) io p time small in
    let (io', e, done) = ticks-IsPending cs c v io.palette io1 m pending small in
    let first =
      first_commit port v c io m p
      ∙ sym (tick_pending c (length (c ∷ cs)) v io.palette io1 m pending) in
    let same : ticks (c ∷ cs) (port_out port v io) m ≡ ticks (c ∷ cs) io1 m =
      ap (then_ticks cs) first in
    (io', same ∙ e, done.palette_kept, done.timer_left, done.no_write)

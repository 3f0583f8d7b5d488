-- ===== src/Timer/Counting.antt =====
-- Counters that count down (`CounterUnit::Clock` of libs/v6core/src/timer_i8253.cpp).
use v6emul.Base.{
  ℕ, zero, suc, ◌+◌, ◌*◌, ◌≤◌, ◌<◌, ◌≡◌, refl, ◌∙◌, ap, subst, arith, true, false, not, ◌&&◌,
  suc_nonzero, ap₂, List, [], ◌∷◌, ◌++◌, replicate,
}
use v6emul.Timer.{Counter, i32_sub, i32_at_most_zero}
use v6emul.Timer.Clock.{set_mode, clock_counter, clock_mode, terminal_count}
use v6emul.Timer.Access.{write_counter}

-- the counter after `n` clocks
unfoldable pub clocks : ℕ → Counter → Counter
clocks zero c = c
clocks (suc n) c = clocks n (clock_counter 1 c).1

-- A counter that counts, with a value of its width.
pub record IsCounting (mode : ℕ) (c : Counter) : Type 0 where
  pub mode_set : c.mode_int ≡ mode
  pub running : c.enabled ≡ true
  pub no_delay : c.delay ≡ 0
  pub no_load : c.load_flag ≡ false

-- a clock that does not reach 0, of the counter of mode 0
one_down :
    (c : Counter) (n : ℕ)
    → IsCounting 0 c
    → c.value ≡ suc (suc n)
    → c.value ≤ 65536
    → IsCounting 0 (clock_counter 1 c).1
      × ((clock_counter 1 c).1.value ≡ suc n)
      × ((clock_counter 1 c).1.out ≡ c.out)
      × ((clock_counter 1 c).1.armed ≡ c.armed)
unfolding clock_counter clock_mode terminal_count
one_down c n h e small =
    let left : i32_sub (suc (suc n)) 1 ≡ suc n = omega (arith, e, small) in
    let pos : i32_at_most_zero (suc n) ≡ false = ground (arith, e, small) in
    simp (h.mode_set, h.running, h.no_delay, h.no_load, e, left, pos)
      (
        record { mode_set = refl; running = refl; no_delay = refl; no_load = refl },
        refl,
        refl,
        refl,
      )

-- the clock that reaches 0
at_zero :
    (c : Counter)
    → IsCounting 0 c
    → c.value ≡ 1
    → c.armed ≡ true
    → ((clock_counter 1 c).1.out ≡ 1) × ((clock_counter 1 c).1.armed ≡ false)
unfolding clock_counter clock_mode terminal_count
at_zero c h e a = simp (h.mode_set, h.running, h.no_delay, h.no_load, e, a) (refl, refl)

-- the outputs of `n` clocks
unfoldable pub outputs : ℕ → Counter → List ℕ
outputs zero c = []
outputs (suc n) c = let c1 = (clock_counter 1 c).1 in c1.out ∷ outputs n c1

pub outputs_lem :
    (n : ℕ) (c : Counter)
    → IsCounting 0 c
    → c.value ≡ suc n
    → c.value ≤ 65536
    → c.armed ≡ true
    → c.out ≡ 0
    → outputs (suc n) c ≡ replicate n 0 ++ (1 ∷ [])
unfolding outputs
outputs_lem zero c h e small a o = ap (λ v. v ∷ []) (at_zero c h e a).0
outputs_lem (suc n) c h e small a o =
    let (h1, e1, o1, a1) = one_down c n h e small in
    ap₂ ◌∷◌ (o1 ∙ o)
      (outputs_lem n (clock_counter 1 c).1 h1 e1 (omega (arith, e, e1, small)) (a1 ∙ a) (o1 ∙ o))

-- A count is written, and `k` clocks of delay are left.
record IsLoaded (k n : ℕ) (c : Counter) : Type 0 where
  mode_set : c.mode_int ≡ 0
  delay_left : c.delay ≡ k
  to_load : c.load_flag ≡ true
  count : c.load_value ≡ n
  out_low : c.out ≡ 0

delayed : (k n : ℕ) (c : Counter) → IsLoaded (suc k) n c → IsLoaded k n (clock_counter 1 c).1
unfolding clock_counter
delayed k n c h =
    simp (h.delay_left, suc_nonzero)
      (record {
        mode_set = h.mode_set;
        delay_left = omega arith;
        to_load = h.to_load;
        count = h.count;
        out_low = h.out_low;
      })

loaded :
    (n : ℕ) (c : Counter)
    → IsLoaded 0 (suc (suc n)) c
    → suc n < 65536
    → IsCounting 0 (clock_counter 1 c).1
      × ((clock_counter 1 c).1.value ≡ suc n)
      × ((clock_counter 1 c).1.out ≡ 0)
      × ((clock_counter 1 c).1.armed ≡ true)
unfolding clock_counter clock_mode terminal_count
loaded n c h small =
    let left : i32_sub (suc (suc n)) 1 ≡ suc n = omega (arith, small) in
    let pos : i32_at_most_zero (suc n) ≡ false = ground (arith, small) in
    let wakes : (not c.enabled && false) ≡ false = ground arith in
    simp (h.mode_set, h.delay_left, h.to_load, h.count, wakes, left, pos)
      (
        record { mode_set = refl; running = refl; no_delay = refl; no_load = refl },
        refl,
        refl,
        refl,
      )

loaded_one : (c : Counter) → IsLoaded 0 1 c → (clock_counter 1 c).1.out ≡ 1
unfolding clock_counter clock_mode terminal_count
loaded_one c h =
    let wakes : (not c.enabled && false) ≡ false = ground arith in
    simp (h.mode_set, h.delay_left, h.to_load, h.count, wakes)

outputs_loaded :
    (n : ℕ) (c : Counter)
    → IsLoaded 0 (suc n) c
    → n < 65536
    → outputs (suc n) c ≡ replicate n 0 ++ (1 ∷ [])
unfolding outputs
outputs_loaded zero c h small = ap (λ v. v ∷ []) (loaded_one c h)
outputs_loaded (suc n) c h small =
    let (h1, e1, o1, a1) = loaded n c h small in
    ap₂ ◌∷◌ o1 (outputs_lem n (clock_counter 1 c).1 h1 e1 (omega (arith, e1, small)) a1 o1)

outputs_delayed :
    (k n m : ℕ) (c : Counter)
    → IsLoaded k (suc n) c
    → n < 65536
    → m ≡ k + n
    → outputs (suc m) c ≡ replicate m 0 ++ (1 ∷ [])
unfolding outputs
outputs_delayed zero n m c h small e =
    let same : n ≡ m = omega (arith, e) in
    subst (λ x. outputs (suc x) c ≡ replicate x 0 ++ (1 ∷ [])) same (outputs_loaded n c h small)
outputs_delayed (suc k) n zero c h small e = absurd (omega (arith, e))
outputs_delayed (suc k) n (suc m) c h small e =
    let h1 = delayed k (suc n) c h in
    ap₂ ◌∷◌ (h1.out_low) (outputs_delayed k n m (clock_counter 1 c).1 h1 small (omega (arith, e)))

-- mode 0 set, then a count of two bytes written
abbrev pub programmed : ℕ → ℕ → Counter → Counter
programmed lsb msb c = write_counter msb (write_counter lsb (set_mode 0 3 false c))

programmed-IsLoaded :
    (lsb msb : ℕ) (c : Counter) → IsLoaded 3 (msb * 256 + lsb) (programmed lsb msb c)
unfolding set_mode write_counter
programmed-IsLoaded lsb msb c = record {
  mode_set = refl;
  delay_left = refl;
  to_load = refl;
  count = refl;
  out_low = refl;
}

-- A counter that is set to mode 0 and given a count in two bytes, not 0, has its output low for
-- three clocks of delay and then for one clock less than the count, and high at the next, whatever
-- it did before.
pub outputs-programmed :
    (lsb msb n : ℕ) (c : Counter)
    → msb * 256 + lsb ≡ suc n
    → n < 65536
    → outputs (suc (suc (suc (suc n)))) (programmed lsb msb c)
      ≡ replicate (suc (suc (suc n))) 0 ++ (1 ∷ [])
outputs-programmed lsb msb n c e small =
    outputs_delayed 3 n (suc (suc (suc n))) (programmed lsb msb c)
      (subst (λ v. IsLoaded 3 v (programmed lsb msb c)) e (programmed-IsLoaded lsb msb c)) small
      (omega arith)

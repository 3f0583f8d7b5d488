-- ===== src/Watchpoint/Ids.antt =====
-- The id that `AddNew` chooses (libs/v6core/src/watchpoints.cpp).
use v6emul.Base.{
  ℕ, zero, suc, ◌+◌, ◌-◌, ◌≤◌, ◌<◌, ◌^◌, ◌≡◌, ◌≢◌, refl, sym, ap, ◌∙◌, arith, true, false, ◌||◌,
  ◌==◌, some, List, max, Bool-cases, inl, inr,
}
use v6emul.Watchpoint.{
  Watchpoint, Watchpoints, contains, insert_wp, u32, int_end, next_int, add, free_id, add_new,
}
use v6emul.Watchpoint.Laws.{contains-insert_wp}

-- The first id from a place on that no watchpoint has, up to a given one that is free.
record IsFirst (next k id : ℕ) (wps : List Watchpoint) : Type 0 where
  above : next ≤ id
  below : id ≤ k
  free : contains id wps ≡ false
  used : (j : ℕ) → next ≤ j → j < id → contains j wps ≡ true

used_later :
    (next id : ℕ) (wps : List Watchpoint)
    → contains next wps ≡ true
    → ((j : ℕ) → next + 1 ≤ j → j < id → contains j wps ≡ true)
    → (j : ℕ) → next ≤ j
    → j < id
    → contains j wps ≡ true
used_later next id wps here used j low high = elim (Bool-cases (next == j)) [
  | inl same ↦ ap (λ i. contains i wps) (ground (arith, same)) ∙ here
  | inr other ↦ used j (ground (arith, other, low)) high
]

differ :
    (next k : ℕ) (wps : List Watchpoint)
    → contains next wps ≡ true
    → contains k wps ≡ false
    → next ≢ k
differ next k wps here free same = absurd (cc (sym here ∙ ap (λ i. contains i wps) same ∙ free))

next_below : (next k : ℕ) → next ≤ k → next ≢ k → next + 1 ≤ k
next_below next k low other = omega (arith, low, other)

-- The loop finds it.
free_id-IsFirst :
    (fuel next k : ℕ) (wps : List Watchpoint)
    → next ≤ k
    → k < next + fuel
    → contains k wps ≡ false
    → (id : ℕ) × (free_id fuel next wps ≡ some id) × IsFirst next k id wps
unfolding free_id
free_id-IsFirst zero next k wps low high free = absurd (omega (arith, low, high))
free_id-IsFirst (suc fuel) next k wps low high free = elim (Bool-cases (contains next wps)) [
  | inr out ↦ (
    next,
    rw (out) refl,
    record {
      above = omega arith;
      below = low;
      free = out;
      used = λ j l h. absurd (omega (arith, l, h));
    },
  )
  | inl here ↦
      let (id, found, first) =
        free_id-IsFirst fuel (next + 1) k wps (next_below next k low (differ next k wps here free))
          (omega (arith, high)) free in
      (
        id,
        rw (here) found,
        record {
          above = omega (arith, first.above);
          below = first.below;
          free = first.free;
          used = used_later next id wps here first.used;
        },
      )
]

next_int-some : (id : ℕ) → id + 1 < 2 ^ 32 → next_int id ≡ some (id + 1)
unfolding next_int
next_int-some id h = ground (arith, h)

-- If some int from the next id on, below the largest, is free, `AddNew` gives a watchpoint the
-- first id from the next one on that no watchpoint has. Afterwards the set has that id and the ids
-- it had before, no other, and the next id is one past it.
pub add_new-first :
    (wp : Watchpoint) (s : Watchpoints) (k : ℕ)
    → s.next_id ≤ k
    → k + 1 < 2 ^ 32
    → contains k s.wps ≡ false
    → (id : ℕ) × (s' : Watchpoints) × (add_new wp s ≡ some (id, s'))
      × (s.next_id ≤ id)
      × (id ≤ k)
      × (contains id s.wps ≡ false)
      × ((j : ℕ) → s.next_id ≤ j → j < id → contains j s.wps ≡ true)
      × ((n : ℕ) → contains n s'.wps ≡ (id == n || contains n s.wps))
      × (s'.next_id ≡ id + 1)
unfolding add_new add
add_new-first wp s k low small free =
    let (id, found, first) =
      free_id-IsFirst (int_end - s.next_id) s.next_id k s.wps low (omega (arith, low, small))
        free in
    let new = record wp { id = id } in
    let after : Watchpoints = record s {
      updates = u32 (s.updates + 1);
      next_id = max (id + 1) (id + 1);
      wps = insert_wp new s.wps;
    } in
    (
      id,
      after,
      rw (found, next_int-some id (omega (arith, first.below, small))) refl,
      first.above,
      first.below,
      first.free,
      first.used,
      λ n. contains-insert_wp new n s.wps,
      omega arith,
    )

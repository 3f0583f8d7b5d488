-- ===== src/Trace/Caller.antt =====
-- The history as the instructions in order, and the caller found in it
-- (libs/v6core/src/trace_log.cpp).
use v6emul.Base.{
  ℕ, zero, suc, ◌+◌, ◌-◌, ◌%◌, ◌≤◌, ◌<◌, ◌≡◌, ◌⊎◌, inl, inr, refl, ap, subst, arith, Bool, true,
  false, ◌||◌, ◌==◌, ltb, leb, if◌then◌else◌, none, Bool-cases,
}
use v6emul.Trace.{
  TraceLog, Item, CallerResult, found, history_end, caller_loop, find_caller, pc_at, item_at,
  update_log_buffer,
}

abbrev pub is_outside : ℕ → ℕ → ℕ → Bool
is_outside start end pc = ltb pc start || leb end pc

-- The instruction before another in the history, the latest before the one that runs.
abbrev pub entrance : ℕ → ℕ → TraceLog → ℕ
entrance live_pc zero l = live_pc
entrance live_pc (suc c) l = pc_at c l

-- The first instruction outside the range, or none.
pub record IsCaller (from live_pc start end c : ℕ) (l : TraceLog) : Type 0 where
  pub outside : is_outside start end (pc_at c l) ≡ true
  pub reached : from ≤ c
  pub in_history : c < l.history_count
  pub first : (j : ℕ) → from ≤ j → j < c → is_outside start end (pc_at j l) ≡ false

abbrev pub Answer : ℕ → ℕ → ℕ → ℕ → TraceLog → CallerResult → Type 0
Answer from live_pc start end l r =
    ((c : ℕ) × (r ≡ found (pc_at c l) (entrance live_pc c l) c)
      × IsCaller from live_pc start end c l)
    ⊎ ((r ≡ history_end)
        × ((j : ℕ) → from ≤ j → j < l.history_count → is_outside start end (pc_at j l) ≡ false))

either-Answer :
    (b : Bool) (x y : CallerResult) (from live_pc start end : ℕ) (l : TraceLog)
    → (b ≡ true → Answer from live_pc start end l x)
    → (b ≡ false → Answer from live_pc start end l y)
    → Answer from live_pc start end l (if b then x else y)
either-Answer true x y from live_pc start end l t f = t refl
either-Answer false x y from live_pc start end l t f = f refl

-- one more instruction that is inside
inside_too :
    (c start end : ℕ) (l : TraceLog) (bound : ℕ)
    → is_outside start end (pc_at c l) ≡ false
    → ((j : ℕ) → suc c ≤ j → j < bound → is_outside start end (pc_at j l) ≡ false)
    → (j : ℕ) → c ≤ j
    → j < bound
    → is_outside start end (pc_at j l) ≡ false
inside_too c start end l bound b later j from to = elim (Bool-cases (c == j)) [
  | inl e ↦
      let same : c ≡ j = ground (arith, e) in
      subst (λ x. is_outside start end (pc_at x l) ≡ false) same b
  | inr e ↦ later j (ground (arith, e, from)) to
]

extended :
    (c live_pc start end : ℕ) (l : TraceLog) (r : CallerResult)
    → is_outside start end (pc_at c l) ≡ false
    → Answer (suc c) live_pc start end l r
    → Answer c live_pc start end l r
extended c live_pc start end l r b (inl (k, e, h)) = inl (
  k,
  e,
  record {
    outside = h.outside;
    reached = omega (arith, h.reached);
    in_history = h.in_history;
    first = inside_too c start end l k b h.first;
  },
)
extended c live_pc start end l r b (inr (e, h)) =
    inr (e, inside_too c start end l l.history_count b h)

caller_loop_lem :
    (n c live_pc start end : ℕ) (l : TraceLog)
    → c + n ≡ l.history_count
    → Answer c live_pc start end l (caller_loop n c (entrance live_pc c l) start end l)
unfolding caller_loop
caller_loop_lem zero c live_pc start end l e = inr (refl, λ j a b. absurd (omega (arith, e, a, b)))
caller_loop_lem (suc n) c live_pc start end l e =
    either-Answer (is_outside start end (pc_at c l)) _ _ c live_pc start end l
      (λ b. inl (
        c,
        refl,
        record {
          outside = b;
          reached = omega arith;
          in_history = omega (arith, e);
          first = λ j a z. absurd (omega (arith, a, z));
        },
      ))
      (λ b.
        let next : suc c ≡ c + 1 = omega arith in
        let rest = caller_loop_lem n (suc c) live_pc start end l (omega (arith, e)) in
        extended c live_pc start end l _ b (
          subst (λ x. Answer (suc c) live_pc start end l (caller_loop n x (pc_at c l) start end l))
            next rest))

-- For a range of addresses that is not empty and ends by 0x10000, and a request without a cursor,
-- `FindCaller` answers with the latest instruction of the history outside the range, with the
-- instruction that ran after it, or PC if it is the latest, and with its place; it answers that the
-- history has ended exactly if all of it is inside.
pub find_caller_lem :
    (start end live_pc : ℕ) (l : TraceLog)
    → start < end
    → end ≤ 65536
    → Answer 0 live_pc start end l (find_caller start end none live_pc l)
unfolding find_caller
find_caller_lem start end live_pc l low high =
    let ordered : leb end start ≡ false = ground (arith, low) in
    let small : ltb 0x10000 end ≡ false = ground (arith, high) in
    simp (ordered, small) (caller_loop_lem l.history_count 0 live_pc start end l (omega arith))

-- After an instruction other than HLT is logged, it is the latest of the history, with PC as the
-- operand of PCHL, and every other place of the ring holds what the place before it held.
pub item_at-update_log_buffer :
    (instr : Item) (pc cursor : ℕ) (l : TraceLog)
    → (instr.opcode == 0x76) ≡ false
    → l.log_idx < 300000
    → cursor < 300000
    → item_at cursor (update_log_buffer instr pc l) ≡ (
        if cursor == 0
        then record instr { data_w = if instr.opcode == 0xe9 then pc else instr.data_w }
        else item_at (cursor - 1) l)
unfolding update_log_buffer
item_at-update_log_buffer instr pc cursor l other idx small =
    let new = (l.log_idx + 300000 - 1) % 300000 in
    elim (Bool-cases (cursor == 0)) [
      | inl z ↦
          let hit : (new == (new + cursor) % 300000) ≡ true = ground (arith, z, idx) in
          simp (other, z, hit)
      | inr z ↦
          let miss : (new == (new + cursor) % 300000) ≡ false = ground (arith, z, idx, small) in
          let place : (new + cursor) % 300000 ≡ (l.log_idx + (cursor - 1)) % 300000 =
            ground (arith, z, idx, small) in
          simp (other, z, miss) (ap (l.log) place)
    ]

-- ===== src/Tests/Watches.antt =====
-- Concrete runs of the set of watchpoints.
use v6emul.Base.{
  arith, ◌+◌, ◌^◌, ◌≤◌, ◌<◌, ℕ, ◌≡◌, refl, true, false, ◌||◌, ◌==◌, [], ◌∷◌, none, some,
}
use v6emul.Watchpoint.{
  Watchpoint, Watchpoints, WatchType, Access, Condition, Hit, check, allows, holds, contains,
  add_json, insert_wp, add_new, check_set,
}
use v6emul.Watchpoint.Hits.{names, reports, ascending, check_later}
use v6emul.Watchpoint.Hits
use v6emul.Watchpoint.Ids

-- a byte of a buffer below 0x10
abbrev on_buffer : ℕ → Watchpoint
on_buffer id = record {
  global_addr = 0x9000;
  id = id;
  len = 16;
  value = 0x10;
  access = Access.w_access;
  cond = Condition.less;
  watch_type = WatchType.len_type;
  active = true;
  break_l = false;
  break_h = false;
}

-- the set at the start
abbrev no_wps : Watchpoints
no_wps = record { wps = []; updates = 0; wp_break = false; hit = none; next_id = 2 ^ 31 }

abbrev watched : Watchpoints
watched = add_json (on_buffer 3) (add_json (on_buffer 8) no_wps)

abbrev taken : Watchpoints
taken = add_json (on_buffer (2 ^ 31)) (add_json (on_buffer (2 ^ 31 + 1)) no_wps)

check_set-first_hit_example :
    (h : Hit) × ((check_later
        ((Access.w_access, 0x9005, 2, none) ∷ [])
        (check_set Access.w_access 0x9004 1 (some 7) watched)).hit
      ≡ some h)
    × ((n : ℕ) → names n h.ids ≡ reports Access.w_access 0x9004 1 n watched.wps)
    × (ascending h.ids ≡ true)
    × (h.access ≡ Access.w_access)
    × (h.global_addr ≡ 0x9004)
    × (h.value ≡ 1)
    × (h.old_value ≡ some 7)
unfolding check allows holds add_json insert_wp contains
check_set-first_hit_example =
    Hits.check_set-first_hit Access.w_access 0x9004 1 (some 7) watched
      ((Access.w_access, 0x9005, 2, none) ∷ []) refl refl

-- the next id and the one after it were taken by watchpoints from JSON
add_new-first_example :
    (id : ℕ) × (s' : Watchpoints) × (add_new (on_buffer 0) taken ≡ some (id, s'))
    × (2 ^ 31 ≤ id)
    × (id ≤ 2 ^ 31 + 2)
    × (contains id taken.wps ≡ false)
    × ((j : ℕ) → 2 ^ 31 ≤ j → j < id → contains j taken.wps ≡ true)
    × ((n : ℕ) → contains n s'.wps ≡ (id == n || contains n taken.wps))
    × (s'.next_id ≡ id + 1)
unfolding add_json insert_wp contains
add_new-first_example =
    Ids.add_new-first (on_buffer 0) taken (2 ^ 31 + 2) (omega arith) (omega arith) refl

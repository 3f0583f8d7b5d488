-- ===== src/Watchpoint.antt =====
-- `Watchpoint` (libs/v6core/include/core/watchpoint.h, libs/v6core/src/watchpoint.cpp) and the set
-- of them (libs/v6core/src/watchpoints.cpp). Reading JSON, printing and the comment of a watchpoint are
-- left out. The set is a list of watchpoints with different ids. An id is an `int`, kept 2^31 higher:
-- 2^31 stands for 0, and an id from 2^32 on is an overflow.
pub mod Laws
pub mod Hits
pub mod Ids
use v6emul.Base.{
  ℕ, ◌+◌, ◌-◌, ◌/◌, ◌%◌, ◌^◌, Bool, true, false, not, ◌&&◌, ◌||◌, ltb, leb, ◌==◌, max, zero, suc,
  length, ◌>>=◌,
}
use v6emul.Base.{if◌then◌else◌, u8, List, [], ◌∷◌, Option, none, some}

-- LEN: any byte of the range; WORD: the two bytes of a word.
pub data WatchType : Type 0 where
  len_type word_type : WatchType

pub data Access : Type 0 where
  r_access w_access rw_access : Access

pub data Condition : Type 0 where
  any equ less greater less_equ greater_equ not_equ invalid : Condition

pub record Watchpoint : Type 0 where
  pub global_addr : ℕ
  pub id : ℕ
  pub len : ℕ
  pub value : ℕ
  pub access : Access
  pub cond : Condition
  pub watch_type : WatchType
  pub active : Bool
  pub break_l : Bool
  pub break_h : Bool

-- `data.access != Access::RW && data.access != _access` fails
unfoldable pub allows : Access → Access → Bool
allows rw_access access = true
allows r_access r_access = true
allows w_access w_access = true
allows _ access = false

-- the switch over the condition; `none` is its default case, which returns false at once
unfoldable pub holds : Condition → ℕ → ℕ → Option Bool
holds any value byte = some true
holds equ value byte = some (value == byte)
holds less value byte = some (ltb value byte)
holds greater value byte = some (ltb byte value)
holds less_equ value byte = some (leb value byte)
holds greater_equ value byte = some (leb byte value)
holds not_equ value byte = some (not (value == byte))
holds invalid value byte = none

abbrev pub is_len : WatchType → Bool
is_len len_type = true
is_len word_type = false

-- `GlobalAddr` and `m_updates` have 32 bits.
abbrev pub u32 : ℕ → ℕ
u32 n = n % 2 ^ 32

abbrev pub in_range : ℕ → Watchpoint → Bool
in_range addr wp = not (ltb addr wp.global_addr || leb (u32 (wp.global_addr + wp.len)) addr)

-- whether the accessed byte is the low one, and the byte that it is compared with
abbrev pub is_low : ℕ → Watchpoint → Bool
is_low addr wp = is_len wp.watch_type || addr == wp.global_addr

abbrev pub compared : ℕ → Watchpoint → ℕ
compared addr wp = if is_low addr wp then u8 wp.value else u8 (wp.value / 256)

abbrev pub mark : Bool → Bool → Watchpoint → Watchpoint
mark low hit wp = if low then record wp { break_l = hit } else record wp { break_h = hit }

-- `Watchpoint::Check`
unfoldable pub check : Access → ℕ → ℕ → Watchpoint → Bool × Watchpoint
check access addr value wp =
    if not wp.active || not (allows wp.access access) || not (in_range addr wp)
    then (false, wp)
    else elim (holds wp.cond value (compared addr wp)) [
      | none ↦ (false, wp)
      | some hit ↦
          let wp' = mark (is_low addr wp) hit wp in
          (wp'.break_l && (is_len wp.watch_type || wp'.break_h), wp')
    ]

-- `Watchpoint::Reset`
unfoldable pub reset : Watchpoint → Watchpoint
reset wp = record wp { break_l = false; break_h = false }

-- `Hit`
pub record Hit : Type 0 where
  pub ids : List ℕ
  pub access : Access
  pub global_addr : ℕ
  pub value : ℕ
  pub old_value : Option ℕ

-- `Watchpoints`: the set, the count of its changes, the break, its first hit and the next id.
pub record Watchpoints : Type 0 where
  pub wps : List Watchpoint
  pub updates : ℕ
  pub wp_break : Bool
  pub hit : Option Hit
  pub next_id : ℕ

-- `m_wps.contains`
unfoldable pub contains : ℕ → List Watchpoint → Bool
contains n [] = false
contains n (wp ∷ wps) = wp.id == n || contains n wps

-- `Update` of the watchpoint with this id
unfoldable pub update_wp : Watchpoint → List Watchpoint → List Watchpoint
update_wp wp [] = []
update_wp wp (old ∷ wps) = if old.id == wp.id then wp ∷ wps else old ∷ update_wp wp wps

unfoldable pub erase : ℕ → List Watchpoint → List Watchpoint
erase n [] = []
erase n (wp ∷ wps) = if wp.id == n then wps else wp ∷ erase n wps

-- `Clear`
unfoldable pub clear : Watchpoints → Watchpoints
clear s = elim (s.wps) [ [] ↦ s | wp ∷ wps ↦ record s { wps = []; updates = u32 (s.updates + 1) } ]

-- one past the largest `int`
abbrev pub int_end : ℕ
int_end = 2 ^ 32

-- `m_wps` with a watchpoint, new or in the place of the one with its id
unfoldable pub insert_wp : Watchpoint → List Watchpoint → List Watchpoint
insert_wp wp wps = if contains wp.id wps then update_wp wp wps else wp ∷ wps

-- `id + 1`; `none` is its overflow
unfoldable pub next_int : ℕ → Option ℕ
next_int id = if ltb (id + 1) int_end then some (id + 1) else none

-- `Add`
unfoldable pub add : Watchpoint → Watchpoints → Option Watchpoints
add wp s = do
  next ← next_int wp.id
  some (record s {
    updates = u32 (s.updates + 1);
    next_id = max s.next_id next;
    wps = insert_wp wp s.wps;
  })

-- `Add` of a watchpoint read from JSON: the next id stays
unfoldable pub add_json : Watchpoint → Watchpoints → Watchpoints
add_json wp s = record s { updates = u32 (s.updates + 1); wps = insert_wp wp s.wps }

-- `Edit`
unfoldable pub edit : Watchpoint → Watchpoints → Bool × Watchpoints
edit wp s =
    if contains wp.id s.wps
    then (true, record s { wps = update_wp wp s.wps; updates = u32 (s.updates + 1) })
    else (false, s)

-- `Del`
unfoldable pub del : ℕ → Watchpoints → Watchpoints
del n s =
    if contains n s.wps then record s { wps = erase n s.wps; updates = u32 (s.updates + 1) } else s

-- the loop of `AddNew`; the fuel is the number of ints that are left, whose end is an overflow
unfoldable pub free_id : ℕ → ℕ → List Watchpoint → Option ℕ
free_id zero next wps = none
free_id (suc fuel) next wps =
    let rest = free_id fuel (next + 1) wps in if contains next wps then rest else some next

-- `AddNew`
unfoldable pub add_new : Watchpoint → Watchpoints → Option (ℕ × Watchpoints)
add_new wp s = do
  id ← free_id (int_end - s.next_id) s.next_id s.wps
  next ← next_int id
  s' ← add (record wp { id = id }) (record s { next_id = next })
  some (id, s')

-- `std::sort` of the ids
unfoldable pub insert_id : ℕ → List ℕ → List ℕ
insert_id id [] = id ∷ []
insert_id id (other ∷ ids) = if leb id other then id ∷ other ∷ ids else other ∷ insert_id id ids

unfoldable pub sort_ids : List ℕ → List ℕ
sort_ids [] = []
sort_ids (id ∷ ids) = insert_id id (sort_ids ids)

-- the loop of `Check` over the set: the ids that match, and the marked watchpoints
unfoldable pub check_each : Access → ℕ → ℕ → List Watchpoint → List ℕ × List Watchpoint
check_each access addr value [] = ([], [])
check_each access addr value (wp ∷ wps) =
    let (matched, marked) = check access addr value wp in
    let (ids, rest) = check_each access addr value wps in
    (if matched then wp.id ∷ ids else ids, marked ∷ rest)

-- a match breaks, and is the hit if it is the first
unfoldable pub mark_hit : List ℕ → Hit → Watchpoints → Watchpoints
mark_hit [] first s = s
mark_hit (id ∷ ids) first s = record s {
  wp_break = true;
  hit = elim (s.hit) [ none ↦ some first | some hit ↦ some hit ];
}

-- `Check`
unfoldable pub check_set : Access → ℕ → ℕ → Option ℕ → Watchpoints → Watchpoints
check_set access addr value old s =
    let (ids, wps) = check_each access addr value s.wps in
    mark_hit ids
      (record {
        ids = sort_ids ids;
        access = access;
        global_addr = addr;
        value = value;
        old_value = old;
      })
      (record s { wps = wps })

-- the loop of `CheckBreak`
unfoldable pub reset_all : List Watchpoint → List Watchpoint
reset_all [] = []
reset_all (wp ∷ wps) = reset wp ∷ reset_all wps

-- `CheckBreak`
unfoldable pub check_break : Watchpoints → Bool × Watchpoints
check_break s =
    if s.wp_break
    then (true, record s { wp_break = false; hit = none; wps = reset_all s.wps })
    else (false, s)

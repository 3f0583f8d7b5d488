-- ===== src/Watchpoint/Laws.antt =====
-- What a watchpoint of libs/v6core/src/watchpoint.cpp reports, and the set of them.
use v6emul.Base.{
  ℕ, ◌+◌, ◌/◌, ◌≤◌, ◌<◌, ◌^◌, ◌≡◌, refl, ap, arith, Bool, true, false, not, ◌&&◌, ◌||◌, ◌==◌, u8,
  List, [], ◌∷◌, Option, none, some, Bool-cases, inl, inr,
}
use v6emul.Watchpoint.{
  Watchpoint, Access, check, reset, allows, holds, in_range, contains, insert_wp, update_wp,
  len_type, word_type,
}

-- an answer of the switch, or no
abbrev pub or_false : Option Bool → Bool
or_false none = false
or_false (some b) = b

-- A watchpoint of a range reports an access exactly if it is active, allows the access, has the
-- address in its range, and the byte satisfies its condition against the low byte of its value.
pub check-len :
    (wp : Watchpoint) (access : Access) (addr value : ℕ)
    → wp.watch_type ≡ len_type
    → (check access addr value wp).0 ≡ (
        wp.active
        && allows wp.access access
        && in_range addr wp
        && or_false (holds wp.cond value (u8 wp.value)))
unfolding check
check-len wp access addr value e =
    elim (Bool-cases (not wp.active || not (allows wp.access access) || not (in_range addr wp))) [
      | inl off ↦ rw (e, off) (ground arith)
      | inr on ↦ rw (e, on) (ground arith)
    ]

-- After a reset, an active word watchpoint that allows the access, and has at least two bytes that
-- end below address 2 ^ 32, reports, at the access of its high byte after that of its low byte,
-- exactly that both bytes satisfy its condition.
pub check-word :
    (wp : Watchpoint) (access : Access) (low high : ℕ)
    → wp.watch_type ≡ word_type
    → wp.active ≡ true
    → allows wp.access access ≡ true
    → 2 ≤ wp.len
    → wp.global_addr + wp.len < 2 ^ 32
    → (check access (wp.global_addr + 1) high (check access wp.global_addr low (reset wp)).1).0 ≡ (
        or_false (holds wp.cond low (u8 wp.value))
        && or_false (holds wp.cond high (u8 (wp.value / 256))))
unfolding check reset
check-word wp access low high e on may len fits = ground arith

contains-update_wp :
    (wp : Watchpoint) (n : ℕ) (wps : List Watchpoint)
    → contains n (update_wp wp wps) ≡ contains n wps
unfolding contains update_wp
contains-update_wp wp n [] = refl
contains-update_wp wp n (old ∷ wps) = ground (arith, contains-update_wp wp n wps)

-- With a watchpoint the set has its id and the ids it had before, and no other.
pub contains-insert_wp :
    (wp : Watchpoint) (n : ℕ) (wps : List Watchpoint)
    → contains n (insert_wp wp wps) ≡ (wp.id == n || contains n wps)
unfolding insert_wp contains
contains-insert_wp wp n wps =
    ground (arith, contains-update_wp wp n wps, λ (e : wp.id ≡ n). ap (λ (k : ℕ). contains k wps) e)

-- ===== src/Watchpoint/Hits.antt =====
-- The first hit of a set of watchpoints (libs/v6core/src/watchpoints.cpp).
use v6emul.Base.{
  ℕ, ◌≡◌, refl, ◌∙◌, arith, Bool, true, false, ◌&&◌, ◌||◌, ◌==◌, leb, List, [], ◌∷◌, Option, none,
  some, Bool-cases,
}
use v6emul.Watchpoint.{
  Watchpoint, Watchpoints, Access, Hit, check, check_each, check_set, mark_hit, insert_id, sort_ids,
}

abbrev pub names : ℕ → List ℕ → Bool
names n [] = false
names n (id ∷ ids) = id == n || names n ids

abbrev pub ascending : List ℕ → Bool
ascending [] = true
ascending (id ∷ []) = true
ascending (id ∷ other ∷ ids) = leb id other && ascending (other ∷ ids)

abbrev has_any : List ℕ → Bool
has_any [] = false
has_any (id ∷ ids) = true

-- Whether the watchpoint of an id, and whether any, reports an access.
abbrev pub reports : Access → ℕ → ℕ → ℕ → List Watchpoint → Bool
reports access addr value n [] = false
reports access addr value n (wp ∷ wps) =
    (wp.id == n && (check access addr value wp).0) || reports access addr value n wps

abbrev pub any_reports : Access → ℕ → ℕ → List Watchpoint → Bool
any_reports access addr value [] = false
any_reports access addr value (wp ∷ wps) =
    (check access addr value wp).0 || any_reports access addr value wps

names-insert_id : (n id : ℕ) (ids : List ℕ) → names n (insert_id id ids) ≡ (id == n || names n ids)
unfolding insert_id
names-insert_id n id [] = refl
names-insert_id n id (other ∷ ids) = ground (arith, names-insert_id n id ids)

names-sort_ids : (n : ℕ) (ids : List ℕ) → names n (sort_ids ids) ≡ names n ids
unfolding sort_ids
names-sort_ids n [] = refl
names-sort_ids n (id ∷ ids) =
    ground (arith, names-insert_id n id (sort_ids ids), names-sort_ids n ids)

ascending-insert_id :
    (id : ℕ) (ids : List ℕ) → ascending ids ≡ true → ascending (insert_id id ids) ≡ true
unfolding insert_id
ascending-insert_id id [] h = refl
ascending-insert_id id (other ∷ []) h = ground arith
ascending-insert_id id (other ∷ next ∷ ids) h = ground (arith, ascending-insert_id id (next ∷ ids))

ascending-sort_ids : (ids : List ℕ) → ascending (sort_ids ids) ≡ true
unfolding sort_ids
ascending-sort_ids [] = refl
ascending-sort_ids (id ∷ ids) = ascending-insert_id id (sort_ids ids) (ascending-sort_ids ids)

module _ (access : Access) (addr value : ℕ) where
  names-check_each :
      (n : ℕ) (wps : List Watchpoint)
      → names n (check_each access addr value wps).0 ≡ reports access addr value n wps
  unfolding check_each
  names-check_each n [] = refl
  names-check_each n (wp ∷ wps) =
      ground (arith, names-check_each n wps, Bool-cases (check access addr value wp).0)

  any-check_each :
      (wps : List Watchpoint)
      → has_any (check_each access addr value wps).0 ≡ any_reports access addr value wps
  unfolding check_each
  any-check_each [] = refl
  any-check_each (wp ∷ wps) = ground (arith, any-check_each wps)

new_hit :
    (ids : List ℕ) (first : Hit) (s : Watchpoints)
    → has_any ids ≡ true
    → s.hit ≡ none
    → (mark_hit ids first s).hit ≡ some first
unfolding mark_hit
new_hit [] first s h free = ground (arith, h)
new_hit (id ∷ ids) first s h free = ground (arith, free)

old_hit :
    (ids : List ℕ) (first h : Hit) (s : Watchpoints)
    → s.hit ≡ some h
    → (mark_hit ids first s).hit ≡ some h
unfolding mark_hit
old_hit [] first h s e = e
old_hit (id ∷ ids) first h s e = ground (arith, e)

-- accesses one after another
abbrev pub check_later : List (Access × ℕ × ℕ × Option ℕ) → Watchpoints → Watchpoints
check_later [] s = s
check_later ((access, addr, value, old) ∷ later) s =
    check_later later (check_set access addr value old s)

later_hit :
    (later : List (Access × ℕ × ℕ × Option ℕ)) (s : Watchpoints) (h : Hit)
    → s.hit ≡ some h
    → (check_later later s).hit ≡ some h
unfolding check_set
later_hit [] s h e = e
later_hit ((access, addr, value, old) ∷ later) s h e =
    later_hit later (check_set access addr value old s) h (old_hit _ _ h _ e)

-- In a set with no hit, the first access that any watchpoint reports makes a hit with that access
-- and with the ids, in ascending order, of exactly the watchpoints that report it; further accesses
-- leave the hit.
pub check_set-first_hit :
    (access : Access) (addr value : ℕ) (old : Option ℕ) (s : Watchpoints)
    (later : List (Access × ℕ × ℕ × Option ℕ))
    → s.hit ≡ none
    → any_reports access addr value s.wps ≡ true
    → (h : Hit) × ((check_later later (check_set access addr value old s)).hit ≡ some h)
      × ((n : ℕ) → names n h.ids ≡ reports access addr value n s.wps)
      × (ascending h.ids ≡ true)
      × (h.access ≡ access)
      × (h.global_addr ≡ addr)
      × (h.value ≡ value)
      × (h.old_value ≡ old)
unfolding check_set
check_set-first_hit access addr value old s later free h =
    let first : Hit = record {
      ids = sort_ids (check_each access addr value s.wps).0;
      access = access;
      global_addr = addr;
      value = value;
      old_value = old;
    } in
    let made =
      new_hit (check_each access addr value s.wps).0 first _
        (any-check_each access addr value s.wps ∙ h) free in
    (
      first,
      later_hit later (check_set access addr value old s) first made,
      λ n. names-sort_ids n _ ∙ names-check_each access addr value n s.wps,
      ascending-sort_ids _,
      refl,
      refl,
      refl,
      refl,
    )

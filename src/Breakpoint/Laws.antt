-- ===== src/Breakpoint/Laws.antt =====
-- The map of breakpoints as a function of the address, and the counters
-- (libs/v6core/src/breakpoints.cpp).
use v6emul.Base.{
  ℕ, ◌-◌, ◌≡◌, refl, sym, ◌∙◌, ap, arith, true, false, ◌==◌, if◌then◌else◌, Option, none, some,
  List, [], ◌∷◌, Option-cases, Bool-cases, inl, inr,
}
use v6emul.Memory.{Memory}
use v6emul.Cpu.State.{Cpu}
use v6emul.Breakpoint.{
  Breakpoint, Breakpoints, Status, find, replace, erase_at, add_bp, del_bp, set_status, check_bp,
  check_status, count_down, clear_all, same_status, disabled, active, deleted, status_count,
}

-- the breakpoint found at an address, after each change of the list
pub find_addr :
    (at : ℕ) (bps : List Breakpoint) (bp : Breakpoint) → find at bps ≡ some bp → bp.addr ≡ at
unfolding find
find_addr at [] bp e = ground (arith, e)
find_addr at (old ∷ bps) bp e = ground (arith, e, find_addr at bps bp)

pub find-erase :
    (at q : ℕ) (bps : List Breakpoint)
    → find q (erase_at at bps) ≡ (if at == q then none else find q bps)
unfolding find erase_at
find-erase at q [] = ground arith
find-erase at q (bp ∷ bps) = ground (arith, find-erase at q bps)

pub find-replace :
    (bp old : Breakpoint) (q : ℕ) (bps : List Breakpoint)
    → find bp.addr bps ≡ some old
    → find q (replace bp bps) ≡ (if bp.addr == q then some bp else find q bps)
unfolding find replace
find-replace bp old q [] e = ground (arith, e)
find-replace bp old q (b ∷ bps) e = ground (arith, e, find-replace bp old q bps)

-- The map as a function.
abbrev pub lookup : Breakpoints → ℕ → Option Breakpoint
lookup s q = find q s.bps

lookup-add :
    (bp : Breakpoint) (s : Breakpoints) (q : ℕ)
    → lookup (add_bp bp s) q ≡ (if bp.addr == q then some bp else lookup s q)
unfolding add_bp find
lookup-add bp s q = go (find bp.addr s.bps) refl
  where
    go :
        (o : Option Breakpoint)
        → find bp.addr s.bps ≡ o
        → find q (elim o [ none ↦ bp ∷ s.bps | some old ↦ replace bp s.bps ])
          ≡ (if bp.addr == q then some bp else lookup s q)
    go none e = refl
    go (some old) e = find-replace bp old q s.bps e

lookup-del :
    (at : ℕ) (s : Breakpoints) (q : ℕ)
    → lookup (del_bp at s) q ≡ (if at == q then none else lookup s q)
unfolding del_bp
lookup-del at s q = elim (Option-cases (find at s.bps)) [
  | inl e ↦ rw (e, del_bp) (ground (arith, e))
  | inr (bp, e) ↦ rw (e, del_bp) (find-erase at q s.bps)
]

same_status_sound : (s t : Status) → same_status s t ≡ true → s ≡ t
same_status_sound disabled disabled e = refl
same_status_sound active active e = refl
same_status_sound deleted deleted e = refl
same_status_sound disabled active e = ground (arith, e)
same_status_sound disabled deleted e = ground (arith, e)
same_status_sound active disabled e = ground (arith, e)
same_status_sound active deleted e = ground (arith, e)
same_status_sound deleted disabled e = ground (arith, e)
same_status_sound deleted active e = ground (arith, e)
same_status_sound status_count status_count e = refl
same_status_sound disabled status_count e = ground (arith, e)
same_status_sound status_count disabled e = ground (arith, e)
same_status_sound active status_count e = ground (arith, e)
same_status_sound status_count active e = ground (arith, e)
same_status_sound deleted status_count e = ground (arith, e)
same_status_sound status_count deleted e = ground (arith, e)

-- a change of status at one address, in a function from addresses
abbrev pub restatus : Status → Option Breakpoint → Option Breakpoint
restatus status none = none
restatus status (some bp) = some (record bp { status = status })

lookup-set_status :
    (at : ℕ) (status : Status) (s : Breakpoints) (q : ℕ)
    → lookup (set_status at status s) q
      ≡ (if at == q then restatus status (lookup s q) else lookup s q)
unfolding set_status
lookup-set_status at status s q = elim (Option-cases (find at s.bps)) [
  | inl e ↦ rw (e, set_status) (ground (arith, e))
  | inr (bp, e) ↦
      rw (e, set_status)
        (elim (Bool-cases (same_status bp.status status)) [
          | inl same ↦ simp (same) (
              let kept =
                ap (λ (st : Status). some (record bp { status = st }))
                  (sym (same_status_sound bp.status status same)) in
              ground (arith, e, kept))
          | inr other ↦ simp (other) (
              let there = find_addr at s.bps bp e in
              let found : find bp.addr s.bps ≡ some bp = ap (λ a. find a s.bps) there ∙ e in
              let found_new = find-replace (record bp { status = status }) bp q s.bps found in
              ground (arith, e, found_new, there))
        ])
]

-- `Check` at a state where the breakpoint at PC holds
pub check_bp-count_down :
    (cpu : Cpu) (m : Memory) (bp : Breakpoint) (s : Breakpoints)
    → find cpu.pc s.bps ≡ some bp
    → check_status cpu m bp ≡ true
    → check_bp cpu m s ≡ count_down bp s
unfolding check_bp
check_bp-count_down cpu m bp s e h = rw (e, check_bp) (simp (h))

lookup-check :
    (cpu : Cpu) (m : Memory) (s : Breakpoints) (q : ℕ)
    → (cpu.pc == q) ≡ false
    → lookup (check_bp cpu m s).1 q ≡ lookup s q
unfolding check_bp count_down
lookup-check cpu m s q other = elim (Option-cases (find cpu.pc s.bps)) [
  | inl e ↦ rw (e, check_bp) refl
  | inr (bp, e) ↦
      let there = find_addr cpu.pc s.bps bp e in
      let found : find bp.addr s.bps ≡ some bp = ap (λ a. find a s.bps) there ∙ e in
      let replaced = find-replace (record bp { counter = bp.counter - 1 }) bp q s.bps found in
      let erased = find-erase bp.addr q s.bps in
      rw (e, check_bp) (ground (arith, replaced, erased, there, other))
]

-- All changes of the map.
pub record RefinesMap (s : Breakpoints) : Type 0 where
  pub adds :
      (bp : Breakpoint) (q : ℕ)
      → lookup (add_bp bp s) q ≡ (if bp.addr == q then some bp else lookup s q)
  pub deletes : (at q : ℕ) → lookup (del_bp at s) q ≡ (if at == q then none else lookup s q)
  pub clears : (q : ℕ) → lookup (clear_all s) q ≡ none
  pub sets :
      (at : ℕ) (status : Status) (q : ℕ)
      → lookup (set_status at status s) q
        ≡ (if at == q then restatus status (lookup s q) else lookup s q)
  pub checks :
      (cpu : Cpu) (m : Memory) (q : ℕ)
      → (cpu.pc == q) ≡ false
      → lookup (check_bp cpu m s).1 q ≡ lookup s q

cleared :
    (bps : List Breakpoint) (n q : ℕ)
    → lookup (clear_all (record { bps = bps; updates = n })) q ≡ none
unfolding clear_all find
cleared [] n q = refl
cleared (bp ∷ bps) n q = refl

lookup-clear : (s : Breakpoints) (q : ℕ) → lookup (clear_all s) q ≡ none
lookup-clear s q = cleared s.bps s.updates q

-- The map of breakpoints is a function from addresses: adding, deleting, clearing and setting the
-- status change it at the address that they are given, or everywhere, and a check changes it only
-- at PC.
pub lookup-RefinesMap : (s : Breakpoints) → RefinesMap s
lookup-RefinesMap s = record {
  adds = λ bp q. lookup-add bp s q;
  deletes = λ at q. lookup-del at s q;
  clears = lookup-clear s;
  sets = λ at status q. lookup-set_status at status s q;
  checks = λ cpu m q. lookup-check cpu m s q;
}

-- ===== src/Breakpoint/Counters.antt =====
-- Breakpoints that count their hits (`Check` of libs/v6core/src/breakpoints.cpp).
use v6emul.Base.{
  ℕ, zero, suc, ◌-◌, ◌≡◌, refl, ◌∙◌, ap, ap₂, arith, Bool, true, false, if◌then◌else◌, none, some,
  List, [], ◌∷◌, ◌++◌, length, replicate, All,
}
use v6emul.Memory.{Memory}
use v6emul.Cpu.State.{Cpu}
use v6emul.Breakpoint.{Breakpoint, Breakpoints, find, check_bp, check_status, count_down}
use v6emul.Breakpoint.Laws.{find_addr, find-replace, find-erase, check_bp-count_down, lookup}

-- an instruction at the address for which the condition of the breakpoint holds
abbrev pub IsHit : ℕ → Breakpoint → Cpu × Memory → Type 0
IsHit at bp (cpu, m) = (cpu.pc ≡ at) × (check_status cpu m bp ≡ true)

-- the checks of one instruction after the other
unfoldable pub check_all : List (Cpu × Memory) → Breakpoints → List Bool × Breakpoints
check_all [] s = ([], s)
check_all ((cpu, m) ∷ rest) s =
    let (b, s1) = check_bp cpu m s in let (bs, s2) = check_all rest s1 in (b ∷ bs, s2)

-- One hit: the last, or one before it.
module _ (at : ℕ) (bp : Breakpoint) (s : Breakpoints) (e : lookup s at ≡ some bp) where
  there : bp.addr ≡ at
  there = find_addr at s.bps bp e

  found : find bp.addr s.bps ≡ some bp
  found = ap (λ a. find a s.bps) there ∙ e

  counted : (x : Cpu × Memory) → IsHit at bp x → check_bp x.0 x.1 s ≡ count_down bp s
  counted (cpu, m) h = check_bp-count_down cpu m bp s (ap (λ a. find a s.bps) h.0 ∙ e) h.1

  hit_last :
      bp.counter ≡ 1
      → ((count_down bp s).0 ≡ true)
        × (lookup (count_down bp s).1 at
            ≡ (if bp.auto_del then none else some (record bp { counter = 0 })))
  unfolding count_down
  hit_last one =
      let counter : bp.counter - 1 ≡ 0 = omega (arith, one) in
      let same = ap (λ (c : ℕ). some (record bp { counter = c })) counter in
      let replaced = find-replace (record bp { counter = bp.counter - 1 }) bp at s.bps found in
      let erased = find-erase bp.addr at s.bps in
      (ground (arith, one), ground (arith, counter, replaced, erased, there, same))

  hit_before :
      (n : ℕ)
      → bp.counter ≡ suc (suc n)
      → ((count_down bp s).0 ≡ false)
        × (lookup (count_down bp s).1 at ≡ some (record bp { counter = suc n }))
  unfolding count_down
  hit_before n more =
      let counter : bp.counter - 1 ≡ suc n = omega (arith, more) in
      let same = ap (λ (c : ℕ). some (record bp { counter = c })) counter in
      let replaced = find-replace (record bp { counter = bp.counter - 1 }) bp at s.bps found in
      (ground (arith, more), ground (arith, counter, replaced, there, same))

-- The condition does not depend on the counter.
still_hits :
    (at : ℕ) (bp : Breakpoint) (c : ℕ) (xs : List (Cpu × Memory))
    → All (IsHit at bp) xs
    → All (IsHit at (record bp { counter = c })) xs
unfolding check_status
still_hits at bp c [] h = h
still_hits at bp c (x ∷ xs) h = (h.0, still_hits at bp c xs h.1)

-- A breakpoint whose counter is n + 1, checked at n + 1 instructions at its address for which its
-- condition holds, breaks at the last and at none before it. It is then deleted if it is set so,
-- and otherwise stays with counter 0.
pub check_all-breaks :
    (n at : ℕ) (xs : List (Cpu × Memory)) (bp : Breakpoint) (s : Breakpoints)
    → lookup s at ≡ some bp
    → bp.counter ≡ suc n
    → length xs ≡ suc n
    → All (IsHit at bp) xs
    → ((check_all xs s).0 ≡ replicate n false ++ (true ∷ []))
      × (lookup (check_all xs s).1 at
          ≡ (if bp.auto_del then none else some (record bp { counter = 0 })))
unfolding check_all
check_all-breaks n at [] bp s e c len h = absurd (omega (arith, len))
check_all-breaks zero at (x ∷ []) bp s e c len h =
    let (b, after) = hit_last at bp s e c in
    rw (counted at bp s e x h.0, check_all) (ap (λ v. v ∷ []) b, after)
check_all-breaks zero at (x ∷ y ∷ xs) bp s e c len h = absurd (omega (arith, len))
check_all-breaks (suc n) at (x ∷ xs) bp s e c len h =
    let (b, e1) = hit_before at bp s e n c in
    let bp1 : Breakpoint = record bp { counter = suc n } in
    let rest =
      check_all-breaks n at xs bp1 (count_down bp s).1 e1 refl (omega (arith, len))
        (still_hits at bp (suc n) xs h.1) in
    rw (counted at bp s e x h.0, check_all) (ap₂ ◌∷◌ b rest.0, rest.1)

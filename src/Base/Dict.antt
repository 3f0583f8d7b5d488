-- ===== src/Base/Dict.antt =====
-- A map with numbers as keys: a list of pairs, in which a key that stands twice is found once.
use Prim.Native.Nat.{ℕ}
use mathlib.Core.Path.{◌≡◌, subst}
use mathlib.Core.Option.{Option, none, some, some-injective}
use mathlib.Core.Logic.{inl, inr}
use mathlib.Core.List.{List, [], ◌∷◌}
use native.Mathlib.Omega.{arith}
use v6emul.Base.Tests.{◌==◌, if◌then◌else◌, if-both, Bool-cases}
use v6emul.Base.Lists.{All}

abbrev pub Dict {ℓ} : Type ℓ → Type ℓ
Dict A = List (ℕ × A)

module _ {ℓ} {A : Type ℓ} where
  unfoldable pub lookup : ℕ → Dict A → Option A
  lookup k [] = none
  lookup k ((j, a) ∷ d) = let rest = lookup k d in if j == k then some a else rest

  -- The value takes the place of the one that was there.
  unfoldable pub insert : ℕ → A → Dict A → Dict A
  insert k a [] = (k, a) ∷ []
  insert k a ((j, b) ∷ d) = let rest = insert k a d in if j == k then (k, a) ∷ d else (j, b) ∷ rest

  unfoldable pub remove : ℕ → Dict A → Dict A
  remove k [] = []
  remove k ((j, b) ∷ d) = let rest = remove k d in if j == k then rest else (j, b) ∷ rest

  pub lookup-insert :
      (k q : ℕ) (a : A) (d : Dict A)
      → lookup q (insert k a d) ≡ (if k == q then some a else lookup q d)
  unfolding lookup insert
  lookup-insert k q a [] = ground arith
  lookup-insert k q a ((j, b) ∷ d) = ground (arith, lookup-insert k q a d)

  pub lookup-remove :
      (k q : ℕ) (d : Dict A) → lookup q (remove k d) ≡ (if k == q then none else lookup q d)
  unfolding lookup remove
  lookup-remove k q [] = ground arith
  lookup-remove k q ((j, b) ∷ d) = ground (arith, lookup-remove k q d)

  -- A property of all values.
  abbrev pub Values {κ} : (A → Type κ) → Dict A → Type κ
  Values P = All (λ e. P (e.1))

  pub Values-insert {κ} :
      (P : A → Type κ) (k : ℕ) (a : A) (d : Dict A) → P a → Values P d → Values P (insert k a d)
  unfolding insert
  Values-insert P k a [] h v = (h, tt)
  Values-insert P k a ((j, b) ∷ d) h v =
      if-both (Values P) (j == k) (h, v.1) (v.0, Values-insert P k a d h v.1)

  pub Values-remove {κ} : (P : A → Type κ) (k : ℕ) (d : Dict A) → Values P d → Values P (remove k d)
  unfolding remove
  Values-remove P k [] v = tt
  Values-remove P k ((j, b) ∷ d) v =
      if-both (Values P) (j == k) (Values-remove P k d v.1) (v.0, Values-remove P k d v.1)

  pub Values-lookup {κ} :
      (P : A → Type κ) (k : ℕ) (a : A) (d : Dict A) → Values P d → lookup k d ≡ some a → P a
  unfolding lookup
  Values-lookup P k a [] v h = ground arith
  Values-lookup P k a ((j, b) ∷ d) v h = elim (Bool-cases (j == k)) [
    | inl e ↦ subst P (some-injective _ _ (rw e at h)) v.0
    | inr e ↦ Values-lookup P k a d v.1 (rw e at h)
  ]

-- ===== src/Trace/Glob/Matches.antt =====
-- `GlobMatches` against the meaning of a pattern.
use v6emul.Base.{
  ℕ, zero, suc, ◌+◌, ◌≤◌, ◌<◌, ◌≡◌, refl, sym, ap, ◌∙◌, arith, Bool, true, false, not, ◌&&◌, ◌||◌,
  ◌==◌, if◌then◌else◌, Option, none, some, [], ◌∷◌, length, Bool-cases, inl, inr, if-known,
}
use v6emul.Base.Text.{Bytes}
use v6emul.Trace.Glob.{
  star_char, same_letter, only_stars, Star, take_more, glob_pass, glob_loop, passes_for,
  glob_matches,
}

-- whether a test holds of a part that begins later, or of any part from some place on
unfoldable pub later : (Bytes → Bool) → Bytes → Bool
later f [] = false
later f (c ∷ value) = f value || later f value

abbrev pub any_rest : (Bytes → Bool) → Bytes → Bool
any_rest f value = f value || later f value

-- a letter, then the rest
abbrev pub letter : ℕ → (Bytes → Bool) → Bytes → Bool
letter x f [] = false
letter x f (c ∷ value) = same_letter x c && f value

abbrev pub is_empty : Bytes → Bool
is_empty [] = true
is_empty (c ∷ value) = false

-- What a pattern means: a star stands for any text, a letter for itself in either case.
unfoldable pub glob : Bytes → Bytes → Bool
glob [] value = is_empty value
glob (x ∷ pattern) value =
    if x == star_char then any_rest (glob pattern) value else letter x (glob pattern) value

-- The pattern and the value have gone on by the same number of letters.
data Walked (pattern value : Bytes) : Bytes → Bytes → Type 0 where
  start : Walked pattern value pattern value
  walk :
      (x c : ℕ) (p v : Bytes)
      → (x == star_char) ≡ false
      → Walked pattern value (x ∷ p) (c ∷ v)
      → Walked pattern value p v

later-letter :
    (x : ℕ) (f : Bytes → Bool) (c : ℕ) (value : Bytes)
    → later (letter x f) (c ∷ value) ≡ true
    → later f value ≡ true
unfolding later
later-letter x f c [] h = ground (arith, h)
later-letter x f c (d ∷ value) h = ground (arith, h, later-letter x f d value)

later-any_rest :
    (f : Bytes → Bool) (value : Bytes) → later (any_rest f) value ≡ true → later f value ≡ true
unfolding later
later-any_rest f [] h = h
later-any_rest f (c ∷ value) h = ground (arith, h, later-any_rest f value)

later-ext :
    (f g : Bytes → Bool) (value : Bytes) → ((v : Bytes) → f v ≡ g v) → later f value ≡ later g value
unfolding later
later-ext f g [] same = refl
later-ext f g (c ∷ value) same = rw (same value, later-ext f g value same)

glob-letter :
    (x : ℕ) (p v : Bytes) → (x == star_char) ≡ false → glob (x ∷ p) v ≡ letter x (glob p) v
unfolding glob
glob-letter x p v ne = rw (ne) refl

glob-star : (x : ℕ) (p v : Bytes) → (x == star_char) ≡ true → glob (x ∷ p) v ≡ any_rest (glob p) v
unfolding glob
glob-star x p v e = rw (e) refl

-- A match further on is one further on for what is left.
Walked-later :
    {pattern value p v : Bytes}
    → Walked pattern value p v
    → later (glob pattern) value ≡ true
    → later (glob p) v ≡ true
Walked-later start h = h
Walked-later (walk x c p v ne w) h = later-letter x (glob p) c v (
    sym (later-ext (glob (x ∷ p)) (letter x (glob p)) (c ∷ v) (λ u. glob-letter x p u ne))
    ∙ Walked-later w h)

-- With the value at its end nothing further on matches, and only stars do.
Walked-end :
    {pattern value p : Bytes} → Walked pattern value p [] → later (glob pattern) value ≡ false
unfolding later
Walked-end {pattern} {value} w = elim (Bool-cases (later (glob pattern) value)) [
  | inl h ↦ ground (arith, Walked-later w h)
  | inr h ↦ h
]

only_stars-glob : (p : Bytes) → only_stars p ≡ glob p []
unfolding only_stars glob later
only_stars-glob [] = refl
only_stars-glob (x ∷ p) = ground (arith, only_stars-glob p)

-- At a star, a match further on with the star before is one with this star.
Walked-star :
    (x : ℕ) (p v : Bytes) {pattern value : Bytes}
    → (x == star_char) ≡ true
    → Walked pattern value (x ∷ p) v
    → later (glob pattern) value ≡ true
    → any_rest (glob p) v ≡ true
Walked-star x p v e w h =
    let further : later (glob p) v ≡ true = later-any_rest (glob p) v (
      sym (later-ext (glob (x ∷ p)) (any_rest (glob p)) v (λ u. glob-star x p u e))
      ∙ Walked-later w h) in
    ground (arith, further)

Walked-length :
    {pattern value p v : Bytes}
    → Walked pattern value p v
    → (length p ≤ length pattern) × (length v ≤ length value)
Walked-length start = (omega arith, omega arith)
Walked-length (walk x c p v ne w) = omega (arith, Walked-length w)

passes_for_mono : (m n j k : ℕ) → m ≤ n → j ≤ k → passes_for m j ≤ passes_for n k
unfolding passes_for
passes_for_mono m n zero k h g = omega arith
passes_for_mono m n (suc j) zero h g = omega (arith, g)
passes_for_mono m n (suc j) (suc k) h g =
    omega (arith, h, passes_for_mono m n j k h (omega (arith, g)))

-- what the loop has still to find out
abbrev meaning : Star → Bytes → Bytes → Bool
meaning none p v = glob p v
meaning (some (pattern, value)) p v = glob p v || later (glob pattern) value

abbrev Tried : Star → Bytes → Bytes → Type 0
Tried none p v = Unit
Tried (some (pattern, value)) p v = Walked pattern value p v

-- passes that are left
abbrev passes : Star → Bytes → Bytes → ℕ
passes none p v = length p + passes_for (length p) (length v)
passes (some (pattern, value)) p v = length p + passes_for (length pattern) (length value)

-- A pass that goes on keeps the meaning, and takes one from the passes left; one that does not has
-- found that nothing matches.
abbrev Passes : Star → Bytes → Bytes → Option (Bytes × Star × Bytes) → Type 0
Passes star p v none = meaning star p v ≡ false
Passes star p v (some (p', star', v')) =
    Tried star' p' v'
    × (meaning star p v ≡ meaning star' p' v')
    × (passes star' p' v' < passes star p v)

take_more-Passes :
    (star : Star) (p : Bytes) (c : ℕ) (v : Bytes)
    → Tried star p (c ∷ v)
    → glob p (c ∷ v) ≡ false
    → Passes star p (c ∷ v) (take_more star)
unfolding take_more later passes_for
take_more-Passes none p c v w no_match = no_match
take_more-Passes (some (pattern, [])) p c v w no_match = absurd (omega (arith, Walked-length w))
take_more-Passes (some (pattern, d ∷ value)) p c v w no_match =
    (start, ground (arith, no_match), omega arith)

letter-Passes :
    (star : Star) (x c : ℕ) (p v : Bytes)
    → Tried star (x ∷ p) (c ∷ v)
    → (x == star_char) ≡ false
    → same_letter x c ≡ true
    → Passes star (x ∷ p) (c ∷ v) (some (p, star, v))
letter-Passes none x c p v w ne same = (
  tt,
  glob-letter x p (c ∷ v) ne ∙ ap (λ b. b && glob p v) same,
  omega (
    arith,
    passes_for_mono (length p) (suc (length p)) (length v) (suc (length v)) (omega arith)
        (omega arith),
  ),
)
letter-Passes (some (pattern, value)) x c p v w ne same = (
  walk x c p v ne w,
  ap (λ b. b || later (glob pattern) value)
      (glob-letter x p (c ∷ v) ne ∙ ap (λ b. b && glob p v) same),
  omega arith,
)

star-Passes :
    (star : Star) (x : ℕ) (p v : Bytes)
    → Tried star (x ∷ p) v
    → (x == star_char) ≡ true
    → Passes star (x ∷ p) v (some (p, some (p, v), v))
star-Passes none x p v w e = (
  start,
  glob-star x p v e,
  omega (
    arith,
    passes_for_mono (length p) (suc (length p)) (length v) (length v) (omega arith) (omega arith),
  ),
)
star-Passes (some (pattern, value)) x p v w e =
    let (short, fits) = Walked-length w in
    (
      start,
      ground (arith, glob-star x p v e, Walked-star x p v e w),
      omega (
        arith,
        passes_for_mono (length p) (length pattern) (length v) (length value) (omega (arith, short))
            fits,
      ),
    )

glob_pass-Passes :
    (star : Star) (p : Bytes) (c : ℕ) (v : Bytes)
    → Tried star p (c ∷ v)
    → Passes star p (c ∷ v) (glob_pass p star c v)
unfolding glob_pass glob
glob_pass-Passes star [] c v w = take_more-Passes star [] c v w refl
glob_pass-Passes star (x ∷ p) c v w =
    if-known (Passes star (x ∷ p) (c ∷ v)) (not (x == star_char) && same_letter x c) _ _
      (λ here. letter-Passes star x c p v w (ground (arith, here)) (ground (arith, here)))
      λ other.
        if-known (Passes star (x ∷ p) (c ∷ v)) (x == star_char) _ _
          (λ e. star-Passes star x p (c ∷ v) w e)
          λ ne.
            take_more-Passes star (x ∷ p) c v w
              (glob-letter x p (c ∷ v) ne ∙ ground (arith, other, ne))

end-meaning : (star : Star) (p : Bytes) → Tried star p [] → only_stars p ≡ meaning star p []
end-meaning none p w = only_stars-glob p
end-meaning (some (pattern, value)) p w = ground (arith, only_stars-glob p, Walked-end w)

after_pass :
    (fuel : ℕ) (star : Star) (p v : Bytes) (o : Option (Bytes × Star × Bytes))
    → ((star' : Star) (p' v' : Bytes)
        → Tried star' p' v'
        → passes star' p' v' < fuel
        → glob_loop fuel p' star' v' ≡ some (meaning star' p' v'))
    → Passes star p v o
    → passes star p v < suc fuel
    → elim o [ none ↦ some false | some (p', star', v') ↦ glob_loop fuel p' star' v' ]
      ≡ some (meaning star p v)
after_pass fuel star p v none rest same enough = ap some (sym same)
after_pass fuel star p v (some (p', star', v')) rest (w, same, less) enough =
    rest star' p' v' w (omega (arith, less, enough)) ∙ ap some (sym same)

glob_loop-meaning :
    (fuel : ℕ) (star : Star) (p v : Bytes)
    → Tried star p v
    → passes star p v < fuel
    → glob_loop fuel p star v ≡ some (meaning star p v)
unfolding glob_loop
glob_loop-meaning zero star p v w enough = absurd (omega (arith, enough))
glob_loop-meaning (suc fuel) star p [] w enough = ap some (end-meaning star p w)
glob_loop-meaning (suc fuel) star p (c ∷ v) w enough =
    after_pass fuel star p (c ∷ v) (glob_pass p star c v) (glob_loop-meaning fuel)
      (glob_pass-Passes star p c v w) enough

-- For every pattern and value the loop of `GlobMatches`, which goes back to its last star only,
-- ends, with the meaning of the pattern: each star stands for any text, and every other character
-- for itself in either case.
pub glob_matches-glob :
    (pattern value : Bytes) → glob_matches pattern value ≡ some (glob pattern value)
unfolding glob_matches
glob_matches-glob pattern value = glob_loop-meaning _ none pattern value tt (omega arith)

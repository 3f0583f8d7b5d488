-- ===== src/Trace/Glob.antt =====
-- `GlobMatches` (libs/v6core/src/trace_log.cpp): the filter of the trace log. An index is the rest of
-- the text that begins there. Letters are those of the locale "C".
pub mod Matches
use v6emul.Base.{
  ℕ, zero, suc, ◌+◌, Bool, true, false, not, ◌&&◌, leb, ◌==◌, if◌then◌else◌, Option, none, some,
  List, [], ◌∷◌, length,
}
use v6emul.Base.Text.{Bytes}

abbrev pub star_char : ℕ
star_char = 0x2a

-- `std::tolower` of ASCII
abbrev pub lower : ℕ → ℕ
lower c = if leb 0x41 c && leb c 0x5a then c + 32 else c

abbrev pub same_letter : ℕ → ℕ → Bool
same_letter x c = lower x == lower c

-- the last loop: only stars are left
unfoldable pub only_stars : Bytes → Bool
only_stars [] = true
only_stars (x ∷ pattern) = x == star_char && only_stars pattern

-- the pattern after the last star, and the value where it was tried last
abbrev pub Star : Type 0
Star = Option (Bytes × Bytes)

abbrev pub tail : Bytes → Bytes
tail [] = []
tail (c ∷ value) = value

-- the third branch: the star takes one character more; `none` is the last branch, no match
unfoldable pub take_more : Star → Option (Bytes × Star × Bytes)
take_more none = none
take_more (some (pattern, value)) = some (pattern, some (pattern, tail value), tail value)

-- one pass of the loop
unfoldable pub glob_pass : Bytes → Star → ℕ → Bytes → Option (Bytes × Star × Bytes)
glob_pass [] star c value = take_more star
glob_pass (x ∷ pattern) star c value =
    if not (x == star_char) && same_letter x c
    then some (pattern, star, value)
    else if x == star_char
    then some (pattern, some (pattern, c ∷ value), c ∷ value)
    else take_more star

-- the loop; `none` is the end of the fuel
unfoldable pub glob_loop : ℕ → Bytes → Star → Bytes → Option Bool
glob_loop zero pattern star value = none
glob_loop (suc fuel) pattern star [] = some (only_stars pattern)
glob_loop (suc fuel) pattern star (c ∷ value) = elim (glob_pass pattern star c value) [
  | none ↦ some false
  | some (pattern', star', value') ↦ glob_loop fuel pattern' star' value'
]

-- passes for a pattern and a value of these lengths
unfoldable pub passes_for : ℕ → ℕ → ℕ
passes_for len zero = 0
passes_for len (suc n) = len + 1 + passes_for len n

-- `GlobMatches`
unfoldable pub glob_matches : Bytes → Bytes → Option Bool
glob_matches pattern value =
    glob_loop (suc (length pattern + passes_for (length pattern) (length value))) pattern none value

-- ===== src/Base/Text.antt =====
-- Text as a list of character codes.
use Prim.Native.Nat.{ℕ, Ordering, compare as compare_ℕ}
use Prim.Native.Char.{code}
use Prim.Native.String.{String, compare}
use mathlib.Core.Bool.{Bool, true, false}
use mathlib.Core.List.{List, [], ◌∷◌}

abbrev pub Bytes : Type 0
Bytes = List ℕ

-- The codes of a text.
abbrev pub codes : String → Bytes
codes String.[] = []
codes (String.◌∷◌ c s) = code c ∷ codes s

abbrev pub same_text : String → String → Bool
same_text s t = elim (compare s t) [ Ordering.eq ↦ true | _ ↦ false ]

-- The text begins with '@'.
abbrev pub starts_local : String → Bool
starts_local String.[] = false
starts_local (String.◌∷◌ c s) = elim (compare_ℕ (code c) 64) [ Ordering.eq ↦ true | _ ↦ false ]

-- ===== src/Disasm/Lines/Built.antt =====
-- With labels and constants that came to be by changes of empty maps, the window has a line of code at
-- every address: no list of names is empty where its first name is read.
use v6emul.Base.{◌<◌, ◌≡◌, Option, none, some, List, length}
use v6emul.Memory.{Memory}
use Prim.Native.String.{String}
use v6emul.DebugData.{DebugData}
use v6emul.DebugData.Names.Refine.{Edit}
use v6emul.DebugData.Names.Tidy.{apply_all}

-- The labels and the constants came to be by changes of empty maps.
pub record IsBuilt {ℓ} {D : Type ℓ} (d : DebugData D) : Type ℓ where
  pub labels_from : (es : List Edit) × (d.labels ≡ apply_all es)
  pub consts_from : (es : List Edit) × (d.consts ≡ apply_all es)

-- A list of names that is there has a first name.
pub HasFirst : Option (List String) → Type 0
HasFirst none = Unit
HasFirst (some ns) = 0 < length ns

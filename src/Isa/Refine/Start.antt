-- ===== src/Isa/Refine/Start.antt =====
-- What it means that the machine cycles of an instruction are its effect in the instruction set.
use v6emul.Base.{ℕ, ◌+◌, ◌*◌, ◌/◌, ◌%◌, arith, ◌≡◌, Bool, true, false, List, ◌∷◌, some}
use v6emul.Cpu.State.{Machine, Bus, Pair}
use v6emul.Cpu.Ops.{Op}
use v6emul.Isa.{hide, isa}
use v6emul.Isa.Drive.{drive, op_cycles}
use mathlib.Core.Option

-- the first machine cycle
abbrev pub at_start : {W : Type 0} → Machine W → Machine W
at_start m = record m { cpu = record (m.cpu) { mc = 0; hlta = false } }

-- the register pairs that an instruction of the table has
abbrev pub is_encoded : Op → Bool
is_encoded (Op.push Pair.pair_sp) = false
is_encoded (Op.pop Pair.pair_sp) = false
is_encoded (Op.pop Pair.pair_psw) = false
is_encoded (Op.dad Pair.pair_psw) = false
is_encoded (Op.inx Pair.pair_psw) = false
is_encoded (Op.dcx Pair.pair_psw) = false
is_encoded op = true

-- a word from its two bytes
pub split16 : (n : ℕ) → n / 256 * 256 + n % 256 ≡ n
split16 n = omega arith

-- Six cycles, with any interrupt requests, end the instruction with what the manual says.
module _ {W : Type 0} (bus : Bus W) (m : Machine W) (i j k l x y : Bool) (irqs : List Bool) where
  abbrev pub Refines : Op → Type 0
  Refines op =
      Option.map hide (drive bus (op_cycles op) op (i ∷ j ∷ k ∷ l ∷ x ∷ y ∷ irqs) (at_start m))
      ≡ some (isa bus op (hide (at_start m)))

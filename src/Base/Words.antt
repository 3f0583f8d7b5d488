-- ===== src/Base/Words.antt =====
-- Casts to the widths that the sources use, single bits, and memory as a function.
use Prim.Native.Nat.{ℕ, ◌-◌, ◌/◌, ◌%◌, ◌^◌, bit_xor}
use mathlib.Core.Bool.{Bool, not}
use v6emul.Base.Tests.{◌==◌, if◌then◌else◌}

abbrev pub u8 : ℕ → ℕ
u8 n = n % 256

abbrev pub u16 : ℕ → ℕ
u16 n = n % 65536

abbrev pub u64 : ℕ → ℕ
u64 n = n % 2 ^ 64

-- bit `k` of `n`, as the bit fields of the sources read it
abbrev pub test_bit : ℕ → ℕ → Bool
test_bit n k = n / 2 ^ k % 2 == 1

-- a store at one index of an array that is a function
abbrev pub update {ℓ} : {A : Type ℓ} → (ℕ → A) → ℕ → A → ℕ → A
update f i v j = if i == j then v else f j

-- an integer as a condition
abbrev pub nonzero : ℕ → Bool
nonzero n = not (n == 0)

-- `~` of a byte, cast back to a byte
abbrev pub not8 : ℕ → ℕ
not8 n = 255 - n % 256

-- `~` of an `int`, as its 32 bits
abbrev pub not32 : ℕ → ℕ
not32 n = bit_xor n 0xffff_ffff

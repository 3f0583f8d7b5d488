-- ===== src/Disasm/Search.antt =====
-- `GetAddr` (libs/v6core/src/disasm.cpp): the address some instructions after or before another. The
-- search backwards goes through integers below zero, which a hardware request takes modulo 2^16: they
-- are kept 2^16 higher for each instruction. An offset stays far below the limit of `int`.
pub mod Back
use v6emul.Base.{
  ℕ, zero, suc, ◌+◌, ◌-◌, ◌*◌, Bool, true, false, ◌&&◌, List, [], ◌∷◌, ltb, ◌==◌, if◌then◌else◌,
  u16,
}
use v6emul.Memory.{Memory, get_byte, ram}
use v6emul.Cpu.Tables.{get_instr_len}
use v6emul.DebugData.{DebugData}

-- an offset in instructions: `negsuc n` is the one of n + 1 backwards
pub data ℤ : Type 0 where
  pos negsuc : ℕ → ℤ

abbrev pub max_attempts : ℕ
max_attempts = 41

-- the length of the instruction at an integer address
abbrev pub len_at : Memory → ℕ → ℕ
len_at m addr = get_instr_len (get_byte m (u16 addr) ram)

-- the loop over the instructions after an address
unfoldable pub get_addr_ahead : Memory → ℕ → ℕ → ℕ
get_addr_ahead m zero addr = addr
get_addr_ahead m (suc n) addr = get_addr_ahead m n (u16 (addr + len_at m addr))

-- the inner loop: whether `n` instructions lead to the end, and no fewer
unfoldable pub leads_to : Memory → ℕ → ℕ → ℕ → Bool
leads_to m end zero addr = addr == end
leads_to m end (suc n) addr =
    let rest = leads_to m end n (addr + len_at m addr) in if ltb addr end then rest else false

-- the loop over the attempts
unfoldable pub possible_addrs : Memory → ℕ → ℕ → ℕ → ℕ → List ℕ
possible_addrs m end n zero start = []
possible_addrs m end n (suc attempts) start =
    let rest = possible_addrs m end n attempts (start + 1) in
    let others = if ltb end (start + 1 + n) then [] else rest in
    if leads_to m end n start then u16 start ∷ others else others

-- the first address that was run, or else what is given
unfoldable pub first_run : (ℕ → ℕ) → List ℕ → ℕ → ℕ
first_run runs [] other = other
first_run runs (addr ∷ addrs) other = if ltb 0 (runs addr) then addr else first_run runs addrs other

unfoldable pub best_of : (ℕ → ℕ) → List ℕ → ℕ → ℕ
best_of runs [] failed = failed
best_of runs (addr ∷ addrs) failed = first_run runs (addr ∷ addrs) addr

-- `GetAddr`
unfoldable pub get_addr {ℓ} : {D : Type ℓ} → DebugData D → Memory → ℕ → ℤ → ℕ
get_addr d m addr (pos n) = get_addr_ahead m n addr
get_addr d m addr (negsuc n) =
    let count = n + 1 in
    let end = addr + 65536 * count in
    best_of d.mem_runs (possible_addrs m end count max_attempts (end - 3 * count))
      (u16 (end - count))

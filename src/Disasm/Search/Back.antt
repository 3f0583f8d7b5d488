-- ===== src/Disasm/Search/Back.antt =====
-- The search backwards against the way forwards.
use v6emul.Base.{
  ℕ, zero, suc, ◌+◌, ◌-◌, ◌*◌, ◌/◌, ◌≤◌, ◌<◌, ◌≡◌, ◌≢◌, refl, sym, ap, ◌∙◌, arith, Bool, true, ◌&&◌,
  List, [], ◌∷◌, All, leb, ◌==◌, u16, all_below, all_below_sound,
}
use v6emul.Memory.{Memory, get_byte, ram}
use v6emul.Memory.Bounds.{IsValid, get_byte-lt}
use v6emul.Cpu.Tables.{get_instr_len}
use v6emul.DebugData.{DebugData}
use v6emul.Disasm.Search.{
  pos, negsuc, len_at, get_addr_ahead, leads_to, possible_addrs, first_run, best_of, get_addr,
}

is_short : ℕ → Bool
is_short v = leb 1 (get_instr_len v) && leb (get_instr_len v) 3

short_table : all_below 256 is_short ≡ true
unfolding all_below is_short get_instr_len
short_table = refl

get_instr_len_bounds : (v : ℕ) → v < 256 → (1 ≤ get_instr_len v) × (get_instr_len v ≤ 3)
unfolding is_short
get_instr_len_bounds v h =
    let passed : is_short v ≡ true = all_below_sound 256 is_short v short_table h in
    ground (arith, passed)

module _ (m : Memory) (v : IsValid m) where
  len_at_bounds : (addr : ℕ) → (1 ≤ len_at m addr) × (len_at m addr ≤ 3)
  len_at_bounds addr = get_instr_len_bounds _ (get_byte-lt m (u16 addr) ram v)

  -- the way forwards over the integers
  stride : ℕ → ℕ → ℕ
  stride zero addr = addr
  stride (suc n) addr = stride n (addr + len_at m addr)

  stride_bounds : (n addr : ℕ) → (addr + n ≤ stride n addr) × (stride n addr ≤ addr + 3 * n)
  unfolding stride
  stride_bounds zero addr = omega arith
  stride_bounds (suc n) addr =
      omega (arith, len_at_bounds addr, stride_bounds n (addr + len_at m addr))

  -- The lengths depend on the address modulo 2^16.
  len_at_shift : (addr other : ℕ) → u16 addr ≡ u16 other → len_at m addr ≡ len_at m other
  len_at_shift addr other e = ap (λ a. get_instr_len (get_byte m a ram)) e

  stride_shift :
      (n addr shift : ℕ) → stride n (addr + 65536 * shift) ≡ stride n addr + 65536 * shift
  unfolding stride
  stride_shift zero addr shift = refl
  stride_shift (suc n) addr shift =
      let same = len_at_shift (addr + 65536 * shift) addr (omega arith) in
      ap (stride n) (omega (arith, same)) ∙ stride_shift n (addr + len_at m addr) shift

  ahead-stride :
      (n addr other : ℕ)
      → other < 65536
      → u16 addr ≡ other
      → get_addr_ahead m n other ≡ u16 (stride n addr)
  unfolding stride get_addr_ahead
  ahead-stride zero addr other small e = sym e
  ahead-stride (suc n) addr other small e =
      let same = len_at_shift other addr (omega (arith, e)) in
      ahead-stride n (addr + len_at m addr) (u16 (other + len_at m other)) (omega arith)
        (omega (arith, same, e))

  leads_to-stride : (n addr end : ℕ) → leads_to m end n addr ≡ (stride n addr == end)
  unfolding stride leads_to
  leads_to-stride zero addr end = refl
  leads_to-stride (suc n) addr end = ground (
    arith,
    leads_to-stride n (addr + len_at m addr) end,
    len_at_bounds addr,
    stride_bounds n (addr + len_at m addr),
  )

  module _ (n end : ℕ) where
    -- the instructions lead from the address to the end
    abbrev Arrives : ℕ → Type 0
    Arrives addr = get_addr_ahead m n addr ≡ u16 end

    Arrives-leads_to : (addr : ℕ) → leads_to m end n addr ≡ true → Arrives (u16 addr)
    Arrives-leads_to addr h =
        let there : stride n addr ≡ end = ground (arith, leads_to-stride n addr end) in
        ahead-stride n addr (u16 addr) (omega arith) refl ∙ ap u16 there

    possible_addrs-Arrives :
        (attempts start : ℕ) → All Arrives (possible_addrs m end n attempts start)
    unfolding possible_addrs
    possible_addrs-Arrives zero start = tt
    possible_addrs-Arrives (suc attempts) start =
        ground (arith, possible_addrs-Arrives attempts (start + 1), Arrives-leads_to start)

    first_run-Arrives :
        (runs : ℕ → ℕ) (addrs : List ℕ) (other : ℕ)
        → All Arrives addrs
        → Arrives other
        → Arrives (first_run runs addrs other)
    unfolding first_run
    first_run-Arrives runs [] other all h = h
    first_run-Arrives runs (addr ∷ addrs) other all h =
        ground (arith, first_run-Arrives runs addrs other all.1 h)

    best_of-Arrives :
        (runs : ℕ → ℕ) (addrs : List ℕ) (failed : ℕ)
        → All Arrives addrs
        → addrs ≢ []
        → Arrives (best_of runs addrs failed)
    unfolding best_of
    best_of-Arrives runs [] failed all found = absurd (found refl)
    best_of-Arrives runs (addr ∷ addrs) failed all found =
        first_run-Arrives runs (addr ∷ addrs) addr all all.0

    -- A start among the attempts is found.
    possible_addrs_found :
        (attempts start j : ℕ)
        → j < attempts
        → start + j + n ≤ end
        → leads_to m end n (start + j) ≡ true
        → possible_addrs m end n attempts start ≢ []
    unfolding possible_addrs
    possible_addrs_found (suc attempts) start zero h fits there e =
        let here : leads_to m end n start ≡ true = ap (leads_to m end n) (omega arith) ∙ there in
        ground (arith, here, e)
    possible_addrs_found (suc attempts) start (suc j) h fits there e =
        let later =
          possible_addrs_found attempts (start + 1) j (omega arith) (omega arith)
            (ap (leads_to m end n) (omega arith) ∙ there) in
        ground (arith, later, e)
    possible_addrs_found zero start j h fits there e = omega (arith, h)

  -- In a valid memory, if an address is n + 1 instructions after another, with n below 20, then the
  -- address that `GetAddr` finds n + 1 instructions back also has it n + 1 instructions after:
  -- forwards, backwards and forwards again is forwards.
  pub get_addr_back {ℓ} :
      {D : Type ℓ} (d : DebugData D) (n addr other : ℕ)
      → n < 20
      → other < 65536
      → get_addr d m other (pos (n + 1)) ≡ addr
      → get_addr d m (get_addr d m addr (negsuc n)) (pos (n + 1)) ≡ addr
  unfolding get_addr
  get_addr_back d n addr other few small e =
      let count = n + 1 in
      let last = stride count other in
      let reached : u16 last ≡ addr =
        sym (ahead-stride count other other small (omega arith)) ∙ e in
      let carry = last / 65536 in
      let end = addr + 65536 * count in
      let start = other + 65536 * (count - carry) in
      let bounds = stride_bounds count other in
      let total : stride count start ≡ end =
        stride_shift count other (count - carry) ∙ omega (arith, reached, bounds) in
      let wide = stride_bounds count start in
      let j = start - (end - 3 * count) in
      let place : end - 3 * count + j ≡ start = omega (arith, wide, total) in
      let there : leads_to m end count (end - 3 * count + j) ≡ true =
        ap (leads_to m end count) place ∙ ground (arith, leads_to-stride count start end, total) in
      best_of-Arrives count end d.mem_runs (possible_addrs m end count 41 (end - 3 * count))
        (u16 (end - count)) (possible_addrs-Arrives count end 41 (end - 3 * count))
        (possible_addrs_found count end 41 (end - 3 * count) j (omega (arith, wide, total))
          (omega (arith, place, wide, total)) there)
      ∙ omega (arith, e, reached)

-- ===== src/Isa/Passes.antt =====
-- The machine cycles of an instruction, from any state between two of them: each is the next one, or
-- the last (libs/v6core/src/cpu_i8080.cpp).
use v6emul.Base.{
  ℕ, ◌+◌, ◌%◌, ◌<◌, ◌≤◌, ◌≡◌, ◌≢◌, refl, sym, ap, ◌∙◌, subst, arith, Bool, true, false, ◌&&◌, ◌||◌,
  ◌==◌, leb, ltb, some, List, [], ◌∷◌, ◌++◌, u64, Option-cases, Bool-cases, inl, inr, if◌then◌else◌,
}
use v6emul.Cpu.State.{Cpu, Machine, Bus}
use v6emul.Cpu.Ops.{Op, move_ops}
use v6emul.Cpu.Tables.{m_cycles}
use v6emul.Cpu.Decode.{decode_op, find_case, add_ops, logic_ops, control_ops}
use v6emul.Cpu.Step.{exec, request, begin_instruction, end_cycle, decode, execute_machine_cycle}
use v6emul.Cpu.Moves
use v6emul.Cpu.Arith
use v6emul.Cpu.Control
use v6emul.Cpu.Alu
use v6emul.Isa.Timing.{exec-clock, wrap, climb}
use native.Mathlib.Decide.{dec_lt}
use native.Mathlib.Nat.{mod-lt}
use mathlib.Core.Option.{none-ne-some, some-injective}

-- at the start of an instruction, or among its machine cycles
abbrev pub is_mid : Cpu → Bool
is_mid s = s.mc == 0 || (ltb s.mc (m_cycles s.ir) && ltb s.mc 6)

-- the cycle to which a case goes when it cuts the instruction short
cut_at : Op → ℕ
cut_at (Op.call cond) = 5
cut_at (Op.ret_cond cond) = 3
cut_at op = 0

-- The last cycle of the instruction, where one is cut short.
is_last : Op → ℕ → Bool
is_last op v =
    leb (m_cycles v) 6 && ltb 0 (m_cycles v) && (cut_at op == 0 || cut_at op + 1 == m_cycles v)

module _ {W : Type 0} (bus : Bus W) where
  abbrev MovesOn : Op → ℕ → Machine W → Type 0
  MovesOn op mc m =
      ((exec bus op mc m).cpu.ir ≡ m.cpu.ir)
      × ((((exec bus op mc m).cpu.mc == m.cpu.mc)
            || (exec bus op mc m).cpu.hlta
            || (ltb 0 (cut_at op) && (exec bus op mc m).cpu.mc == cut_at op))
          ≡ true)

  exec-MovesOn : (op : Op) (mc : ℕ) (m : Machine W) → MovesOn op mc m
  unfolding exec Alu.xchg Alu.add Alu.sub Alu.set_zsp Alu.inr_flags Alu.dcr_flags Alu.daa Alu.rlc
      Alu.rrc Alu.ral Alu.rar Alu.and_act_tmp Alu.xor_act_tmp Alu.or_act_tmp Alu.cmp_act_tmp
      Moves.mov_reg_reg Moves.load_reg_ptr Moves.mov_mem_reg Moves.mvi_reg_data Moves.mvi_mem_data
      Moves.lda Moves.sta Moves.stax Moves.lxi Moves.lhld Moves.shld Moves.sphl Moves.xthl
      Moves.push Moves.pop Moves.pop_psw Arith.dad_low Arith.dad_high Arith.add_mem Arith.adi
      Arith.sub_mem Arith.sbi Arith.ana_mem Arith.ani Arith.xra_mem Arith.xri Arith.ora_mem
      Arith.ori Arith.cmp_mem Arith.cpi Arith.dad Arith.inr Arith.inr_mem Arith.dcr Arith.dcr_mem
      Arith.inx Arith.dcx Control.jmp Control.pchl Control.call Control.rst Control.ret
      Control.ret_cond Control.in_ Control.out_ Control.hlt cut_at
  exec-MovesOn _ mc m = ground arith

-- every case of a list
all_cases : (ℕ → Op → Bool) → List (ℕ × Op) → Bool
all_cases test [] = true
all_cases test ((code, op) ∷ cases) = test code op && all_cases test cases

find_case_sound :
    (test : ℕ → Op → Bool) (cases : List (ℕ × Op)) (v : ℕ) (op : Op)
    → all_cases test cases ≡ true
    → find_case v cases ≡ some op
    → test v op ≡ true
unfolding all_cases find_case
find_case_sound test [] v op all found = absurd (none-ne-some op found)
find_case_sound test ((code, other) ∷ cases) v op all found = elim (Bool-cases (v == code)) [
  | inl here ↦
      let is : v ≡ code = ground (arith, here) in
      let same = some-injective other op (rw (here) at found) in
      rw (is) (ap (test code) (sym same) ∙ ground (arith, all))
  | inr other ↦ find_case_sound test cases v op (ground (arith, all)) (rw (other) at found)
]

last_table :
    all_cases (λ v op. is_last op v) (move_ops ++ add_ops ++ logic_ops ++ control_ops) ≡ true
unfolding all_cases is_last cut_at m_cycles
last_table = refl

is_last_sound : (v : ℕ) (op : Op) → decode_op v ≡ some op → is_last op v ≡ true
unfolding decode_op
is_last_sound v op found = find_case_sound (λ v op. is_last op v) _ v op last_table found

-- The count of the next cycle, from that of a case.
next_mc-lt : (k c : ℕ) → 0 < c → (k + 1) % 16 % c < c
next_mc-lt k c h = mod-lt ((k + 1) % 16) h

next_mc : (mc c : ℕ) → mc < c → c ≤ 6 → (mc + 1) % 16 % c ≢ 0 → (mc + 1) % 16 % c ≡ mc + 1
next_mc mc c lt few ne = elim (dec_lt (mc + 1) c) [
  | yes more ↦ climb (mc + 1) c more few
  | no last ↦ absurd (ne (ap (λ n. n % 16 % c) (omega (arith, last)) ∙ wrap c few))
]

cut_mc : (k c : ℕ) → k + 1 ≡ c → c ≤ 6 → (k + 1) % 16 % c ≡ 0
cut_mc k c last few = ap (λ n. n % 16 % c) last ∙ wrap c few

kept_mc :
    (mc k c cut : ℕ) (halted : Bool)
    → (k == mc || halted || (ltb 0 cut && k == cut)) ≡ true
    → (leb c 6 && ltb 0 c && (cut == 0 || cut + 1 == c)) ≡ true
    → c ≤ 6
    → ((k + 1) % 16 % c == 0 || halted) ≡ false
    → (k + 1) % 16 % c ≢ 0
    → k ≡ mc
kept_mc mc k c cut halted moved table few on ne = elim (Bool-cases (k == mc)) [
  | inl same ↦ ground (arith, same)
  | inr other ↦
      let awake : halted ≡ false = ground (arith, on) in
      absurd (ne (cut_mc k c (ground (arith, moved, awake, other, table)) few))
]

-- A cycle that is not the last is followed by the next one.
after_cycle :
    (mc k c cut : ℕ) (halted : Bool)
    → (mc == 0 || (ltb mc c && ltb mc 6)) ≡ true
    → (k == mc || halted || (ltb 0 cut && k == cut)) ≡ true
    → (leb c 6 && ltb 0 c && (cut == 0 || cut + 1 == c)) ≡ true
    → let new = (k + 1) % 16 % c in
      ((new == 0 || (ltb new c && ltb new 6)) ≡ true)
      × ((new == 0 || halted) ≡ false → (new ≡ mc + 1) × (new < 6))
after_cycle mc k c cut halted mid moved table =
    let small = next_mc-lt k c (ground (arith, table)) in
    (
      ground (arith, small, table),
      λ on.
          let few : c ≤ 6 = ground (arith, table) in
          let ne : (k + 1) % 16 % c ≢ 0 = ground (arith, on) in
          let same = kept_mc mc k c cut halted moved table few on ne in
          let goes : (mc + 1) % 16 % c ≡ mc + 1 =
            next_mc mc c (ground (arith, mid, table)) few
              (subst (λ i. (i + 1) % 16 % c ≢ 0) same ne) in
          let on_goes : (k + 1) % 16 % c ≡ mc + 1 = ap (λ i. (i + 1) % 16 % c) same ∙ goes in
          (on_goes, omega (arith, small, few)),
    )

-- the state between two machine cycles: the instruction is executed, or the next cycle has a number
-- below 6
pub record Passed (s s' : Cpu) : Type 0 where
  pub mid : is_mid s' ≡ true
  pub goes_on : (s'.mc == 0 || s'.hlta) ≡ false → (s'.mc ≡ s.mc + 1) × (s'.mc < 6)

module _ {W : Type 0} (bus : Bus W) where
  decode-Passed :
      (m m' : Machine W) → decode bus m ≡ some m' → is_mid m.cpu ≡ true → Passed m.cpu m'.cpu
  unfolding decode end_cycle is_last
  decode-Passed m m' h mid = elim (Option-cases (decode_op m.cpu.ir)) [
    | inl e ↦ absurd (none-ne-some m' (rw (e, decode) at h))
    | inr (op, e) ↦
        let same = some-injective _ m' (rw (e, decode) at h) in
        let moved = exec-MovesOn bus op m.cpu.mc m in
        let table = is_last_sound m.cpu.ir op e in
        let after =
          after_cycle m.cpu.mc (exec bus op m.cpu.mc m).cpu.mc (m_cycles m.cpu.ir) (cut_at op)
            (exec bus op m.cpu.mc m).cpu.hlta mid moved.1 table in
        subst (λ r. Passed m.cpu r.cpu) same
          (record { mid = rw (moved.0) after.0; goes_on = rw (moved.0) after.1 })
  ]

  begun-is_mid :
      (irq : Bool) (m : Machine W)
      → is_mid m.cpu ≡ true
      → let begun =
          if (request irq m).cpu.mc == 0
          then begin_instruction (request irq m)
          else request irq m in
        (begun.cpu.mc ≡ m.cpu.mc) × (is_mid begun.cpu ≡ true)
  unfolding begin_instruction request
  begun-is_mid irq m mid = ground (arith, mid)

  -- A machine cycle that ends goes from a state between two cycles to another: either the instruction
  -- is executed, or the count is the next one and below 6.
  pub execute_machine_cycle-Passed :
      (irq : Bool) (m m' : Machine W)
      → execute_machine_cycle bus irq m ≡ some m'
      → is_mid m.cpu ≡ true
      → Passed m.cpu m'.cpu
  unfolding execute_machine_cycle
  execute_machine_cycle-Passed irq m m' h mid =
      let begun =
        if (request irq m).cpu.mc == 0 then begin_instruction (request irq m) else request irq m in
      let (same, start) = begun-is_mid irq m mid in
      let passed = decode-Passed begun m' h start in
      record { mid = passed.mid; goes_on = λ on. rw⁻¹ same (passed.goes_on on) }

  decode-clock : (m m' : Machine W) → decode bus m ≡ some m' → m'.cpu.cc ≡ u64 (m.cpu.cc + 4)
  unfolding decode end_cycle
  decode-clock m m' h = elim (Option-cases (decode_op m.cpu.ir)) [
    | inl e ↦ absurd (none-ne-some m' (rw (e, decode) at h))
    | inr (op, e) ↦
        let same = some-injective _ m' (rw (e, decode) at h) in
        sym (ap (λ r. r.cpu.cc) same) ∙ ap (λ c. u64 (c + 4)) (exec-clock bus op m.cpu.mc m)
  ]

  -- The request and the fetch leave the clock.
  begun-clock :
      (irq : Bool) (m : Machine W)
      → (if (request irq m).cpu.mc == 0
          then begin_instruction (request irq m)
          else request irq m).cpu.cc
        ≡ m.cpu.cc
  unfolding begin_instruction request
  begun-clock irq m = ground arith

  -- A machine cycle takes four clock cycles.
  pub execute_machine_cycle-clock :
      (irq : Bool) (m m' : Machine W)
      → execute_machine_cycle bus irq m ≡ some m'
      → m'.cpu.cc ≡ u64 (m.cpu.cc + 4)
  unfolding execute_machine_cycle
  execute_machine_cycle-clock irq m m' h =
      decode-clock _ m' h ∙ ap (λ c. u64 (c + 4)) (begun-clock irq m)

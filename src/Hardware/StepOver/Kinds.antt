-- ===== src/Hardware/StepOver/Kinds.antt =====
-- The cases of `GetStepOverAddr` against those of the instructions, over all opcodes.
use v6emul.Base.{
  ℕ, ◌+◌, ◌-◌, ◌*◌, ◌%◌, ◌<◌, ◌≡◌, refl, sym, ap, ◌∙◌, arith, Bool, true, false, ◌&&◌, ◌||◌, ◌==◌,
  none, some, [], ◌∷◌, get_or, all_below, all_below_sound,
}
use v6emul.Cpu.State.{Flag, zero_flag, carry_flag, parity_flag, sign_flag, always, when}
use v6emul.Cpu.Ops.{Op}
use v6emul.Cpu.Tables.{get_instr_type}
use v6emul.Cpu.Decode.{decode_op}
use v6emul.Hardware.StepOver.{
  StepKind, to_operand, to_return, to_hl, to_restart, to_next, branch, branch_kind, step_kind,
}

-- The case that an instruction needs.
unfoldable pub op_kind : Op → StepKind
op_kind (Op.jmp always) = to_operand
op_kind (Op.jmp (when f b)) = branch f b
op_kind Op.ret = to_return
op_kind Op.pchl = to_hl
op_kind (Op.rst arg) = to_restart
op_kind op = to_next

-- The undocumented codes of JMP, RET and CALL.
abbrev pub is_undocumented : ℕ → Bool
is_undocumented v = v == 0xcb || v == 0xd9 || v == 0xdd || v == 0xed || v == 0xfd

-- The instructions that do not come back, and do not wait.
abbrev pub goes_on : Op → Bool
goes_on (Op.call cond) = false
goes_on (Op.ret_cond cond) = false
goes_on Op.hlt = false
goes_on op = true

abbrev flag_code : Flag → ℕ
flag_code zero_flag = 0
flag_code carry_flag = 1
flag_code parity_flag = 2
flag_code sign_flag = 3

abbrev kind_code : StepKind → ℕ
kind_code to_operand = 0
kind_code to_return = 1
kind_code to_hl = 2
kind_code to_restart = 3
kind_code to_next = 4
kind_code (branch f true) = 5 + flag_code f
kind_code (branch f false) = 9 + flag_code f

unfoldable pub restarts_at : ℕ → Op → Bool
restarts_at v (Op.rst arg) = v - 0xc7 == arg * 8 % 256
restarts_at v op = true

kinds_agree : ℕ → Bool
kinds_agree v = elim (decode_op v) [
  | none ↦ false
  | some op ↦
      is_undocumented v || (kind_code (step_kind v) == kind_code (op_kind op) && restarts_at v op)
]

kinds_table : all_below 256 kinds_agree ≡ true
unfolding all_below kinds_agree decode_op step_kind branch_kind op_kind restarts_at get_instr_type
kinds_table = refl

of_code : ℕ → StepKind
of_code n =
    get_or
      (to_operand
        ∷ to_return
        ∷ to_hl
        ∷ to_restart
        ∷ to_next
        ∷ branch zero_flag true
        ∷ branch carry_flag true
        ∷ branch parity_flag true
        ∷ branch sign_flag true
        ∷ branch zero_flag false
        ∷ branch carry_flag false
        ∷ branch parity_flag false
        ∷ branch sign_flag false
        ∷ [])
      n to_next

of_code-kind_code : (k : StepKind) → of_code (kind_code k) ≡ k
unfolding of_code
of_code-kind_code to_operand = refl
of_code-kind_code to_return = refl
of_code-kind_code to_hl = refl
of_code-kind_code to_restart = refl
of_code-kind_code to_next = refl
of_code-kind_code (branch zero_flag true) = refl
of_code-kind_code (branch carry_flag true) = refl
of_code-kind_code (branch parity_flag true) = refl
of_code-kind_code (branch sign_flag true) = refl
of_code-kind_code (branch zero_flag false) = refl
of_code-kind_code (branch carry_flag false) = refl
of_code-kind_code (branch parity_flag false) = refl
of_code-kind_code (branch sign_flag false) = refl

-- The switch takes the case that the instruction needs.
pub step_kind-op_kind :
    (v : ℕ) (op : Op)
    → v < 256
    → is_undocumented v ≡ false
    → decode_op v ≡ some op
    → (step_kind v ≡ op_kind op) × (restarts_at v op ≡ true)
unfolding kinds_agree
step_kind-op_kind v op h u e =
    let passed : kinds_agree v ≡ true = all_below_sound 256 kinds_agree v kinds_table h in
    let codes : kind_code (step_kind v) ≡ kind_code (op_kind op) = ground (arith, passed) in
    (
      sym (of_code-kind_code (step_kind v)) ∙ ap of_code codes ∙ of_code-kind_code (op_kind op),
      ground (arith, passed),
    )

-- ===== src/Disasm/Lines/Bounds.antt =====
-- The window has the lines that were asked for, never more than eighty and two more than asked for.
use v6emul.Base.{
  ℕ, zero, suc, ◌+◌, ◌≤◌, ◌<◌, ◌≡◌, arith, true, false, not, Option, none, some, List, [], ◌∷◌,
  ◌++◌, length, leb, ltb, u16, if-known,
}
use v6emul.Memory.{Memory}
use v6emul.Cpu.Tables.{get_instr_len}
use v6emul.Base.Dict.{lookup}
use Prim.Native.String.{String}
use v6emul.DebugData.{DebugData}
use v6emul.Disasm.Table.{DisasmLang}
use v6emul.Disasm.Lines.{
  DisasmLine, comment_lines, code_line_of, own_comment, own_labels, is_full, update_loop,
}

length-lines : (s t : List DisasmLine) → length (s ++ t) ≡ length s + length t
length-lines [] t = omega arith
length-lines (c ∷ s) t = omega (arith, length-lines s t)

-- `UpdateDisasm` ends with such lines: as many as were asked for, or a full window.
pub Shows : ℕ → Option (List DisasmLine) → Type 0
Shows wanted none = ⊥
Shows wanted (some lines) =
    (wanted ≤ length lines) × (length lines ≤ wanted + 2) × (length lines ≤ 80)

is_full-true : (new lines : List DisasmLine) → is_full new lines ≡ true → 80 ≤ length lines
is_full-true [] lines h = ground arith
is_full-true (l ∷ new) lines h = ground arith

is_full-false :
    (lines new : List DisasmLine)
    → is_full new (lines ++ new) ≡ false
    → length lines < 80
    → length (lines ++ new) < 80
is_full-false lines [] h k = omega (arith, length-lines lines [])
is_full-false lines (l ∷ new) h k = ground arith

module _ {ℓ} {D : Type ℓ} (lang : DisasmLang) (d : DebugData D) (m : Memory) where
  -- Every address has its line of code and its labels.
  unfoldable pub Readable : Type 0
  Readable =
      (addr : ℕ)
      → ((new : List DisasmLine) × (own_labels d addr ≡ some new) × (length new ≤ 1))
        × ((line : DisasmLine) × (code_line_of lang d m addr ≡ some line))

  length-own_comment : (addr : ℕ) → length (own_comment d addr) ≤ 1
  length-own_comment addr = go (lookup addr d.comments)
    where
      go : (o : Option String) → length (comment_lines addr o) ≤ 1
      go none = omega arith
      go (some c) = omega arith

  Shows-some :
      (wanted : ℕ) (lines : List DisasmLine)
      → wanted ≤ length lines
      → length lines ≤ wanted + 2
      → length lines ≤ 80
      → Shows wanted (some lines)
  unfolding Shows
  Shows-some wanted lines a b c = (a, b, c)

  pub update_loop-Shows :
      (fuel wanted addr : ℕ) (lines : List DisasmLine)
      → Readable
      → wanted ≤ 80
      → wanted ≤ fuel + length lines
      → length lines < 80
      → length lines ≤ wanted + 2
      → Shows wanted (update_loop lang d m fuel wanted addr lines)
  unfolding update_loop Readable
  update_loop-Shows zero wanted addr lines r w f h k =
      Shows-some wanted lines (omega arith) k (omega arith)
  update_loop-Shows (suc fuel) wanted addr lines r w f h k =
      let ((new, labels_of, few), (line, code_of)) = r addr in
      let own = own_comment d addr in
      let commented = lines ++ own in
      let one = length-own_comment addr in
      let size1 = length-lines lines own in
      let size2 = length-lines commented new in
      let size3 = length-lines (commented ++ new) (line ∷ []) in
      if-known (Shows wanted) (not (ltb (length lines) wanted)) _ _
        (λ e. Shows-some wanted lines (ground (arith, e)) k (omega arith))
        λ e.
          let more : length lines < wanted = ground (arith, e) in
          if-known (Shows wanted) (is_full own commented) _ _
            (λ full.
              let n = is_full-true own commented full in
              Shows-some wanted commented (omega arith) (omega arith) (omega arith))
            λ room.
              let n = is_full-false lines own room h in
              rw (labels_of, code_of)
                (if-known (Shows wanted) (is_full new (commented ++ new)) _ _
                  (λ full.
                    let n2 = is_full-true new (commented ++ new) full in
                    Shows-some wanted (commented ++ new) (omega arith) (omega arith) (omega arith))
                  λ room2.
                    let n2 = is_full-false commented new room2 n in
                    if-known (Shows wanted) (leb 80 (length (commented ++ new ++ line ∷ []))) _ _
                      (λ full.
                        let n3 : 80 ≤ length (commented ++ new ++ line ∷ []) =
                          ground (arith, full) in
                        Shows-some wanted (commented ++ new ++ line ∷ []) (omega arith)
                          (omega arith) (omega arith))
                      λ room3.
                        let n3 : length (commented ++ new ++ line ∷ []) < 80 =
                          ground (arith, room3) in
                        update_loop-Shows fuel wanted (u16 (addr + get_instr_len line.opcode))
                          (commented ++ new ++ line ∷ []) r w (omega arith) n3 (omega arith))

-- ===== src/Tests/Keys.antt =====
-- Concrete runs of the keyboard.
use v6emul.Base.{◌≡◌, refl, arith, true, not}
use v6emul.Keyboard.{new_keyboard, key_handling, find_key, read_rows}
use v6emul.Keyboard.Laws.{bit_at, any_held, moved_key, IsBytes}
use v6emul.Keyboard.Laws

-- the keyboard with SPACE going down
key_handling_bit_example :
    bit_at ((key_handling 0x20 1 new_keyboard).1.matrix 7) 7 ≡ moved_key true 0x780 7 7 new_keyboard
unfolding find_key
key_handling_bit_example = Laws.key_handling_bit 0x20 0x780 1 7 7 new_keyboard refl (omega arith)

space_held-IsBytes : IsBytes (key_handling 0x20 1 new_keyboard).1
unfolding new_keyboard
space_held-IsBytes = Laws.key_handling-IsBytes 0x20 1 new_keyboard (λ r. omega arith)

read_rows_bit_example :
    bit_at (read_rows 0x7f (key_handling 0x20 1 new_keyboard).1) 7
    ≡ not (any_held 8 0 0x7f 7 (key_handling 0x20 1 new_keyboard).1)
read_rows_bit_example =
    Laws.read_rows_bit 0x7f 7 (key_handling 0x20 1 new_keyboard).1 space_held-IsBytes (omega arith)

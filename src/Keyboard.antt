-- ===== src/Keyboard.antt =====
-- `Keyboard` (libs/v6core/include/core/keyboard.h, libs/v6core/src/keyboard.cpp). `m_encodingMatrix`
-- is a function from rows. A key code is the value of its `KeyCode`, and an action is 0 for KEY_UP.
pub mod Laws
use v6emul.Base.{
  ℕ, zero, suc, ◌+◌, ◌/◌, ◌%◌, ◌^◌, bit_and, bit_or, Bool, false, ◌||◌, ◌==◌, if◌then◌else◌, not8,
  update, Option, none, some, List, [], ◌∷◌, ◌++◌,
}

abbrev pub key_f11 : ℕ
key_f11 = 0x7a

abbrev pub key_f12 : ℕ
key_f12 = 0x7b

abbrev pub key_lshift : ℕ
key_lshift = 0xa0

abbrev pub key_rshift : ℕ
key_rshift = 0xa1

abbrev pub key_lctrl : ℕ
key_lctrl = 0xa2

abbrev pub key_lgui : ℕ
key_lgui = 0x5b

abbrev pub key_lalt : ℕ
key_lalt = 0xa4

abbrev pub key_f6 : ℕ
key_f6 = 0x75

pub data Operation : Type 0 where
  none_op reset_op restart_op : Operation

pub record Keyboard : Type 0 where
  pub matrix : ℕ → ℕ
  pub key_ss : Bool
  pub key_us : Bool
  pub key_rus : Bool

-- SPACE, GRAVE, RBRACKET, BACKSLASH, LBRACKET, Z, Y, X
abbrev keys_row7 : List (ℕ × ℕ)
keys_row7 =
    (0x20, 0x780)
    ∷ (0xc0, 0x701)
    ∷ (0xdd, 0x720)
    ∷ (0xdc, 0x710)
    ∷ (0xdb, 0x708)
    ∷ (0x5a, 0x704)
    ∷ (0x59, 0x702)
    ∷ (0x58, 0x701)
    ∷ []

-- W, V, U, T, S, R, Q, P
abbrev keys_row6 : List (ℕ × ℕ)
keys_row6 =
    (0x57, 0x680)
    ∷ (0x56, 0x640)
    ∷ (0x55, 0x620)
    ∷ (0x54, 0x610)
    ∷ (0x53, 0x608)
    ∷ (0x52, 0x604)
    ∷ (0x51, 0x602)
    ∷ (0x50, 0x601)
    ∷ []

-- O, N, M, L, K, J, I, H
abbrev keys_row5 : List (ℕ × ℕ)
keys_row5 =
    (0x4f, 0x580)
    ∷ (0x4e, 0x540)
    ∷ (0x4d, 0x520)
    ∷ (0x4c, 0x510)
    ∷ (0x4b, 0x508)
    ∷ (0x4a, 0x504)
    ∷ (0x49, 0x502)
    ∷ (0x48, 0x501)
    ∷ []

-- G, F, E, D, C, B, A, MINUS
abbrev keys_row4 : List (ℕ × ℕ)
keys_row4 =
    (0x47, 0x480)
    ∷ (0x46, 0x440)
    ∷ (0x45, 0x420)
    ∷ (0x44, 0x410)
    ∷ (0x43, 0x408)
    ∷ (0x42, 0x404)
    ∷ (0x41, 0x402)
    ∷ (0xbd, 0x401)
    ∷ []

-- SLASH, PERIOD, PLUS, COMMA, SEMICOLON, APOSTROPHE, NUM_9, NUM_8
abbrev keys_row3 : List (ℕ × ℕ)
keys_row3 =
    (0xbf, 0x380)
    ∷ (0xbe, 0x340)
    ∷ (0xbb, 0x320)
    ∷ (0xbc, 0x310)
    ∷ (0xba, 0x308)
    ∷ (0xde, 0x304)
    ∷ (0x39, 0x302)
    ∷ (0x38, 0x301)
    ∷ []

-- NUM_7, NUM_6, NUM_5, NUM_4, NUM_3, NUM_2, NUM_1, NUM_0
abbrev keys_row2 : List (ℕ × ℕ)
keys_row2 =
    (0x37, 0x280)
    ∷ (0x36, 0x240)
    ∷ (0x35, 0x220)
    ∷ (0x34, 0x210)
    ∷ (0x33, 0x208)
    ∷ (0x32, 0x204)
    ∷ (0x31, 0x202)
    ∷ (0x30, 0x201)
    ∷ []

-- F5, F4, F3, F2, F1, ESCAPE, F8, F7
abbrev keys_row1 : List (ℕ × ℕ)
keys_row1 =
    (0x74, 0x180)
    ∷ (0x73, 0x140)
    ∷ (0x72, 0x120)
    ∷ (0x71, 0x110)
    ∷ (0x70, 0x108)
    ∷ (0x1b, 0x104)
    ∷ (0x77, 0x102)
    ∷ (0x76, 0x101)
    ∷ []

-- DOWN, RIGHT, UP, LEFT, BACKSPACE, RETURN, RALT, TAB
abbrev keys_row0 : List (ℕ × ℕ)
keys_row0 =
    (0x28, 0x080)
    ∷ (0x27, 0x040)
    ∷ (0x26, 0x020)
    ∷ (0x25, 0x010)
    ∷ (0x08, 0x008)
    ∷ (0x0d, 0x004)
    ∷ (0xa5, 0x002)
    ∷ (0x09, 0x001)
    ∷ []

-- `InitMapping`: the row times 256, plus the bit of the column
abbrev pub key_map : List (ℕ × ℕ)
key_map =
    keys_row7 ++ keys_row6 ++ keys_row5 ++ keys_row4 ++ keys_row3 ++ keys_row2 ++ keys_row1
    ++ keys_row0

-- `m_keymap.find`
unfoldable pub find_key : ℕ → List (ℕ × ℕ) → Option ℕ
find_key code [] = none
find_key code ((key, place) ∷ keys) = if key == code then some place else find_key code keys

-- `Keyboard::Keyboard`
unfoldable pub new_keyboard : Keyboard
new_keyboard = record { matrix = λ r. 0; key_ss = false; key_us = false; key_rus = false }

-- the default case of the switch: a key of the matrix goes up or down
unfoldable pub matrix_key : ℕ → ℕ → Keyboard → Keyboard
matrix_key code action k = elim (find_key code key_map) [
  | none ↦ k
  | some place ↦
      let row = place / 256 in
      let column = place % 256 in
      record k {
        matrix = update k.matrix row (
            if action == 0
            then bit_and (k.matrix row) (not8 column)
            else bit_or (k.matrix row) column);
      }
]

-- the key codes that have a case of their own
abbrev pub is_shift : ℕ → Bool
is_shift code = code == key_lshift || code == key_rshift

abbrev pub is_rus : ℕ → Bool
is_rus code = code == key_lgui || code == key_lalt || code == key_f6

-- `KeyHandling`
unfoldable pub key_handling : ℕ → ℕ → Keyboard → Operation × Keyboard
key_handling code action k =
    if code == key_f11
    then (if action == 0 then (reset_op, k) else (none_op, k))
    else if code == key_f12
    then (if action == 0 then (restart_op, k) else (none_op, k))
    else if is_shift code
    then (none_op, record k { key_ss = action == 1 })
    else if code == key_lctrl
    then (none_op, record k { key_us = action == 1 })
    else if is_rus code
    then (none_op, record k { key_rus = action == 1 })
    else (none_op, matrix_key code action k)

-- the loop of `Read` over the rows from `row` on, `n` of them left: the rows chosen by a 0
unfoldable pub or_rows : ℕ → ℕ → ℕ → Keyboard → ℕ → ℕ
or_rows zero row rows k result = result
or_rows (suc n) row rows k result =
    or_rows n (row + 1) rows k
      (bit_or result (if bit_and rows (2 ^ row) == 0 then k.matrix row else 0))

-- `Read`
unfoldable pub read_rows : ℕ → Keyboard → ℕ
read_rows rows k = not8 (or_rows 8 0 rows k 0)

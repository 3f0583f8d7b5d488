-- ===== src/Keyboard/Laws.antt =====
-- The keyboard as the keys that are held down (libs/v6core/src/keyboard.cpp).
use v6emul.Base.{
  ℕ, zero, suc, ◌+◌, ◌-◌, ◌*◌, ◌/◌, ◌%◌, ◌^◌, ◌<◌, bit_and, bit_or, ◌≡◌, refl, sym, ◌∙◌, ap, arith,
  Bool, false, not, ◌&&◌, ◌||◌, ◌==◌, if◌then◌else◌, not8, none, some, Bool-cases, Option-cases,
  inl, inr,
}
use mathlib.Core.Option.{none-ne-some}
use native.Mathlib.Nat.{pow-suc}
use v6emul.Base.Bits.{
  bit_or_half, bit_or_low, bit_and_half, bit_and_step, bit_or-lt, bit_and-lt, bit_and_mask1,
}
use v6emul.Keyboard.{
  Keyboard, key_map, find_key, matrix_key, key_handling, read_rows, or_rows, key_f11, key_f12,
  key_lctrl, key_lshift, key_rshift, key_lgui, key_lalt, key_f6, none_op,
}

-- bit `c` of a number, counted from the lowest
unfoldable pub bit_at : ℕ → ℕ → Bool
bit_at n zero = n % 2 == 1
bit_at n (suc c) = bit_at (n / 2) c

pub bit_at-bit_or : (a b c : ℕ) → bit_at (bit_or a b) c ≡ bit_at a c || bit_at b c
unfolding bit_at
bit_at-bit_or a b zero = ground (arith, bit_or_low a b)
bit_at-bit_or a b (suc c) = ap (λ n. bit_at n c) (bit_or_half a b) ∙ bit_at-bit_or (a / 2) (b / 2) c

pub bit_at-bit_and : (a b c : ℕ) → bit_at (bit_and a b) c ≡ bit_at a c && bit_at b c
unfolding bit_at
bit_at-bit_and a b zero = ground (arith, bit_and_step a b)
bit_at-bit_and a b (suc c) =
    ap (λ n. bit_at n c) (bit_and_half a b) ∙ bit_at-bit_and (a / 2) (b / 2) c

-- the complement of a number of `w` bits
complement_bit : (w c x : ℕ) → c < w → x < 2 ^ w → bit_at (2 ^ w - 1 - x) c ≡ not (bit_at x c)
unfolding bit_at
complement_bit zero c x l h = absurd (omega (arith, l))
complement_bit (suc w) zero x l h = ground (arith, pow-suc 2 w, h)
complement_bit (suc w) (suc c) x l h =
    let half : (2 ^ suc w - 1 - x) / 2 ≡ 2 ^ w - 1 - x / 2 = omega (arith, pow-suc 2 w, h) in
    ap (λ n. bit_at n c) half
    ∙ complement_bit w c (x / 2) (omega (arith, l)) (omega (arith, pow-suc 2 w, h))

bit_at-not8 : (c x : ℕ) → c < 8 → x < 256 → bit_at (not8 x) c ≡ not (bit_at x c)
bit_at-not8 c x l h =
    let same : not8 x ≡ 255 - x = omega (arith, h) in
    ap (λ n. bit_at n c) same ∙ complement_bit 8 c x l h

zero_bit : (c : ℕ) → bit_at 0 c ≡ false
unfolding bit_at
zero_bit zero = refl
zero_bit (suc c) = zero_bit c

-- a row is chosen by a 0
chosen_bit : (r rows : ℕ) → (bit_and rows (2 ^ r) == 0) ≡ not (bit_at rows r)
unfolding bit_at
chosen_bit zero rows = ground (arith, bit_and_mask1 rows)
chosen_bit (suc r) rows =
    let low : 2 ^ suc r / 2 ≡ 2 ^ r = omega (arith, pow-suc 2 r) in
    let digit : bit_and rows (2 ^ suc r) ≡ bit_and (rows / 2) (2 ^ r) * 2 =
      omega (arith, bit_and_step rows (2 ^ suc r), ap (bit_and (rows / 2)) low, pow-suc 2 r) in
    ground (arith, chosen_bit r (rows / 2), digit)

-- some chosen row, of `n` from `row` on, has a key held in the column
abbrev pub any_held : ℕ → ℕ → ℕ → ℕ → Keyboard → Bool
any_held zero row rows c k = false
any_held (suc n) row rows c k =
    not (bit_at rows row) && bit_at (k.matrix row) c || any_held n (row + 1) rows c k

or_rows_bit :
    (n row rows c : ℕ) (k : Keyboard) (result : ℕ)
    → bit_at (or_rows n row rows k result) c ≡ bit_at result c || any_held n row rows c k
unfolding or_rows
or_rows_bit zero row rows c k result = ground arith
or_rows_bit (suc n) row rows c k result =
    let one = if bit_and rows (2 ^ row) == 0 then k.matrix row else 0 in
    let here : bit_at one c ≡ not (bit_at rows row) && bit_at (k.matrix row) c =
      ground (arith, chosen_bit row rows, zero_bit c) in
    ground (
      arith,
      or_rows_bit n (row + 1) rows c k (bit_or result one),
      bit_at-bit_or result one c,
      here,
    )

abbrev pub IsBytes : Keyboard → Type 0
IsBytes k = (r : ℕ) → k.matrix r < 256

or_rows-lt :
    (n row rows : ℕ) (k : Keyboard) (result : ℕ)
    → IsBytes k
    → result < 256
    → or_rows n row rows k result < 256
unfolding or_rows
or_rows-lt zero row rows k result b h = h
or_rows-lt (suc n) row rows k result b h =
    let one = if bit_and rows (2 ^ row) == 0 then k.matrix row else 0 in
    let small : one < 256 = ground (arith, b row) in
    or_rows-lt n (row + 1) rows k (bit_or result one) b (bit_or-lt 8 result one h small)

-- For a matrix of bytes, a bit that `Read` gives is 0 exactly if some row that is chosen by a 0 has
-- a key held in that column.
pub read_rows_bit :
    (rows c : ℕ) (k : Keyboard)
    → IsBytes k
    → c < 8
    → bit_at (read_rows rows k) c ≡ not (any_held 8 0 rows c k)
unfolding read_rows
read_rows_bit rows c k b l =
    bit_at-not8 c (or_rows 8 0 rows k 0) l (or_rows-lt 8 0 rows k 0 b (omega arith))
    ∙ ap not (or_rows_bit 8 0 rows c k 0 ∙ ap (λ z. z || any_held 8 0 rows c k) (zero_bit c))

-- Keys with a case of their own are not in the map.
not_key :
    (code q place : ℕ)
    → find_key code key_map ≡ some place
    → find_key q key_map ≡ none
    → (code == q) ≡ false
not_key code q place e f = elim (Bool-cases (code == q)) [
  | inl t ↦
      let same : code ≡ q = ground (arith, t) in
      absurd (none-ne-some place (sym f ∙ ap (λ x. find_key x key_map) (sym same) ∙ e))
  | inr o ↦ o
]

to_matrix :
    (code place action : ℕ) (k : Keyboard)
    → find_key code key_map ≡ some place
    → key_handling code action k ≡ (none_op, matrix_key code action k)
unfolding key_handling find_key
to_matrix code place action k e =
    let n1 = not_key code key_f11 place e refl in
    let n2 = not_key code key_f12 place e refl in
    let n3 = not_key code key_lshift place e refl in
    let n4 = not_key code key_rshift place e refl in
    let n5 = not_key code key_lctrl place e refl in
    let n6 = not_key code key_lgui place e refl in
    let n7 = not_key code key_lalt place e refl in
    let n8 = not_key code key_f6 place e refl in simp (n1, n2, n3, n4, n5, n6, n7, n8)

-- The key at a place goes down (`true`) or up.
abbrev pub moved_key : Bool → ℕ → ℕ → ℕ → Keyboard → Bool
moved_key down place r c k =
    if place / 256 == r
    then (if down
        then bit_at (k.matrix r) c || bit_at (place % 256) c
        else bit_at (k.matrix r) c && not (bit_at (place % 256) c))
    else bit_at (k.matrix r) c

-- A key of the map that goes down or up sets or clears the bits of its column in its row, and no
-- other bit of the matrix.
pub key_handling_bit :
    (code place action r c : ℕ) (k : Keyboard)
    → find_key code key_map ≡ some place
    → c < 8
    → bit_at ((key_handling code action k).1.matrix r) c ≡ moved_key (not (action == 0)) place r c k
unfolding matrix_key
key_handling_bit code place action r c k e l =
    let down = bit_at-bit_or (k.matrix (place / 256)) (place % 256) c in
    let up = bit_at-bit_and (k.matrix (place / 256)) (not8 (place % 256)) c in
    let mask = bit_at-not8 c (place % 256) l (omega arith) in
    ap (λ x. bit_at (x.1.matrix r) c) (to_matrix code place action k e)
    ∙ rw (e, matrix_key) (ground (arith, down, up, mask))

-- The cells of the matrix stay bytes.
matrix_key-IsBytes :
    (code action : ℕ) (k : Keyboard) → IsBytes k → IsBytes (matrix_key code action k)
unfolding matrix_key
matrix_key-IsBytes code action k b r = elim (Option-cases (find_key code key_map)) [
  | inl e ↦ rw (e, matrix_key) (b r)
  | inr (place, e) ↦
      let up =
        bit_and-lt 8 (k.matrix (place / 256)) (not8 (place % 256)) (b (place / 256))
          (omega arith) in
      let down =
        bit_or-lt 8 (k.matrix (place / 256)) (place % 256) (b (place / 256)) (omega arith) in
      rw (e, matrix_key) (ground (arith, b r, up, down))
]

pub key_handling-IsBytes :
    (code action : ℕ) (k : Keyboard) → IsBytes k → IsBytes (key_handling code action k).1
unfolding key_handling
key_handling-IsBytes code action k b r = ground (arith, b r, matrix_key-IsBytes code action k b r)

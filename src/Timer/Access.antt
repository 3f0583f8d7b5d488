-- ===== src/Timer/Access.antt =====
-- Writes and reads of the counters, and the whole timer (libs/v6core/src/timer_i8253.cpp).
use v6emul.Base.{ℕ, ◌+◌, ◌*◌, ◌/◌, ◌%◌, true, not, leb, ltb, ◌==◌, if◌then◌else◌, update}
use v6emul.Timer.{no_latch, Counter, reset_counter, to_bcd, from_bcd}
use v6emul.Timer.Clock.{clock_counter, set_mode, latch_counter}

-- the bytes of a count, one or two of them
abbrev pub take_byte : ℕ → Counter → Counter
take_byte w c =
    if c.latch_mode == 3
    then (if c.write_state == 0
        then record c { write_lsb = w; write_state = 1 }
        else if c.write_state == 1
        then record c {
          write_msb = w;
          write_state = 0;
          load_value = w * 256 + c.write_lsb;
          load_flag = true;
        }
        else c)
    else if c.latch_mode == 1
    then record c { load_value = w; load_flag = true }
    else if c.latch_mode == 2
    then record c { value = w * 256; load_value = w * 256; load_flag = true }
    else c

-- `CounterUnit::Write` of a byte
unfoldable pub write_counter : ℕ → Counter → Counter
write_counter w c0 =
    let c = take_byte w c0 in
    if not c.load_flag
    then c
    else (let c' = if c.bcd then record c { load_value = from_bcd c.load_value } else c in
        if c'.mode_int == 0
        then record c' { delay = 3 }
        else if leb c'.mode_int 3
        then (if c'.enabled then c' else record c' { delay = 3 })
        else record c' { delay = 4 })

-- the latched value, or the current one, in the base of the counter
abbrev pub shown_value : Counter → ℕ
shown_value c =
    let v = if c.latch_value == no_latch then c.value else c.latch_value in
    if c.bcd then to_bcd v else v

-- `CounterUnit::Read`
unfoldable pub read_counter : Counter → ℕ × Counter
read_counter c =
    let v = shown_value c in
    if c.latch_mode == 1
    then (v % 256, record c { latch_value = no_latch })
    else if c.latch_mode == 2
    then (v / 256 % 256, record c { latch_value = no_latch })
    else if c.latch_mode == 3
    then (if c.write_state == 0
        then (v % 256, record c { write_state = 1 })
        else if c.write_state == 1
        then (v / 256 % 256, record c { latch_value = no_latch; write_state = 0 })
        else (v, c))
    else (0, c)

-- `TimerI8253`: three counters; the control word is never written.
pub record Timer : Type 0 where
  pub counters : ℕ → Counter
  pub control_word : ℕ

unfoldable pub new_timer : Timer
new_timer = record { counters = λ i. reset_counter; control_word = 0 }

-- `TimerI8253::Reset`
unfoldable pub reset_timer : Timer → Timer
reset_timer t = record t { counters = λ i. if ltb i 3 then reset_counter else t.counters i }

-- `write_cw`
unfoldable pub write_cw : ℕ → Timer → Timer
write_cw w t =
    let i = w / 64 % 4 in
    let latch = w / 16 % 4 in
    let c = t.counters i in
    if leb 3 i then t else record t {
      counters =
          update t.counters i
            (if latch == 0 then latch_counter c else set_mode (w / 2 % 4) latch (w % 2 == 1) c);
    }

-- `TimerI8253::Write` and `Read`
unfoldable pub write_timer : ℕ → ℕ → Timer → Timer
write_timer addr w t =
    let i = addr % 4 in
    if i == 3
    then write_cw w t
    else record t { counters = update t.counters i (write_counter w (t.counters i)) }

unfoldable pub read_timer : ℕ → Timer → ℕ × Timer
read_timer addr t =
    let i = addr % 4 in
    let (v, c) = read_counter (t.counters i) in
    if i == 3 then (t.control_word, t) else (v, record t { counters = update t.counters i c })

-- `TimerI8253::Clock`, with the three outputs
unfoldable pub clock_timer : ℕ → Timer → (ℕ × ℕ × ℕ) × Timer
clock_timer cycles t =
    let (ch0, c0) = clock_counter cycles (t.counters 0) in
    let (ch1, c1) = clock_counter cycles (t.counters 1) in
    let (ch2, c2) = clock_counter cycles (t.counters 2) in
    ((ch0, ch1, ch2), record t { counters = update (update (update t.counters 0 c0) 1 c1) 2 c2 })

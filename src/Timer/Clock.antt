-- ===== src/Timer/Clock.antt =====
-- The modes of a counter and its clock (libs/v6core/src/timer_i8253.cpp).
use v6emul.Base.{
  ℕ, ◌+◌, ◌-◌, ◌%◌, bit_xor, Bool, true, false, not, ◌&&◌, ◌||◌, ◌==◌, if◌then◌else◌, nonzero,
}
use v6emul.Timer.{i32_sub, i32_add, i32_at_most_zero, latch_delay, Counter}

-- the count after 0
abbrev pub full_count : Counter → ℕ
full_count c = if c.bcd then 10000 else 65536

abbrev pub reload : Counter → ℕ
reload c = if c.load_value == 0 then full_count c else c.load_value

-- the value goes down, and starts again at 0 or below
abbrev pub wrap_value : ℕ → ℕ → ℕ
wrap_value again v = if i32_at_most_zero v then i32_add v again else v

-- mode 0, interrupt on terminal count
unfoldable pub terminal_count : ℕ → Counter → ℕ × Counter
terminal_count cycles c0 =
    let c =
      if c0.load_flag
      then record c0 { value = c0.load_value; enabled = true; armed = true; out = 0 }
      else c0 in
    let result = c.out in
    let left = i32_sub c.value cycles in
    if not c.enabled
    then (result, c)
    else if not (i32_at_most_zero left)
    then (result, record c { value = left })
    else if c.armed
    then (
      i32_add (i32_sub 0 left) 1,
      record c {
        out = if nonzero c.value then 1 else c.out;
        armed = false;
        value = i32_add left (full_count c);
      },
    )
    else (result, record c { value = i32_add left (full_count c) })

-- mode 1, programmable one-shot
unfoldable pub one_shot : ℕ → Counter → ℕ × Counter
one_shot cycles c0 =
    let c = if not c0.enabled && c0.load_flag then record c0 { enabled = true } else c0 in
    let again = if c.load_value == 0 then full_count c else c.load_value + 1 in
    (
      c0.out,
      if c.enabled then record c { value = wrap_value again (i32_sub c.value cycles) } else c,
    )

-- the load at the start of modes 2 and 3
abbrev pub start_count : Counter → Counter
start_count c =
    if not c.enabled && c.load_flag then record c { value = c.load_value; enabled = true } else c

-- mode 2, rate generator
unfoldable pub rate_generator : ℕ → Counter → ℕ × Counter
rate_generator cycles c0 =
    let c = start_count c0 in
    (
      c0.out,
      if c.enabled then record c { value = wrap_value (reload c) (i32_sub c.value cycles) } else c,
    )

-- mode 3, square wave generator
abbrev pub wave_step : Counter → ℕ
wave_step c =
    if c.value == c.load_value && c.value % 2 == 1 then (if c.out == 0 then 3 else 1) else 2

unfoldable pub square_wave : Counter → ℕ × Counter
square_wave c0 =
    let c = start_count c0 in
    let left = i32_sub c.value (wave_step c) in
    let c' =
      if not c.enabled
      then c
      else if i32_at_most_zero left
      then record c { out = bit_xor c.out 1; value = i32_add left (reload c) }
      else record c { value = left } in
    (c'.out, c')

-- the switch over the mode, for `cycles` not 0
unfoldable pub clock_mode : ℕ → Counter → ℕ × Counter
clock_mode cycles c =
    if c.mode_int == 0
    then terminal_count cycles c
    else if c.mode_int == 1
    then one_shot cycles c
    else if c.mode_int == 2
    then rate_generator cycles c
    else if c.mode_int == 3
    then square_wave c
    else (c.out, c)

-- `CounterUnit::Clock`
unfoldable pub clock_counter : ℕ → Counter → ℕ × Counter
clock_counter cycles c =
    if nonzero c.delay
    then (c.out, record c { delay = c.delay - 1 })
    else if cycles == 0
    then (c.out, c)
    else if not c.enabled && not c.load_flag
    then (c.out, c)
    else (let (result, c') = clock_mode cycles c in (result, record c' { load_flag = false }))

-- `CounterUnit::SetMode`
unfoldable pub set_mode : ℕ → ℕ → Bool → Counter → Counter
set_mode mode latch flag_bcd c0 =
    let (_, c1) = clock_counter latch_delay c0 in
    let low = mode % 4 in
    let mode_int = if low == 2 then 2 else if low == 3 then 3 else mode in
    let c = record c1 {
      delay = latch_delay;
      bcd = flag_bcd;
      mode_int = mode_int;
      out = if mode_int == 0 then 0 else 1;
      armed = if mode_int == 0 || mode_int == 1 then true else c1.armed;
      enabled = false;
    } in
    record c { load_flag = false; latch_mode = latch; write_state = 0 }

-- `CounterUnit::Latch`
unfoldable pub latch_counter : Counter → Counter
latch_counter c0 =
    let (_, c) = clock_counter latch_delay c0 in
    record c { delay = latch_delay; latch_value = c.value }

-- ===== src/Ay.antt =====
-- The sound chip AY-3-8910 (libs/v6core/include/core/sound_ay8910.h). A sample is left as the indices
-- into the table of amplitudes, one for each channel, and `none` for silence: the amplitudes and
-- their mean are `float`.
use v6emul.Base.{
  ℕ, ◌+◌, ◌-◌, ◌*◌, ◌/◌, ◌^◌, bit_and, bit_or, bit_xor, ◌&&◌, leb, ◌==◌, if◌then◌else◌, nonzero,
  Option, none, some, List, [], ◌∷◌, set, get_or, replicate,
}

-- `ayr` has the 16 registers and the counters of the three tones.
pub record Ay : Type 0 where
  pub ayr : List ℕ
  pub envc : ℕ
  pub envv : ℕ
  pub envx : ℕ
  pub ay13 : ℕ
  pub tons : ℕ
  pub noic : ℕ
  pub noiv : ℕ
  pub noir : ℕ
  pub ayreg : ℕ

-- `Init`
unfoldable pub init_ay : Ay
init_ay = record {
  ayr = replicate 19 0;
  envc = 0;
  envv = 0;
  envx = 0;
  ay13 = 0;
  tons = 0;
  noic = 0;
  noiv = 0;
  noir = 1;
  ayreg = 0;
}

abbrev pub ay_reg : ℕ → Ay → ℕ
ay_reg i ay = get_or ay.ayr i 0

-- `rmask`
abbrev pub rmask : List ℕ
rmask =
    0xff ∷ 0x0f ∷ 0xff ∷ 0x0f ∷ 0xff ∷ 0x0f ∷ 0x1f ∷ 0xff ∷ 0x1f ∷ 0x1f ∷ 0x1f ∷ 0xff ∷ 0xff ∷ 0x0f
    ∷ 0xff ∷ 0xff ∷ []

-- the shape of the envelope: CONT, ATT, ALT and HOLD
abbrev pub envelope_shape : ℕ → ℕ
envelope_shape val = if bit_and val 0x0c == 0 then 9 else if bit_and val 0x0c == 4 then 15 else val

-- `Write`
unfoldable pub write_ay : ℕ → ℕ → Ay → Ay
write_ay addr val ay =
    if addr == 1
    then record ay { ayreg = bit_and val 0x0f }
    else (let ay' = record ay {
      ayr = set ay.ayr ay.ayreg (bit_and val (get_or rmask ay.ayreg 0));
    } in
        if ay.ayreg == 13 then record ay' { envx = 0; ay13 = envelope_shape val } else ay')

-- `Read`
unfoldable pub read_ay : ℕ → Ay → ℕ
read_ay addr ay = if addr == 1 then ay.ayreg else ay_reg ay.ayreg ay

-- `EStep`: the value of the envelope
unfoldable pub e_step : Ay → ℕ × Ay
e_step ay =
    let next : Ay → ℕ × Ay = λ a. (
      if nonzero (bit_and a.ay13 4) then a.envx else 15 - a.envx,
      record a { envx = a.envx + 1 },
    ) in
    if nonzero (ay.envx / 16)
    then (if nonzero (bit_and ay.ay13 1)
        then (15 * bit_and (bit_xor (ay.ay13 / 2) ay.ay13) 2 / 2, ay)
        else next (record ay { envx = 0; ay13 = bit_xor ay.ay13 (bit_and (ay.ay13 * 2) 4) }))
    else next ay

-- the period of a tone and of the envelope
abbrev pub tone_period : ℕ → Ay → ℕ
tone_period ch ay = bit_or (ay_reg (2 * ch) ay) (ay_reg (2 * ch + 1) ay * 256)

abbrev pub envelope_period : Ay → ℕ
envelope_period ay = bit_or (ay_reg 11 ay * 2) (ay_reg 12 ay * 512)

-- a tone counts, and flips its output at its period
abbrev pub tone_step : ℕ → Ay → Ay
tone_step ch ay =
    let count = ay_reg (ch + 16) ay + 1 in
    if leb (tone_period ch ay) count
    then record ay { ayr = set ay.ayr (ch + 16) 0; tons = bit_xor ay.tons (2 ^ ch) }
    else record ay { ayr = set ay.ayr (ch + 16) count }

-- the noise counts, and takes the next bit of its register
abbrev pub noise_step : Ay → Ay
noise_step ay =
    let count = ay.noic + 1 in
    if leb (ay_reg 6 ay * 2) count
    then record ay {
      noic = 0;
      noiv = bit_and ay.noir 1;
      noir = bit_xor ay.noir (bit_and ay.noir 1 * 0x24000) / 2;
    }
    else record ay { noic = count }

-- `CStep`: the index of the amplitude of a channel
unfoldable pub c_step : ℕ → Ay → Option ℕ × Ay
c_step ch ay0 =
    let ay = tone_step ch ay0 in
    let mixer = ay_reg 7 ay in
    let tone = bit_or (mixer / 2 ^ ch) (ay.tons / 2 ^ ch) in
    let noise = bit_or (mixer / 2 ^ (ch + 3)) ay.noiv in
    let level = ay_reg (8 + ch) ay in
    (
      if bit_and (bit_and tone noise) 1 == 0
          then none
          else some (if nonzero (bit_and level 0x10) then ay.envv else bit_and level 0x0f),
      ay,
    )

-- the envelope counts
abbrev pub envelope_clock : Ay → Ay
envelope_clock ay =
    let count = ay.envc + 1 in
    if leb (envelope_period ay) count
    then (let (v, ay') = e_step (record ay { envc = 0 }) in record ay' { envv = v })
    else record ay { envc = count }

-- `Clock`
unfoldable pub clock_ay : Ay → (Option ℕ × Option ℕ × Option ℕ) × Ay
clock_ay ay0 =
    let ay = noise_step (envelope_clock ay0) in
    let (a, ay1) = c_step 0 ay in
    let (b, ay2) = c_step 1 ay1 in let (c, ay3) = c_step 2 ay2 in ((a, b, c), ay3)

-- `Mute`: the counters alone
unfoldable pub mute_ay : Ay → Ay
mute_ay ay0 =
    let count = ay0.envc + 1 in
    let ay =
      if leb (envelope_period ay0) count
      then (if nonzero (ay0.envx / 16) && bit_and ay0.ay13 1 == 0
          then record ay0 { envc = 0; envx = 0; ay13 = bit_xor ay0.ay13 (bit_and (ay0.ay13 * 2) 4) }
          else record ay0 { envc = 0 })
      else record ay0 { envc = count } in
    tone_step 2 (tone_step 1 (tone_step 0 (noise_step ay)))

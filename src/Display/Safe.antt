-- ===== src/Display/Safe.antt =====
-- Pixels whose committed writes do not go to the disk controller (libs/v6core/src/io.cpp).
use v6emul.Base.{
  ℕ, ◌-◌, ◌≡◌, refl, ◌∙◌, ap, arith, Bool, true, false, ◌==◌, if◌then◌else◌, Option, none, some,
}
use v6emul.Memory.{Memory}
use v6emul.Io.{Io, set_color}
use v6emul.Io.Ports.{is_port, port_out_handling, write_control}
use v6emul.Io.Access.{
  port_out_commit, try_to_commit, commit_out, commit_color, commit_mode, is_positive8,
}

-- A commit that succeeds, and leaves the port that was written last.
abbrev pub IsSafe : ℕ → Option (Io × Memory) → Type 0
IsSafe port o = (io' : Io) × (m' : Memory) × (o ≡ some (io', m')) × (io'.outport ≡ port)

IsSafe-if :
    (b : Bool) (o o' : Option (Io × Memory)) (port : ℕ)
    → IsSafe port o
    → IsSafe port o'
    → IsSafe port (if b then o else o')
IsSafe-if true o o' port h h' = h
IsSafe-if false o o' port h h' = h'

IsSafe-skip :
    (b : Bool) (o o' : Option (Io × Memory)) (port : ℕ)
    → b ≡ false
    → IsSafe port o'
    → IsSafe port (if b then o else o')
IsSafe-skip b o o' port e (io', m', r, s) = (io', m', ap (λ c. if c then o else o') e ∙ r, s)

control_IsSafe : (v : ℕ) (io : Io) (m : Memory) → IsSafe io.outport (some (write_control v io, m))
control_IsSafe v io m = (write_control v io, m, refl, ground arith)

handling_IsSafe :
    (port v : ℕ) (io : Io) (m : Memory)
    → is_port 0x18 0x1c port ≡ false
    → IsSafe io.outport (port_out_handling port v io m)
unfolding port_out_handling
handling_IsSafe port v io m safe = IsSafe-if (port == 0x00) _ _ io.outport (control_IsSafe v io m) (
    IsSafe-if (port == 0x01) _ _ io.outport (_, _, refl, refl)
      (IsSafe-if (port == 0x02) _ _ io.outport (_, _, refl, refl)
        (IsSafe-if (port == 0x03) _ _ io.outport (_, _, refl, refl)
          (IsSafe-if (port == 0x04) _ _ io.outport (_, _, refl, refl)
            (IsSafe-if (port == 0x05) _ _ io.outport (_, _, refl, refl)
              (IsSafe-if (port == 0x06) _ _ io.outport (_, _, refl, refl)
                (IsSafe-if (port == 0x07) _ _ io.outport (_, _, refl, refl)
                  (IsSafe-if (is_port 0x08 0x0b port) _ _ io.outport (_, _, refl, refl)
                    (IsSafe-if (is_port 0x0c 0x0f port) _ _ io.outport (_, _, refl, refl)
                      (IsSafe-if (port == 0x10) _ _ io.outport (_, _, refl, refl)
                        (IsSafe-if (port == 0x11) _ _ io.outport (_, _, refl, refl)
                          (IsSafe-if (is_port 0x14 0x15 port) _ _ io.outport (_, _, refl, refl)
                            (IsSafe-skip (port == 0x18) _ _ io.outport (ground (arith, safe)) (
                              IsSafe-skip (port == 0x19) _ _ io.outport (ground (arith, safe)) (
                                IsSafe-skip (port == 0x1a) _ _ io.outport (ground (arith, safe)) (
                                  IsSafe-skip (port == 0x1b) _ _ io.outport (ground (arith, safe)) (
                                    IsSafe-skip (port == 0x1c) _ _ io.outport (ground (arith, safe))
                                      (IsSafe-if (port == 0x20) _ _ io.outport (_, _, refl, refl)
                                        (IsSafe-if (port == 0x21) _ _ io.outport (_, _, refl, refl)
                                          (IsSafe-if (port == 0x40) _ _ io.outport
                                            (_, _, refl, refl)
                                            (IsSafe-if (port == 0x41) _ _ io.outport
                                              (_, _, refl, refl)
                                              (IsSafe-if (port == 0x80) _ _ io.outport
                                                (_, _, refl, refl)
                                                (IsSafe-if (port == 0x81) _ _ io.outport
                                                  (_, _, refl, refl)
                                                  ((_, _, refl, refl)))))))))))))))))))))))))

color_outport : (c : ℕ) (io : Io) → (commit_color c io).outport ≡ io.outport
unfolding set_color
color_outport c io = ground arith

mode_outport : (io : Io) → (commit_mode io).outport ≡ io.outport
mode_outport io = ground arith

out_IsSafe :
    (io : Io) (m : Memory)
    → is_port 0x18 0x1c io.outport ≡ false
    → IsSafe io.outport (commit_out io m)
unfolding port_out_commit
out_IsSafe io m safe =
    let io' : Io = record io { out_commit_timer = io.out_commit_timer - 1 } in
    IsSafe-if (is_positive8 io.out_commit_timer) _ _ io.outport
      (IsSafe-if (io'.out_commit_timer == 0) _ _ io.outport
        (handling_IsSafe io.outport io.outbyte io' m safe) (io', m, refl, refl))
      (io, m, refl, refl)

-- the end of a commit
abbrev finish : ℕ → Option (Io × Memory) → Option (Io × Memory)
finish c o = elim o [ none ↦ none | some (io', m') ↦ some (commit_mode (commit_color c io'), m') ]

pub commit_IsSafe :
    (c : ℕ) (io : Io) (m : Memory)
    → is_port 0x18 0x1c io.outport ≡ false
    → IsSafe io.outport (try_to_commit c io m)
unfolding try_to_commit
commit_IsSafe c io m safe =
    let (io', m', e, s) = out_IsSafe io m safe in
    (
      commit_mode (commit_color c io'),
      m',
      ap (finish c) e,
      mode_outport (commit_color c io') ∙ color_outport c io' ∙ s,
    )

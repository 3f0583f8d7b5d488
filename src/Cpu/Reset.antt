-- ===== src/Cpu/Reset.antt =====
-- `Init` and `Reset` of libs/v6core/src/cpu_i8080.cpp.
use v6emul.Base.{ℕ, ◌≡◌, refl, arith, false}
use v6emul.Cpu.State.{Cpu, set_word, pair_psw, pair_bc, pair_de, pair_hl, set_f, set_wz}
use v6emul.Cpu.Valid.{IsCpu}

-- PSW_INIT
abbrev pub psw_init : ℕ
psw_init = 0b10

-- `PSW = PSW_INIT; BC = DE = HL = 0`
abbrev clear_words : Cpu → Cpu
clear_words s =
    set_word pair_bc 0 (set_word pair_de 0 (set_word pair_hl 0 (set_word pair_psw psw_init s)))

-- `INTS = 0`: MC, INTE, IFF, HLTA and EI_PENDING
abbrev clear_ints : Cpu → Cpu
clear_ints s = record s { mc = 0; inte = false; iff = false; hlta = false; ei_pending = false }

unfoldable pub reset : Cpu → Cpu
reset s =
    let s' =
      clear_ints (set_wz 0 (record s { cc = 0; pc = 0; sp = 0; ir = 0; act = 0; tmp = 0 })) in
    clear_words (set_f psw_init s')

unfoldable pub init : Cpu → Cpu
unfolding reset
init s = reset (clear_words s)

-- Whatever the registers held, they are valid after a reset, with PC at 0, no machine cycle left,
-- no interrupt enabled or pending, and the CPU not halted. A second reset changes nothing, and
-- `Init` is a reset.
pub reset_lem :
    (s : Cpu)
    → IsCpu (reset s)
      × ((reset s).pc ≡ 0)
      × ((reset s).mc ≡ 0)
      × ((reset s).inte ≡ false)
      × ((reset s).iff ≡ false)
      × ((reset s).hlta ≡ false)
      × (reset (reset s) ≡ reset s)
      × (init s ≡ reset s)
unfolding reset init
reset_lem s = (valid, refl, refl, refl, refl, refl, refl, refl)
  where
    valid : IsCpu (reset s)
    valid = record {
      a_in = omega arith;
      b_in = omega arith;
      c_in = omega arith;
      d_in = omega arith;
      e_in = omega arith;
      h_in = omega arith;
      l_in = omega arith;
      tmp_in = omega arith;
      act_in = omega arith;
      w_in = omega arith;
      z_in = omega arith;
      pc_in = omega arith;
      sp_in = omega arith;
      ir_in = omega arith;
      f1_set = refl;
      f3_clear = refl;
      f5_clear = refl;
    }

-- ===== src/Isa.antt =====
-- The instruction set of the processor as its manual gives it: each instruction at once, on the
-- registers, the flags and the memory, without machine cycles, scratch registers or the debugger's
-- record. It is what `CpuI8080` (libs/v6core/src/cpu_i8080.cpp) is measured against.
pub mod Passes
pub mod Flags
pub mod Arith
pub mod Drive
pub mod Refine
pub mod Begin
pub mod Run
pub mod Lengths
pub mod Timing
pub mod Halt
use v6emul.Base.{
  ℕ, ◌+◌, ◌-◌, ◌*◌, ◌/◌, ◌%◌, Bool, true, false, not, ◌&&◌, if◌then◌else◌, [], update,
}
use v6emul.Memory.{AddrSpace, ram, stack, Debug, get_byte, get_global_addr}
use v6emul.Cpu.State.{
  Cpu, Machine, Bus, Reg, pair_hl, pair_psw, get_reg, set_reg, get_word, set_word, get_high,
  get_low, set_high, set_low, cond_holds,
}
use v6emul.Cpu.Access.{inc16, dec16}
use v6emul.Cpu.Ops.{Op}
use v6emul.Isa.Flags.{
  add_flags, sub_flags, compare_flags, and_flags, or_flags, xor_flags, inr_flags, dcr_flags, adjust,
  rotate_left, rotate_right, rotate_left_carry, rotate_right_carry, add_hl, fix_unused,
}

abbrev pub no_debug : Debug
no_debug = record {
  instr_global_addr = 0;
  instr = [];
  instr_len = 0;
  read_global_addr = [];
  read = [];
  read_len = 0;
  write_global_addr = [];
  write = [];
  write_len = 0;
  before_write = [];
}

module _ {W : Type 0} where
  -- What a program can observe at the end of an instruction: the scratch registers, the pending
  -- request, the clock and the debugger's record are blanked.
  abbrev pub hide : Machine W → Machine W
  hide m = record {
    cpu = record (m.cpu) { cc = 0; ir = 0; tmp = 0; act = 0; w = 0; z = 0; iff = false };
    mem = record (m.mem) { debug = no_debug };
    io = m.io;
  }

  abbrev pub load : ℕ → AddrSpace → Machine W → ℕ
  load addr space m = get_byte m.mem addr space

  abbrev pub store : ℕ → ℕ → AddrSpace → Machine W → Machine W
  store addr v space m = record m {
    mem = record (m.mem) { cells = update m.mem.cells (get_global_addr m.mem addr space) v };
  }

  abbrev pub change : (Cpu → Cpu) → Machine W → Machine W
  change f m = record m { cpu = f m.cpu }

  -- The operand bytes behind the opcode; `pc` is already past it.
  abbrev pub imm8 : Machine W → ℕ
  imm8 m = load m.cpu.pc ram m

  abbrev pub imm_high : Machine W → ℕ
  imm_high m = load (inc16 m.cpu.pc) ram m

  abbrev pub imm16 : Machine W → ℕ
  imm16 m = imm_high m * 256 + imm8 m

  abbrev pub skip1 : Machine W → Machine W
  skip1 = change (λ s. record s { pc = inc16 s.pc })

  abbrev pub skip2 : Machine W → Machine W
  skip2 = change (λ s. record s { pc = inc16 (inc16 s.pc) })

  abbrev pub jump : ℕ → Machine W → Machine W
  jump addr = change (λ s. record s { pc = addr })

  abbrev pub move_sp : (ℕ → ℕ) → Machine W → Machine W
  move_sp f = change (λ s. record s { sp = f s.sp })

  -- A word goes below the stack pointer, its high byte at the higher address.
  abbrev pub push_bytes : ℕ → ℕ → Machine W → Machine W
  push_bytes high low m =
      let sp1 = dec16 m.cpu.sp in
      move_sp (λ sp. dec16 (dec16 sp)) (store (dec16 sp1) low stack (store sp1 high stack m))

  abbrev pub top_low : Machine W → ℕ
  top_low m = load m.cpu.sp stack m

  abbrev pub top_high : Machine W → ℕ
  top_high m = load (inc16 m.cpu.sp) stack m

  abbrev pub drop2 : Machine W → Machine W
  drop2 = move_sp (λ sp. inc16 (inc16 sp))

  -- the operand M
  abbrev pub at_hl : Machine W → ℕ
  at_hl m = load (get_word pair_hl m.cpu) ram m

  abbrev pub carry : Bool → Machine W → Bool
  carry with_carry m = with_carry && m.cpu.fc

  abbrev pub return : Machine W → Machine W
  return m = jump (top_high m * 256 + top_low m) (drop2 m)

  abbrev pub call_to : ℕ → Machine W → Machine W
  call_to addr m = jump addr (push_bytes (m.cpu.pc / 256) (m.cpu.pc % 256) m)

  module _ (bus : Bus W) where
    -- The effect of an instruction, from the machine whose `pc` is past the opcode.
    unfoldable pub isa : Op → Machine W → Machine W
    isa (Op.mov_reg_reg dst src) m = change (λ s. set_reg dst (get_reg src s) s) m
    isa (Op.load_reg_ptr dst p) m = change (set_reg dst (load (get_word p m.cpu) ram m)) m
    isa (Op.mov_mem_reg src) m = store (get_word pair_hl m.cpu) (get_reg src m.cpu) ram m
    isa (Op.mvi_reg_data dst) m = skip1 (change (set_reg dst (imm8 m)) m)
    isa (Op.stax p) m = store (get_word p m.cpu) m.cpu.a ram m
    isa (Op.lxi p) m = skip2 (change (λ s. set_high p (imm_high m) (set_low p (imm8 m) s)) m)
    isa (Op.push p) m = push_bytes (get_high p m.cpu) (get_low p m.cpu) m
    isa (Op.pop p) m = drop2 (change (λ s. set_high p (top_high m) (set_low p (top_low m) s)) m)
    isa (Op.dad p) m = change (λ s. add_hl (get_word p s) s) m
    isa (Op.inx p) m = change (λ s. set_word p (inc16 (get_word p s)) s) m
    isa (Op.dcx p) m = change (λ s. set_word p (dec16 (get_word p s)) s) m
    isa Op.mvi_mem_data m = store (get_word pair_hl m.cpu) (imm8 m) ram (skip1 m)
    isa Op.lda m = skip2 (change (set_reg Reg.reg_a (load (imm16 m) ram m)) m)
    isa Op.sta m = store (imm16 m) m.cpu.a ram (skip2 m)
    isa Op.lhld m =
        skip2
          (change (λ s. record s { l = load (imm16 m) ram m; h = load (inc16 (imm16 m)) ram m }) m)
    isa Op.shld m = store (inc16 (imm16 m)) m.cpu.h ram (store (imm16 m) m.cpu.l ram (skip2 m))
    isa Op.sphl m = change (λ s. record s { sp = get_word pair_hl s }) m
    isa Op.xchg m = change (λ s. record s { d = s.h; e = s.l; h = s.d; l = s.e }) m
    isa Op.xthl m =
        change (λ s. record s { h = top_high m; l = top_low m })
          (store (inc16 m.cpu.sp) m.cpu.h stack (store m.cpu.sp m.cpu.l stack m))
    isa Op.pop_psw m = drop2 (
        change (λ s. fix_unused (set_high pair_psw (top_high m) (set_low pair_psw (top_low m) s)))
          m)
    isa (Op.add src cy) m = change (λ s. add_flags (get_reg src s) (cy && s.fc) s) m
    isa (Op.sub src cy) m = change (λ s. sub_flags (get_reg src s) (cy && s.fc) s) m
    isa (Op.add_mem cy) m = change (add_flags (at_hl m) (carry cy m)) m
    isa (Op.adi cy) m = skip1 (change (add_flags (imm8 m) (carry cy m)) m)
    isa (Op.sub_mem cy) m = change (sub_flags (at_hl m) (carry cy m)) m
    isa (Op.sbi cy) m = skip1 (change (sub_flags (imm8 m) (carry cy m)) m)
    isa (Op.inr dst) m =
        change (λ s. set_reg dst ((get_reg dst s + 1) % 256) (inr_flags (get_reg dst s) s)) m
    isa (Op.dcr dst) m =
        change (λ s. set_reg dst ((get_reg dst s + 255) % 256) (dcr_flags (get_reg dst s) s)) m
    isa (Op.ana src) m = change (λ s. and_flags (get_reg src s) s) m
    isa (Op.xra src) m = change (λ s. xor_flags (get_reg src s) s) m
    isa (Op.ora src) m = change (λ s. or_flags (get_reg src s) s) m
    isa (Op.cmp src) m = change (λ s. compare_flags (get_reg src s) s) m
    isa Op.inr_mem m =
        store (get_word pair_hl m.cpu) ((at_hl m + 1) % 256) ram (change (inr_flags (at_hl m)) m)
    isa Op.dcr_mem m =
        store (get_word pair_hl m.cpu) ((at_hl m + 255) % 256) ram (change (dcr_flags (at_hl m)) m)
    isa Op.ana_mem m = change (and_flags (at_hl m)) m
    isa Op.ani m = skip1 (change (and_flags (imm8 m)) m)
    isa Op.xra_mem m = change (xor_flags (at_hl m)) m
    isa Op.xri m = skip1 (change (xor_flags (imm8 m)) m)
    isa Op.ora_mem m = change (or_flags (at_hl m)) m
    isa Op.ori m = skip1 (change (or_flags (imm8 m)) m)
    isa Op.cmp_mem m = change (compare_flags (at_hl m)) m
    isa Op.cpi m = skip1 (change (compare_flags (imm8 m)) m)
    isa Op.daa m = change adjust m
    isa Op.cma m = change (λ s. record s { a = 255 - s.a }) m
    isa Op.stc m = change (λ s. record s { fc = true }) m
    isa Op.cmc m = change (λ s. record s { fc = not s.fc }) m
    isa Op.rlc m = change rotate_left m
    isa Op.rrc m = change rotate_right m
    isa Op.ral m = change rotate_left_carry m
    isa Op.rar m = change rotate_right_carry m
    isa (Op.jmp cond) m = if cond_holds cond m.cpu then jump (imm16 m) m else skip2 m
    isa (Op.call cond) m = if cond_holds cond m.cpu then call_to (imm16 m) (skip2 m) else skip2 m
    isa (Op.ret_cond cond) m = if cond_holds cond m.cpu then return m else m
    isa (Op.rst arg) m = call_to (arg * 8 % 256) m
    isa Op.pchl m = jump (get_word pair_hl m.cpu) m
    isa Op.ret m = return m
    isa Op.in_ m =
        let (v, io) = bus.input (imm8 m) m.io in
        skip1 (record m { cpu = record (m.cpu) { a = v }; io = io })
    isa Op.out_ m = skip1 (record m { io = bus.output (imm8 m) m.cpu.a m.io })
    isa Op.di m = change (λ s. record s { inte = false }) m
    isa Op.ei m = change (λ s. record s { inte = true; ei_pending = true }) m
    isa Op.hlt m = change (λ s. record s { pc = dec16 s.pc }) m
    isa Op.nop m = m

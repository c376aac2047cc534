-- ===== src/Processor/Simple.antt =====
-- The handlers of cpu86.py that are written by hand: the stack, jumps, moves and flags.
use minixfs.Prelude.{ℕ, zero, suc, ◌+◌, ◌-◌, ◌%◌, Bool, true, not, ◌&&◌, ◌==◌, if◌then◌else◌, max}
use minixfs.Processor.Flags.{Width, w8, w16, w32, msb, signed, cut, Flags, flags_word, flags_of}
use minixfs.Processor.Machine.{
  Insn, Prog, get, put, stop, load_bytes, interrupt, ◌>>=◌, ◌>>◌, return, Done, halt, cpu_error,
  LoopKind, loopne, loope, loop_always, jecxz,
}
use minixfs.Processor.Operands.{
  word, reg32, esp, ebp, read_reg, write_reg, set_flags, the_flags, the_eip, jump, ea, write_rm_at,
  push, pop, load_at, store_at,
}

unfoldable pub h_hlt : Prog Done
h_hlt = get (λ r. put (record r { halted = true }) (stop halt))

-- The machine has an `on_int`.
unfoldable pub h_int : Insn → Prog Done
h_int e = interrupt e.imm (return tt)

-- `_bad`: the bytes of the instruction are read for the message.
unfoldable pub h_bad : ℕ → Insn → Prog Done
h_bad op e = do
  eip ← the_eip
  _ ← load_bytes (eip - e.len) (max e.len 1 + 3) return
  stop (cpu_error op (eip - e.len))

unfoldable pub h_push_r : Insn → Prog Done
h_push_r e = do v ← read_reg e.reg e.size; push e.size v

unfoldable pub h_pop_r : Insn → Prog Done
h_pop_r e = do v ← pop e.size; write_reg e.reg e.size v

unfoldable pub h_push_imm : Insn → Prog Done
h_push_imm e = push e.size e.imm

unfoldable pub h_mov_r_imm : Insn → Prog Done
h_mov_r_imm e = write_reg e.reg e.size e.imm

unfoldable pub h_call_rel : Insn → Prog Done
h_call_rel e = do back ← the_eip; push w32 back; jump e.imm

unfoldable pub h_ret : Prog Done
h_ret = do a ← pop w32; jump a

unfoldable pub h_ret_n : Insn → Prog Done
h_ret_n e = do
  r ← get return
  a ← load_at w32 (reg32 r esp)
  jump a
  write_reg esp w32 (reg32 r esp + 4 + e.imm)

unfoldable pub h_leave : Prog Done
h_leave = do b ← read_reg ebp w32; write_reg esp w32 b; v ← pop w32; write_reg ebp w32 v

-- The rounds of the loop of `_h_enter`.
unfoldable pub enter_levels : ℕ → Prog Done
enter_levels zero = return tt
enter_levels (suc n) = do
  b ← read_reg ebp w32
  write_reg ebp w32 (b + word - 4)
  c ← read_reg ebp w32
  v ← load_at w32 c
  push w32 v
  enter_levels n

unfoldable pub h_enter : Insn → Prog Done
unfolding enter_levels
h_enter e = do
  b ← read_reg ebp w32
  push w32 b
  frame ← read_reg esp w32
  enter_levels e.reg
  if e.reg == 0 then return tt else push w32 frame
  write_reg ebp w32 frame
  sp ← read_reg esp w32
  write_reg esp w32 (sp + word - e.imm)

unfoldable pub h_xchg_eax : Insn → Prog Done
h_xchg_eax e = do
  a ← read_reg 0 e.size
  b ← read_reg e.reg e.size
  write_reg 0 e.size b
  write_reg e.reg e.size a

unfoldable pub h_cbw : Width → Prog Done
h_cbw w16 = do a ← read_reg 0 w8; write_reg 0 w16 (cut w16 (signed w8 a))
h_cbw w8 = do a ← read_reg 0 w16; write_reg 0 w32 (cut w32 (signed w16 a))
h_cbw w32 = do a ← read_reg 0 w16; write_reg 0 w32 (cut w32 (signed w16 a))

-- The register `edx` is filled with the sign of the accumulator.
unfoldable pub h_cwd : Width → Prog Done
h_cwd w16 = do a ← read_reg 0 w16; write_reg 2 w16 (if msb w16 a then 0xFFFF else 0)
h_cwd w8 = do a ← read_reg 0 w32; write_reg 2 w32 (if msb w32 a then word - 1 else 0)
h_cwd w32 = do a ← read_reg 0 w32; write_reg 2 w32 (if msb w32 a then word - 1 else 0)

unfoldable pub h_pushf : Insn → Prog Done
h_pushf e = do f ← the_flags; push e.size (flags_word f)

unfoldable pub h_popf : Insn → Prog Done
h_popf e = do v ← pop e.size; set_flags (flags_of v)

unfoldable pub h_sahf : Prog Done
h_sahf = do
  ah ← read_reg 4 w8
  f ← the_flags
  set_flags (record (flags_of ah) { df = f.df; of = f.of })

unfoldable pub h_lahf : Prog Done
h_lahf = do f ← the_flags; write_reg 4 w8 (flags_word f)

unfoldable pub h_xlat : Prog Done
h_xlat = do
  b ← read_reg 3 w32
  al ← read_reg 0 w8
  v ← load_at w8 ((b + al) % word)
  write_reg 0 w8 v

-- The accumulator and an absolute address.
unfoldable pub h_load_moffs : Width → Insn → Prog Done
h_load_moffs w e = do v ← load_at w e.imm; write_reg 0 w v

unfoldable pub h_store_moffs : Width → Insn → Prog Done
h_store_moffs w e = do v ← read_reg 0 w; store_at w e.imm v

abbrev pub jump_if : Bool → ℕ → Prog Done
jump_if b a = if b then jump a else return tt

-- The test of a loop, from the counter that is left.
abbrev pub takes : LoopKind → ℕ → Flags → Bool
takes loopne c f = not (c == 0) && not f.zf
takes loope c f = not (c == 0) && f.zf
takes loop_always c f = not (c == 0)
takes jecxz c f = c == 0

unfoldable pub h_loop : LoopKind → Insn → Prog Done
h_loop jecxz e = do c ← read_reg 1 w32; f ← the_flags; jump_if (takes jecxz c f) e.imm
h_loop kind e = do
  c ← read_reg 1 w32
  write_reg 1 w32 (c + word - 1)
  f ← the_flags
  jump_if (takes kind ((c + word - 1) % word) f) e.imm

unfoldable pub h_set_cf : Bool → Prog Done
h_set_cf b = do f ← the_flags; set_flags (record f { cf = b })

unfoldable pub h_set_df : Bool → Prog Done
h_set_df b = do f ← the_flags; set_flags (record f { df = b })

-- The address of an operand to be popped is computed before the pop.
unfoldable pub h_pop_rm : Insn → Prog Done
h_pop_rm e = do x ← ea e; v ← pop e.size; write_rm_at e e.size x v

-- ===== src/Processor/Perform.antt =====
-- The handlers of cpu86.py that are made from templates (`_emit`).
use minixfs.Prelude.{ℕ, ◌-◌, ◌%◌, Bool, true, false, ◌==◌, if◌then◌else◌}
use Prim.Native.Nat.{bit_and}
use minixfs.Processor.Flags.{Width, w8, w32, modulus, signed, cut, Flags, bit, cond}
use minixfs.Processor.Alu.{
  AluOp, cmp, alu, result_flags, inc, dec, sub_with, ShiftKind, shift_body, shift_flags,
}
use minixfs.Processor.Machine.{Insn, Prog, ◌>>=◌, ◌>>◌, return, Done}
use minixfs.Processor.Operands.{
  read_reg, write_reg, set_flags, the_flags, the_eip, jump, ea, read_rm_at, write_rm_at, read_rm,
  push,
}

abbrev pub writes_back : AluOp → Bool
writes_back cmp = false
writes_back _ = true

-- The flags are set before the result is written, which may fault.
unfoldable pub alu_on_rm : AluOp → Insn → ℕ → Prog Done
unfolding alu
alu_on_rm op e b = do
  x ← ea e
  a ← read_rm_at e e.size x
  f ← the_flags
  let r = alu op e.size a b f
  set_flags r.1
  if writes_back op then write_rm_at e e.size x r.0 else return tt

unfoldable pub h_alu_rm_r : AluOp → Insn → Prog Done
unfolding alu_on_rm
h_alu_rm_r op e = do
  x ← ea e
  a ← read_rm_at e e.size x
  b ← read_reg e.reg e.size
  f ← the_flags
  let r = alu op e.size a b f
  set_flags r.1
  if writes_back op then write_rm_at e e.size x r.0 else return tt

unfoldable pub h_alu_r_rm : AluOp → Insn → Prog Done
h_alu_r_rm op e = do
  a ← read_reg e.reg e.size
  b ← read_rm e e.size
  f ← the_flags
  let r = alu op e.size a b f
  set_flags r.1
  if writes_back op then write_reg e.reg e.size r.0 else return tt

unfoldable pub h_test : Insn → ℕ → ℕ → Prog Done
h_test e a b = do f ← the_flags; set_flags (result_flags e.size (bit_and a b) f)

unfoldable pub h_test_rm_r : Insn → Prog Done
unfolding h_test
h_test_rm_r e = do a ← read_rm e e.size; b ← read_reg e.reg e.size; h_test e a b

unfoldable pub h_test_rm_imm : Insn → Prog Done
unfolding h_test
h_test_rm_imm e = do a ← read_rm e e.size; h_test e a e.imm

unfoldable pub h_mov_rm : Insn → ℕ → Prog Done
h_mov_rm e v = do x ← ea e; write_rm_at e e.size x v

unfoldable pub h_mov_rm_r : Insn → Prog Done
unfolding h_mov_rm
h_mov_rm_r e = do v ← read_reg e.reg e.size; h_mov_rm e v

unfoldable pub h_mov_r_rm : Insn → Prog Done
h_mov_r_rm e = do v ← read_rm e e.size; write_reg e.reg e.size v

unfoldable pub h_xchg : Insn → Prog Done
h_xchg e = do
  x ← ea e
  a ← read_rm_at e e.size x
  b ← read_reg e.reg e.size
  write_rm_at e e.size x b
  write_reg e.reg e.size a

-- inc, dec, not and neg, by the result and the flags of the operand.
unfoldable pub h_unary : (ℕ → Flags → ℕ × Flags) → Insn → Prog Done
h_unary op e = do
  x ← ea e
  a ← read_rm_at e e.size x
  f ← the_flags
  let r = op a f
  set_flags r.1
  write_rm_at e e.size x r.0

unfoldable pub h_inc : Insn → Prog Done
unfolding h_unary inc
h_inc e = h_unary (inc e.size) e

unfoldable pub h_dec : Insn → Prog Done
unfolding h_unary dec
h_dec e = h_unary (dec e.size) e

unfoldable pub h_not : Insn → Prog Done
unfolding h_unary
h_not e = h_unary (λ a f. (modulus e.size - 1 - a, f)) e

unfoldable pub h_neg : Insn → Prog Done
unfolding h_unary sub_with
h_neg e = h_unary (λ a f. sub_with e.size 0 a 0 f) e

-- A shift by zero does nothing; the flags follow the write.
unfoldable pub h_shift : ShiftKind → ℕ → Insn → Prog Done
unfolding shift_body shift_flags
h_shift kind n e = do
  x ← ea e
  if n == 0 then return tt else do
    a ← read_rm_at e e.size x
    let r = shift_body kind e.size a n
    write_rm_at e e.size x r.result
    f ← the_flags
    set_flags (shift_flags kind e.size n r f)

unfoldable pub h_shift_cl : ShiftKind → Insn → Prog Done
unfolding h_shift
h_shift_cl kind e = do c ← read_reg 1 w32; h_shift kind (c % 32) e

unfoldable pub h_jcc : ℕ → Insn → Prog Done
unfolding cond
h_jcc code e = do f ← the_flags; if cond code f then jump e.imm else return tt

unfoldable pub h_setcc : ℕ → Insn → Prog Done
unfolding cond
h_setcc code e = do x ← ea e; f ← the_flags; write_rm_at e w8 x (bit (cond code f))

unfoldable pub h_movx : Bool → Width → Insn → Prog Done
h_movx sx to e = do
  v ← read_rm e e.size
  write_reg e.reg to (if sx then cut to (signed e.size v) else v)

unfoldable pub h_lea : Insn → Prog Done
h_lea e = do x ← ea e; write_reg e.reg e.size x

unfoldable pub h_call_rm : Insn → Prog Done
h_call_rm e = do target ← read_rm e w32; back ← the_eip; push w32 back; jump target

unfoldable pub h_jmp_rm : Insn → Prog Done
h_jmp_rm e = do target ← read_rm e w32; jump target

unfoldable pub h_push_rm : Insn → Width → Prog Done
h_push_rm e w = do v ← read_rm e w; push w v

-- ===== src/Processor/Decode.antt =====
-- The decoder of cpu86.py: which handler serves an instruction, and with what operands.
use minixfs.Prelude.{
  ℕ, ◌+◌, ◌/◌, ◌%◌, ◌^◌, Bool, true, not, ◌&&◌, ◌||◌, Option, none, some, leb, ◌==◌, if◌then◌else◌,
}
use minixfs.Processor.Flags.{Width, w8, w16, w32, signed, cut}
use minixfs.Processor.Alu as Alu
use minixfs.Processor.Alu.{AluOp, ShiftKind, rol, ror, shl, shr, sar}
use minixfs.Processor.Machine.{
  Insn, Handler, alu_rm_r, alu_r_rm, alu_rm_imm, test_rm_imm, mov_rm_imm, inc_rm, dec_rm, not_rm,
  neg_rm, shift_imm, shift_cl, call_rm, jmp_rm, push_rm, int, push_imm, enter, mov_al_moffs,
  mov_ax_moffs, mov_moffs_al, mov_moffs_ax, string, imul3, mul, imul, div, idiv, bad, StringOp,
  movs, cmps, stos, lods, scas, Rep,
}
use minixfs.Processor.Fetch.{Decoder, done, position, ◌>>=◌, imm, unread, extended, Modrm, modrm}

-- `_mk` and `_E`; the length is filled in at the end.
abbrev pub mk : Handler → Width → Modrm → ℕ → Decoder Insn
mk h w m i = done (record {
  handler = h;
  len = 0;
  size = w;
  reg = m.reg;
  base = m.base;
  index = m.index;
  scale = m.scale;
  disp = m.disp;
  imm = i;
  in_register = m.in_register;
})

abbrev pub plain : Handler → Width → ℕ → ℕ → Decoder Insn
plain h w reg i = done (record {
  handler = h;
  len = 0;
  size = w;
  reg = reg;
  base = some 0;
  index = none;
  scale = 0;
  disp = 0;
  imm = i;
  in_register = true;
})

-- An operand in the register of that number.
abbrev pub on_reg : Handler → Width → ℕ → ℕ → Decoder Insn
on_reg h w rm i = done (record {
  handler = h;
  len = 0;
  size = w;
  reg = 0;
  base = some rm;
  index = none;
  scale = 0;
  disp = 0;
  imm = i;
  in_register = true;
})

abbrev pub modrm_only : Handler → Width → Decoder Insn
modrm_only h w = do m ← modrm; mk h w m 0

-- The operations by their codes.
abbrev pub alu_op : ℕ → AluOp
alu_op n =
    if n == 0
    then Alu.add
    else if n == 1
    then Alu.or
    else if n == 2
    then Alu.adc
    else if n == 3
    then Alu.sbb
    else if n == 4
    then Alu.and
    else if n == 5
    then Alu.sub
    else if n == 6
    then Alu.xor
    else Alu.cmp

-- The even codes of a pair work on bytes.
abbrev pub by_parity : ℕ → Width → Width
by_parity op w = if op % 2 == 0 then w8 else w

-- A target relative to the end of the instruction.
abbrev pub relative : Handler → Width → ℕ → Decoder Insn
relative h w reg = do d ← imm w; position (λ a. plain h w32 reg ((a + extended w d) % 2 ^ 32))

unfoldable pub dec_alu : ℕ → Width → Decoder Insn
dec_alu op w =
    let o = alu_op (op / 8) in
    if op % 8 == 0
    then modrm_only (alu_rm_r o) w8
    else if op % 8 == 1
    then modrm_only (alu_rm_r o) w
    else if op % 8 == 2
    then modrm_only (alu_r_rm o) w8
    else if op % 8 == 3
    then modrm_only (alu_r_rm o) w
    else if op % 8 == 4
    then (do i ← imm w8; on_reg (alu_rm_imm o) w8 0 i)
    else (do i ← imm w; on_reg (alu_rm_imm o) w 0 i)

unfoldable pub dec_push_imm : ℕ → Width → Decoder Insn
dec_push_imm op w =
    if op == 0x68
    then (do i ← imm w; plain push_imm w 0 i)
    else (do i ← imm w8; plain push_imm w 0 (cut w (signed w8 i)))

unfoldable pub dec_imul3 : ℕ → Width → Decoder Insn
dec_imul3 op w = do
  m ← modrm
  if op == 0x69
      then (do i ← imm w; mk imul3 w m (extended w i))
      else (do i ← imm w8; mk imul3 w m (extended w8 i))

unfoldable pub dec_alu_imm : ℕ → Width → Decoder Insn
dec_alu_imm op w = do
  m ← modrm
  let h = alu_rm_imm (alu_op m.reg)
  if op == 0x80
      then (do i ← imm w8; mk h w8 m i)
      else if op == 0x81
      then (do i ← imm w; mk h w m i)
      else (do i ← imm w8; mk h w m (cut w (signed w8 i)))

unfoldable pub dec_moffs : ℕ → Width → Decoder Insn
dec_moffs op w = do
  a ← imm w32
  plain
      (if op == 0xA0
        then mov_al_moffs
        else if op == 0xA1
        then mov_ax_moffs
        else if op == 0xA2
        then mov_moffs_al
        else mov_moffs_ax)
      w 0 a

-- The string instructions A4 to AF but A8 and A9; the even codes work on bytes.
abbrev pub is_string : ℕ → Bool
is_string op = leb 0xA4 op && leb op 0xAF && not (op == 0xA8) && not (op == 0xA9)

abbrev pub string_op : ℕ → StringOp
string_op op =
    if op / 2 == 0x52
    then movs
    else if op / 2 == 0x53
    then cmps
    else if op / 2 == 0x55
    then stos
    else if op / 2 == 0x56
    then lods
    else scas

abbrev pub dec_string : ℕ → Rep → Width → Decoder Insn
dec_string op rep w = plain (string (string_op op) (op % 2 == 1) rep) w op 0

unfoldable pub dec_test_acc_imm : ℕ → Width → Decoder Insn
dec_test_acc_imm op w = do i ← imm (by_parity op w); on_reg test_rm_imm (by_parity op w) 0 i

-- The number of the operation stands in the operand byte; 2 and 3 are not implemented.
abbrev pub shift_kind : ℕ → Option ShiftKind
shift_kind n =
    if n == 0
    then some rol
    else if n == 1
    then some ror
    else if n == 5
    then some shr
    else if n == 7
    then some sar
    else if n == 4 || n == 6
    then some shl
    else none

unfoldable pub dec_shift : ℕ → Width → Decoder Insn
dec_shift op w = do
  m ← modrm
  n ← (if op / 2 == 0x60 then imm w8 else unread 1)
  elim (shift_kind m.reg) [
    | none ↦ mk (bad 0xC1) (by_parity op w) m 0
    | some kind ↦
        if op / 2 == 0x69
        then mk (shift_cl kind) (by_parity op w) m 0
        else mk (shift_imm kind) (by_parity op w) m (n % 32)
  ]

unfoldable pub dec_mov_rm_imm : ℕ → Width → Decoder Insn
dec_mov_rm_imm op w = do m ← modrm; i ← imm (by_parity op w); mk mov_rm_imm (by_parity op w) m i

unfoldable pub dec_enter : Decoder Insn
dec_enter = do size ← imm w16; level ← imm w8; plain enter w32 (level % 32) size

unfoldable pub dec_int : ℕ → Decoder Insn
dec_int op = if op == 0xCC then plain int w32 0 3 else do v ← imm w8; plain int w32 0 v

unfoldable pub dec_grp_f7 : ℕ → Width → Decoder Insn
dec_grp_f7 op w0 =
    let w = by_parity op w0 in
    do
      m ← modrm
      if m.reg == 0 || m.reg == 1
          then (do i ← imm w; mk test_rm_imm w m i)
          else if m.reg == 2
          then mk not_rm w m 0
          else if m.reg == 3
          then mk neg_rm w m 0
          else if m.reg == 4
          then mk mul w m 0
          else if m.reg == 5
          then mk imul w m 0
          else if m.reg == 6
          then mk div w m 0
          else mk idiv w m 0

unfoldable pub dec_grp_ff : ℕ → Width → Decoder Insn
dec_grp_ff op w0 =
    let w = by_parity op w0 in
    do
      m ← modrm
      if m.reg == 0
          then mk inc_rm w m 0
          else if m.reg == 1
          then mk dec_rm w m 0
          else if op == 0xFF && m.reg == 2
          then mk call_rm w32 m 0
          else if op == 0xFF && m.reg == 4
          then mk jmp_rm w32 m 0
          else if op == 0xFF && m.reg == 6
          then mk push_rm w m 0
          else mk (bad op) w m 0

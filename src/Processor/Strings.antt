-- ===== src/Processor/Strings.antt =====
-- The string instructions of cpu86.py (`_string_op_impl`).
use minixfs.Prelude.{
  ℕ, zero, suc, ◌+◌, ◌-◌, ◌*◌, Bool, true, false, not, ◌&&◌, ltb, leb, ◌==◌, if◌then◌else◌, [], ◌∷◌,
  ◌++◌, Bytes, u16_bytes, u32_bytes,
}
use minixfs.Processor.Flags.{Width, w8, w16, w32, bytes_of, Flags}
use minixfs.Processor.Alu.{sub_with}
use minixfs.Processor.Machine.{
  Regs, Prog, get, load_bytes, store_bytes, ◌>>=◌, ◌>>◌, return, Done, StringOp, movs, cmps, stos,
  lods, scas, Rep, no_rep, repe, repne,
}
use minixfs.Processor.Operands.{
  word, reg32, read_reg, write_reg, set_flags, the_flags, load_at, store_at,
}

abbrev ecx : ℕ
ecx = 1

abbrev esi : ℕ
esi = 6

abbrev edi : ℕ
edi = 7

abbrev pub to_bytes : Width → ℕ → Bytes
to_bytes w8 v = v ∷ []
to_bytes w16 v = u16_bytes v
to_bytes w32 v = u32_bytes v

unfoldable pub repeated : ℕ → Bytes → Bytes
repeated zero d = []
repeated (suc n) d = d ++ repeated n d

-- An index register moves by the size, up or down.
unfoldable pub advance : ℕ → Width → Bool → Prog Done
advance i w back = do
  a ← read_reg i w32
  write_reg i w32 (if back then a + word - bytes_of w else a + bytes_of w)

unfoldable pub compare_flags : Width → ℕ → ℕ → Prog Done
unfolding sub_with
compare_flags w a b = do f ← the_flags; set_flags (sub_with w a b 0 f).1

-- One element.
unfoldable pub element : StringOp → Width → Bool → Prog Done
unfolding advance compare_flags
element movs w back = do
  a ← read_reg esi w32
  v ← load_at w a
  b ← read_reg edi w32
  store_at w b v
  advance esi w back
  advance edi w back
element stos w back = do b ← read_reg edi w32; v ← read_reg 0 w; store_at w b v; advance edi w back
element lods w back = do a ← read_reg esi w32; v ← load_at w a; write_reg 0 w v; advance esi w back
element cmps w back = do
  a ← read_reg esi w32
  x ← load_at w a
  b ← read_reg edi w32
  y ← load_at w b
  compare_flags w x y
  advance esi w back
  advance edi w back
element scas w back = do
  x ← read_reg 0 w
  b ← read_reg edi w32
  y ← load_at w b
  compare_flags w x y
  advance edi w back

abbrev pub compares : StringOp → Bool
compares cmps = true
compares scas = true
compares _ = false

-- Whether the prefix ends the loop at these flags.
abbrev pub ends : StringOp → Rep → Flags → Bool
ends op no_rep f = false
ends op repe f = compares op && not f.zf
ends op repne f = compares op && f.zf

-- The loop, with the number of elements that are left.
unfoldable pub elements : StringOp → Rep → Width → Bool → ℕ → Prog Done
unfolding element
elements op rep w back zero = return tt
elements op no_rep w back (suc n) = do element op w back; elements op no_rep w back n
elements op rep w back (suc n) = do
  element op w back
  write_reg ecx w32 n
  f ← the_flags
  if ends op rep f then return tt else elements op rep w back n

abbrev pub distance : ℕ → ℕ → ℕ
distance a b = if leb a b then b - a else a - b

-- The forms of `movs` and `stos` that go by one block.
unfoldable pub move_block : ℕ → ℕ → ℕ → Prog Done
move_block src dst n = do
  d ← load_bytes src n return
  store_bytes dst d (return tt)
  write_reg esi w32 (src + n)
  write_reg edi w32 (dst + n)
  write_reg ecx w32 0

unfoldable pub fill_block : Width → ℕ → ℕ → Prog Done
unfolding repeated
fill_block w dst count = do
  v ← read_reg 0 w
  store_bytes dst (repeated count (to_bytes w v)) (return tt)
  write_reg edi w32 (dst + count * bytes_of w)
  write_reg ecx w32 0

-- A repeated string instruction of `count` elements, not none.
unfoldable pub repeat_string : StringOp → Rep → Width → Regs → ℕ → Prog Done
unfolding elements move_block fill_block
repeat_string movs rep w r count =
    if not r.flags.df
      && ltb 1 count
      && leb (count * bytes_of w) (distance (reg32 r esi) (reg32 r edi))
    then move_block (reg32 r esi) (reg32 r edi) (count * bytes_of w)
    else elements movs rep w r.flags.df count
repeat_string stos rep w r count =
    if not r.flags.df && ltb 1 count
    then fill_block w (reg32 r edi) count
    else elements stos rep w r.flags.df count
repeat_string op rep w r count = elements op rep w r.flags.df count

unfoldable pub h_string : StringOp → Rep → Width → Prog Done
unfolding repeat_string
h_string op no_rep w = get (λ r. elements op no_rep w r.flags.df 1)
h_string op rep w =
    get (λ r. if reg32 r ecx == 0 then return tt else repeat_string op rep w r (reg32 r ecx))

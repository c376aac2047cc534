-- ===== src/Processor/Operands.antt =====
-- Registers, operands and the stack in cpu86.py.
use minixfs.Prelude.{
  ℕ, ◌+◌, ◌-◌, ◌*◌, ◌/◌, ◌%◌, ◌^◌, Option, none, some, ltb, if◌then◌else◌, get_or, set,
}
use minixfs.Processor.Flags.{Width, w8, w16, w32, bytes_of, Flags}
use minixfs.Processor.Machine.{Insn, Regs, Prog, get, put, load, store, ◌>>=◌, ◌>>◌, return, Done}

abbrev pub word : ℕ
word = 0x100000000

-- ---- registers ----

abbrev pub reg32 : Regs → ℕ → ℕ
reg32 r i = get_or r.regs i 0

abbrev pub with_reg : Regs → ℕ → ℕ → Regs
with_reg r i v = record r { regs = set r.regs i v }

-- `_read_reg`, with `get_reg8` and `get_reg16`: the numbers 4 to 7 of 8 bits are the second bytes.
unfoldable pub reg_of : Width → Regs → ℕ → ℕ
reg_of w8 r i = if ltb i 4 then reg32 r i % 256 else reg32 r (i - 4) / 256 % 256
reg_of w16 r i = reg32 r i % 0x10000
reg_of w32 r i = reg32 r i

-- `_write_reg`, with `set_reg8` and `set_reg16`.
unfoldable pub reg_with : Width → Regs → ℕ → ℕ → Regs
reg_with w8 r i v =
    if ltb i 4
    then with_reg r i (reg32 r i / 256 * 256 + v % 256)
    else with_reg r (i - 4)
        (reg32 r (i - 4) / 0x10000 * 0x10000 + v % 256 * 256 + reg32 r (i - 4) % 256)
reg_with w16 r i v = with_reg r i (reg32 r i / 0x10000 * 0x10000 + v % 0x10000)
reg_with w32 r i v = with_reg r i (v % word)

unfoldable pub read_reg : ℕ → Width → Prog ℕ
unfolding reg_of
read_reg i w = get (λ r. return (reg_of w r i))

unfoldable pub write_reg : ℕ → Width → ℕ → Prog Done
unfolding reg_with
write_reg i w v = get (λ r. put (reg_with w r i v) (return tt))

abbrev pub set_flags : Flags → Prog Done
set_flags f = get (λ r. put (record r { flags = f }) (return tt))

abbrev pub the_flags : Prog Flags
the_flags = get (λ r. return r.flags)

abbrev pub the_eip : Prog ℕ
the_eip = get (λ r. return r.eip)

abbrev pub jump : ℕ → Prog Done
jump a = get (λ r. put (record r { eip = a }) (return tt))

-- ---- operands ----

abbrev pub or_zero : Regs → Option ℕ → ℕ → ℕ
or_zero r none k = 0
or_zero r (some i) k = reg32 r i * 2 ^ k

-- `_ea_of` of an operand in memory, which the three forms of `_EA_EXPR` compute too.
unfoldable pub ea_of : Insn → Regs → ℕ
ea_of e r = (e.disp + or_zero r e.base 0 + or_zero r e.index e.scale) % word

-- `e[4]` of an operand in a register.
abbrev pub rm_reg : Insn → ℕ
rm_reg e = elim e.base [ none ↦ 0 | some i ↦ i ]

abbrev pub ea : Insn → Prog ℕ
ea e = get (λ r. return (ea_of e r))

abbrev pub load_at : Width → ℕ → Prog ℕ
load_at w a = load w a return

abbrev pub store_at : Width → ℕ → ℕ → Prog Done
store_at w a v = store w a v (return tt)

-- `_read_rm` and `_write_rm`, where the address is computed at once.
unfoldable pub read_rm_at : Insn → Width → ℕ → Prog ℕ
read_rm_at e w a = if e.in_register then read_reg (rm_reg e) w else load_at w a

unfoldable pub write_rm_at : Insn → Width → ℕ → ℕ → Prog Done
write_rm_at e w a v = if e.in_register then write_reg (rm_reg e) w v else store_at w a v

-- The operand of an instruction that reads it only.
unfoldable pub read_rm : Insn → Width → Prog ℕ
unfolding ea_of read_rm_at
read_rm e w = do a ← ea e; read_rm_at e w a

-- ---- the stack ----

abbrev pub esp : ℕ
esp = 4

abbrev pub ebp : ℕ
ebp = 5

-- `push32` and `push16`, `pop32` and `pop16`: the pointer moves once the memory has answered.
unfoldable pub push : Width → ℕ → Prog Done
push w v = do
  r ← get return
  let sp = (reg32 r esp + word - bytes_of w) % word
  store_at w sp v
  get (λ r'. put (with_reg r' esp sp) (return tt))

unfoldable pub pop : Width → Prog ℕ
pop w = do
  r ← get return
  v ← load_at w (reg32 r esp)
  get (λ r'. put (with_reg r' esp ((reg32 r esp + bytes_of w) % word)) (return v))

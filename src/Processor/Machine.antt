-- ===== src/Processor/Machine.antt =====
-- Decoded instructions of cpu86.py, and the steps that their handlers take.
-- A handler reads and writes the registers and the memory, raises, or calls `on_int`; the value of a
-- `Prog` is such a course of steps, and `run_prog` takes it on a machine.
use minixfs.Prelude.{ℕ, Bool, Option, List, Bytes, Result, ok, err}
use minixfs.Memory as Memory
use minixfs.Memory.{AddressSpace, SegFault}
use minixfs.Processor.Flags.{Width, w8, w16, w32, Flags}
use minixfs.Processor.Alu.{AluOp, ShiftKind}

-- The string instructions, their prefixes, the loops E0 to E3, and what `bt` does to the bit.
pub data StringOp : Type 0 where
  movs cmps stos lods scas : StringOp

pub data Rep : Type 0 where
  no_rep repe repne : Rep

pub data LoopKind : Type 0 where
  loopne loope loop_always jecxz : LoopKind

pub data BitOp : Type 0 where
  test_bit set_bit reset_bit flip_bit : BitOp

-- The handlers, with what the source keeps of them in the tables of variants. A code that no handler
-- serves stands in `bad`, with the number that the error names.
pub data Handler : Type 0 where
  alu_rm_r alu_r_rm alu_rm_imm : AluOp → Handler
  test_rm_r test_rm_imm mov_rm_r mov_r_rm mov_rm_imm xchg inc_rm dec_rm not_rm neg_rm : Handler
  shift_imm shift_cl : ShiftKind → Handler
  setcc jcc : (code : ℕ) → Handler
  movx : (sign_extend : Bool) → (to : Width) → Handler
  lea call_rm jmp_rm push_rm : Handler
  nop hlt int push_r pop_r push_imm mov_r_imm call_rel jmp ret ret_n leave enter : Handler
  xchg_eax cbw cwd pushf popf sahf lahf xlat : Handler
  mov_al_moffs mov_ax_moffs mov_moffs_al mov_moffs_ax : Handler
  string : StringOp → (wide : Bool) → Rep → Handler
  loop : LoopKind → Handler
  clc stc cld std imul3 imul2 : Handler
  mul imul div idiv : Handler
  pop_rm bsf bsr : Handler
  bt_r bt_i : BitOp → Handler
  shld shrd : (by_cl : Bool) → Handler
  bad : (op : ℕ) → Handler

-- The tuple `e`; a displacement or an immediate is kept as a word of 32 bits, since every use cuts it.
-- `in_register` is `mod == 3`.
pub record Insn : Type 0 where
  pub handler : Handler
  pub len : ℕ
  pub size : Width
  pub reg : ℕ
  pub base : Option ℕ
  pub index : Option ℕ
  pub scale : ℕ
  pub disp : ℕ
  pub imm : ℕ
  pub in_register : Bool

-- The processor without its memory.
pub record Regs : Type 0 where
  pub regs : List ℕ
  pub eip : ℕ
  pub flags : Flags
  pub halted : Bool

-- What ends an instruction early: a fault, a division that fails, an instruction that is not
-- implemented (its number and its start), `_Halt`, a jump to the addresses of the kernel, an
-- error of Python itself, and the exceptions that the callbacks raise, by a number.
pub data Stop : Type 0 where
  fault : SegFault → Stop
  divide : Stop
  cpu_error : (op start : ℕ) → Stop
  halt : Stop
  magic : ℕ → Stop
  python_error : Stop
  from_kernel : ℕ → Stop

pub data Prog (A : Type 0) : Type 0 where
  ret_val : A → Prog A
  stop : Stop → Prog A
  get : (Regs → Prog A) → Prog A
  put : Regs → Prog A → Prog A
  load : Width → ℕ → (ℕ → Prog A) → Prog A
  store : Width → ℕ → ℕ → Prog A → Prog A
  load_bytes : ℕ → ℕ → (Bytes → Prog A) → Prog A
  store_bytes : ℕ → Bytes → Prog A → Prog A
  interrupt : ℕ → Prog A → Prog A

module _ {A B : Type 0} where
  infixl 6 ◌>>=◌
  abbrev pub ◌>>=◌ : Prog A → (A → Prog B) → Prog B
  ret_val a >>= f = f a
  stop x >>= f = stop x
  get k >>= f = get (λ r. k r >>= f)
  put r p >>= f = put r (p >>= f)
  load w a k >>= f = load w a (λ v. k v >>= f)
  store w a v p >>= f = store w a v (p >>= f)
  load_bytes a n k >>= f = load_bytes a n (λ d. k d >>= f)
  store_bytes a d p >>= f = store_bytes a d (p >>= f)
  interrupt v p >>= f = interrupt v (p >>= f)

  infixl 6 ◌>>◌
  abbrev pub ◌>>◌ : Prog A → Prog B → Prog B
  p >> q = p >>= λ _. q

abbrev pub return : {A : Type 0} → A → Prog A
return a = ret_val a

abbrev pub Done : Type 0
Done = Unit {0}

abbrev pub Mem : Type 0
Mem = AddressSpace Insn

-- `read_u8`, `read_u16`, `read_u32` and the stores, by the width.
abbrev pub read_word : Width → Mem → ℕ → Result SegFault ℕ
read_word w8 s a = Memory.read_u8 s a
read_word w16 s a = Memory.read_u16 s a
read_word w32 s a = Memory.read_u32 s a

abbrev pub write_word : Width → Mem → ℕ → ℕ → Mem × Result SegFault Done
write_word w8 s a v = Memory.write_u8 s a v
write_word w16 s a v = Memory.write_u16 s a v
write_word w32 s a v = Memory.write_u32 s a v

-- What `on_int` does, with a state of its own: it may change the registers, the memory and that state,
-- and raise.
abbrev pub OnInt : Type 0 → Type 0
OnInt W = ℕ → Regs → Mem → W → Result Stop Done × Regs × Mem × W

module _ {W : Type 0} (on_int : OnInt W) {A : Type 0} where
  unfoldable pub run_prog : Prog A → Regs → Mem → W → Result Stop A × Regs × Mem × W
  run_prog (ret_val a) r s t = (ok a, r, s, t)
  run_prog (stop x) r s t = (err x, r, s, t)
  run_prog (get k) r s t = run_prog (k r) r s t
  run_prog (put r' p) r s t = run_prog p r' s t
  run_prog (load w a k) r s t = elim (read_word w s a) [
    | ok v ↦ run_prog (k v) r s t
    | err e ↦ (err (fault e), r, s, t)
  ]
  run_prog (store w a v p) r s t = elim (write_word w s a v).1 [
    | ok _ ↦ run_prog p r (write_word w s a v).0 t
    | err e ↦ (err (fault e), r, (write_word w s a v).0, t)
  ]
  run_prog (load_bytes a n k) r s t = elim (Memory.read s a n) [
    | ok d ↦ run_prog (k d) r s t
    | err e ↦ (err (fault e), r, s, t)
  ]
  run_prog (store_bytes a d p) r s t = elim (Memory.write s a d).1 [
    | ok _ ↦ run_prog p r (Memory.write s a d).0 t
    | err e ↦ (err (fault e), r, (Memory.write s a d).0, t)
  ]
  run_prog (interrupt v p) r s t =
      let (x, r', s', t') = on_int v r s t in
      elim x [ ok _ ↦ run_prog p r' s' t' | err e ↦ (err e, r', s', t') ]

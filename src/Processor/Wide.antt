-- ===== src/Processor/Wide.antt =====
-- The handlers of cpu86.py that multiply, divide and work on single bits.
use minixfs.Prelude.{
  ℕ, zero, suc, ◌+◌, ◌-◌, ◌*◌, ◌/◌, ◌%◌, ◌^◌, Bool, true, false, not, none, some, ltb, ◌==◌,
  if◌then◌else◌, ℤ, pos, negsuc, ◌*ℤ◌,
}
use minixfs.Processor.Flags.{
  Width, w8, w16, w32, modulus, half, bits, bytes_of, signed, cut, flag_at,
}
use minixfs.Processor.Alu.{
  product_flags, fits, div_unsigned, div_signed, double_shift, result_flags,
}
use minixfs.Processor.Machine.{
  Insn, Prog, stop, ◌>>=◌, ◌>>◌, return, Done, divide, python_error, BitOp, test_bit, set_bit,
  reset_bit, flip_bit,
}
use minixfs.Processor.Operands.{
  word, read_reg, write_reg, set_flags, the_flags, ea, read_rm_at, write_rm_at, read_rm,
}

-- A word of twice the width as an integer, and back.
abbrev pub signed_double : Width → ℕ → ℤ
signed_double w n =
    if ltb n (modulus w * half w) then pos n else negsuc (modulus w * modulus w - n - 1)

abbrev pub cut_double : Width → ℤ → ℕ
cut_double w (pos n) = n % (modulus w * modulus w)
cut_double w (negsuc n) = modulus w * modulus w - 1 - n % (modulus w * modulus w)

-- The accumulator of twice the width: `ax`, or `edx` above `eax`.
unfoldable pub read_double : Width → Prog ℕ
read_double w8 = read_reg 0 w16
read_double w = do hi ← read_reg 2 w; lo ← read_reg 0 w; return (hi * modulus w + lo)

unfoldable pub write_double : Width → ℕ → Prog Done
write_double w8 n = write_reg 0 w16 n
write_double w n = do write_reg 0 w (n % modulus w); write_reg 2 w (n / modulus w)

-- The quotient and the remainder: `al` and `ah`, or `eax` and `edx`.
unfoldable pub write_division : Width → ℕ → ℕ → Prog Done
write_division w8 q r = do write_reg 0 w8 q; write_reg 4 w8 r
write_division w q r = do write_reg 0 w q; write_reg 2 w r

unfoldable pub h_mul : Insn → Prog Done
unfolding write_double
h_mul e = do
  b ← read_rm e e.size
  a ← read_reg 0 e.size
  let n = a * b
  write_double e.size n
  f ← the_flags
  set_flags (product_flags e.size (n % modulus e.size) (not (n / modulus e.size == 0)) f)

unfoldable pub h_imul : Insn → Prog Done
unfolding write_double
h_imul e = do
  b ← read_rm e e.size
  a ← read_reg 0 e.size
  let z = signed e.size a *ℤ signed e.size b
  write_double e.size (cut_double e.size z)
  f ← the_flags
  set_flags (product_flags e.size (cut e.size z) (not (fits e.size z)) f)

unfoldable pub h_div : Insn → Prog Done
unfolding read_double write_division div_unsigned
h_div e = do
  b ← read_rm e e.size
  n ← read_double e.size
  elim (div_unsigned e.size n b) [ none ↦ stop divide | some (q, r) ↦ write_division e.size q r ]

unfoldable pub h_idiv : Insn → Prog Done
unfolding read_double write_division div_signed
h_idiv e = do
  b ← read_rm e e.size
  n ← read_double e.size
  elim (div_signed e.size (signed_double e.size n) b) [
    | none ↦ stop divide
    | some (q, r) ↦ write_division e.size (cut e.size q) (cut e.size r)
  ]

-- `_h_imul2` and `_h_imul3`, from the factors on.
unfoldable pub multiply_into : Insn → ℤ → Prog Done
multiply_into e z = do
  write_reg e.reg e.size (cut e.size z)
  f ← the_flags
  set_flags (product_flags e.size (cut e.size z) (not (fits e.size z)) f)

unfoldable pub h_imul2 : Insn → Prog Done
unfolding multiply_into
h_imul2 e = do
  a ← read_reg e.reg e.size
  b ← read_rm e e.size
  multiply_into e (signed e.size a *ℤ signed e.size b)

unfoldable pub h_imul3 : Insn → Prog Done
unfolding multiply_into
h_imul3 e = do a ← read_rm e e.size; multiply_into e (signed e.size a *ℤ signed w32 e.imm)

-- ---- single bits ----

abbrev pub changed_bit : BitOp → ℕ → ℕ → ℕ
changed_bit test_bit v k = v
changed_bit set_bit v k = if flag_at v k then v else v + 2 ^ k
changed_bit reset_bit v k = if flag_at v k then v - 2 ^ k else v
changed_bit flip_bit v k = if flag_at v k then v - 2 ^ k else v + 2 ^ k

abbrev pub writes_bit : BitOp → Bool
writes_bit test_bit = false
writes_bit _ = true

-- `_bt_impl`: in memory, the number of the bit selects the word too.
unfoldable pub h_bt : BitOp → ℕ → Insn → Prog Done
h_bt op n e = do
  base ← ea e
  let x = (base + n / bits e.size * bytes_of e.size) % word
  let k = n % bits e.size
  v ← read_rm_at e e.size x
  f ← the_flags
  set_flags (record f { cf = flag_at v k })
  if writes_bit op then write_rm_at e e.size x (changed_bit op v k) else return tt

unfoldable pub h_bt_r : BitOp → Insn → Prog Done
unfolding h_bt
h_bt_r op e = do n ← read_reg e.reg e.size; h_bt op n e

-- The numbers of the lowest and of the highest one among `n` bits.
unfoldable pub lowest_one : ℕ → ℕ → ℕ
lowest_one zero v = 0
lowest_one (suc n) v = let rest = lowest_one n (v / 2) in if v % 2 == 1 then 0 else rest + 1

unfoldable pub highest_one : ℕ → ℕ → ℕ
highest_one zero v = 0
highest_one (suc n) v = let rest = highest_one n (v / 2) in if v / 2 == 0 then 0 else rest + 1

unfoldable pub h_bit_scan : (ℕ → ℕ) → Insn → Prog Done
h_bit_scan find e = do
  v ← read_rm e e.size
  f ← the_flags
  if v == 0
      then set_flags (record f { zf = true })
      else (do set_flags (record f { zf = false }); write_reg e.reg e.size (find v))

unfoldable pub h_bsf : Insn → Prog Done
unfolding h_bit_scan lowest_one
h_bsf e = h_bit_scan (lowest_one 32) e

unfoldable pub h_bsr : Insn → Prog Done
unfolding h_bit_scan highest_one
h_bsr e = h_bit_scan (highest_one 32) e

-- `_h_shd`, to the left or to the right.
unfoldable pub h_shd : Bool → ℕ → Insn → Prog Done
unfolding double_shift
h_shd left n e = do
  x ← ea e
  dst ← read_rm_at e e.size x
  src ← read_reg e.reg e.size
  if n % 32 == 0 then return tt else elim (double_shift left e.size dst src (n % 32)) [
    | none ↦ stop python_error
    | some (res, c) ↦ do
      write_rm_at e e.size x res
      f ← the_flags
      set_flags (record (result_flags e.size res f) { cf = c })
  ]

unfoldable pub h_shd_by : Bool → Bool → Insn → Prog Done
unfolding h_shd
h_shd_by left true e = do n ← read_reg 1 w8; h_shd left n e
h_shd_by left false e = h_shd left e.imm e

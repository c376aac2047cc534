-- ===== src/Processor/Alu.antt =====
-- The arithmetic of cpu86.py: results and flags at 8, 16 and 32 bits.
use minixfs.Prelude.{
  ℕ, zero, suc, ◌+◌, ◌-◌, ◌*◌, ◌/◌, ◌%◌, ◌^◌, Bool, true, false, not, ◌&&◌, Option, none, some, ltb,
  leb, ◌==◌, if◌then◌else◌, ℤ, pos, negsuc, ◌-ℤ◌, ◌*ℤ◌,
}
use Prim.Native.Nat.{bit_and, bit_or, bit_xor}
use minixfs.Processor.Flags.{
  Width, modulus, half, bits, msb, signed, Flags, bit, flag_at, parity_of, parity, differ,
}

-- The flags that follow from the result alone, where the others are cleared.
abbrev pub result_flags : Width → ℕ → Flags → Flags
result_flags w t f = record {
  cf = false;
  pf = parity t;
  af = false;
  zf = t == 0;
  sf = msb w t;
  df = f.df;
  of = false;
}

unfoldable pub add_with : Width → ℕ → ℕ → ℕ → Flags → ℕ × Flags
unfolding parity_of
add_with w a b c f =
    let t = (a + b + c) % modulus w in
    (
      t,
      record (result_flags w t f) {
        cf = leb (modulus w) (a + b + c);
        of = not (differ (msb w a) (msb w b)) && differ (msb w a) (msb w t);
        af = ltb 15 (a % 16 + b % 16 + c);
      },
    )

-- `a - b - c`, cut to the width.
unfoldable pub sub_with : Width → ℕ → ℕ → ℕ → Flags → ℕ × Flags
unfolding parity_of
sub_with w a b c f =
    let t = (a + modulus w - b - c) % modulus w in
    (
      t,
      record (result_flags w t f) {
        cf = ltb a (b + c);
        of = differ (msb w a) (msb w b) && differ (msb w a) (msb w t);
        af = ltb (a % 16) (b % 16 + c);
      },
    )

pub data AluOp : Type 0 where
  add or adc sbb and sub xor cmp : AluOp

-- `_alu_body`
unfoldable pub alu : AluOp → Width → ℕ → ℕ → Flags → ℕ × Flags
unfolding add_with sub_with
alu add w a b f = add_with w a b 0 f
alu or w a b f = (bit_or a b, result_flags w (bit_or a b) f)
alu adc w a b f = add_with w a b (bit f.cf) f
alu sbb w a b f = sub_with w a b (bit f.cf) f
alu and w a b f = (bit_and a b, result_flags w (bit_and a b) f)
alu sub w a b f = sub_with w a b 0 f
alu xor w a b f = (bit_xor a b, result_flags w (bit_xor a b) f)
alu cmp w a b f = sub_with w a b 0 f

-- `_INC_BODY` and `_DEC_BODY`, which leave the carry.
unfoldable pub inc : Width → ℕ → Flags → ℕ × Flags
unfolding add_with
inc w a f = let (t, f') = add_with w a 1 0 f in (t, record f' { cf = f.cf })

unfoldable pub dec : Width → ℕ → Flags → ℕ × Flags
unfolding sub_with
dec w a f = let (t, f') = sub_with w a 1 0 f in (t, record f' { cf = f.cf })

-- ---- shifts ----

pub data ShiftKind : Type 0 where
  rol ror shl shr sar : ShiftKind

pub record Shifted : Type 0 where
  pub result : ℕ
  pub carry : Bool
  pub over : Bool

-- `sv >> k` of the signed value, cut to the width.
abbrev pub shift_signed : Width → ℕ → ℕ → ℕ
shift_signed w a k = if msb w a then modulus w - 1 - (modulus w - 1 - a) / 2 ^ k else a / 2 ^ k

-- `_shift_body`, for a count from 1 to 31.
unfoldable pub shift_body : ShiftKind → Width → ℕ → ℕ → Shifted
shift_body shl w a n =
    let wide = a * 2 ^ n in
    let c = flag_at wide (bits w) in
    record { result = wide % modulus w; carry = c; over = differ (msb w (wide % modulus w)) c }
shift_body shr w a n = record {
  result = a / 2 ^ n;
  carry = if leb n (bits w) then flag_at a (n - 1) else false;
  over = if n == 1 then msb w a else false;
}
shift_body sar w a n = record {
  result = shift_signed w a n;
  carry = shift_signed w a (n - 1) % 2 == 1;
  over = false;
}
shift_body rol w a n =
    let c = n % bits w in
    let r = if c == 0 then a else bit_or (a * 2 ^ c) (a / 2 ^ (bits w - c)) % modulus w in
    record { result = r; carry = r % 2 == 1; over = differ (msb w r) (r % 2 == 1) }
shift_body ror w a n =
    let c = n % bits w in
    let r = if c == 0 then a else bit_or (a / 2 ^ c) (a * 2 ^ (bits w - c)) % modulus w in
    record { result = r; carry = msb w r; over = differ (msb w r) (flag_at r (bits w - 2)) }

-- `_shift_flags`: a rotation changes the carry and the overflow only.
unfoldable pub shift_flags : ShiftKind → Width → ℕ → Shifted → Flags → Flags
unfolding parity_of
shift_flags rol w n r f = record f { cf = r.carry; of = r.over }
shift_flags ror w n r f = record f { cf = r.carry; of = r.over }
shift_flags shl w n r f = record (result_flags w r.result f) { cf = r.carry; of = r.over && n == 1 }
shift_flags shr w n r f = record (result_flags w r.result f) { cf = r.carry; of = r.over && n == 1 }
shift_flags sar w n r f = record (result_flags w r.result f) { cf = r.carry; of = r.over && n == 1 }

-- The part of `_h_shd` between the operands and the result, for a count from 1 to 31. To the left, a
-- count above the width shifts by a negative number, which Python refuses.
unfoldable pub double_shift : Bool → Width → ℕ → ℕ → ℕ → Option (ℕ × Bool)
double_shift true w dst src n =
    let wide = dst * modulus w + src in
    if leb n (bits w)
    then some (wide * 2 ^ n / modulus w % modulus w, flag_at dst (bits w - n))
    else none
double_shift false w dst src n =
    let wide = src * modulus w + dst in some (wide / 2 ^ n % modulus w, flag_at dst (n - 1))

-- ---- multiplication and division ----

-- The product, whether its upper half matters, and the flags.
abbrev pub product_flags : Width → ℕ → Bool → Flags → Flags
product_flags w low wide f = record (result_flags w low f) { cf = wide; of = wide }

abbrev pub fits : Width → ℤ → Bool
fits w (pos n) = ltb n (half w)
fits w (negsuc n) = ltb n (half w)

-- `_trunc_divmod`: the quotient is rounded towards zero.
abbrev pub magnitude : ℤ → ℕ
magnitude (pos n) = n
magnitude (negsuc n) = suc n

abbrev pub is_negative : ℤ → Bool
is_negative (pos n) = false
is_negative (negsuc n) = true

abbrev pub negate : ℕ → ℤ
negate zero = pos 0
negate (suc n) = negsuc n

unfoldable pub trunc_divmod : ℤ → ℤ → ℤ × ℤ
trunc_divmod a b =
    let n = magnitude a / magnitude b in
    let q = if differ (is_negative a) (is_negative b) then negate n else pos n in (q, a -ℤ q *ℤ b)

-- The quotient and the remainder, or none where the source raises: `num` is the dividend.
unfoldable pub div_unsigned : Width → ℕ → ℕ → Option (ℕ × ℕ)
div_unsigned w num src =
    if src == 0
    then none
    else if ltb (num / src) (modulus w)
    then some (num / src, num % src)
    else none

unfoldable pub div_signed : Width → ℤ → ℕ → Option (ℤ × ℤ)
unfolding trunc_divmod
div_signed w num src =
    let (q, r) = trunc_divmod num (signed w src) in
    if src == 0 then none else if fits w q then some (q, r) else none

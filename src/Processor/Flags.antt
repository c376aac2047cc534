-- ===== src/Processor/Flags.antt =====
-- The flags of cpu86.py, widths of operands, and the condition codes.
-- A flags word has the bit 1 and IF always set and no other bits than these seven, so the seven are
-- kept. Bit tests are written as division and remainder.
use minixfs.Prelude.{
  ℕ, zero, suc, ◌+◌, ◌-◌, ◌*◌, ◌/◌, ◌%◌, ◌^◌, Bool, true, false, not, ◌||◌, ltb, leb, ◌==◌,
  if◌then◌else◌, ℤ, pos, negsuc,
}

-- The sizes 1, 2 and 4 of an operand.
pub data Width : Type 0 where
  w8 w16 w32 : Width

abbrev pub bytes_of : Width → ℕ
bytes_of w8 = 1
bytes_of w16 = 2
bytes_of w32 = 4

-- `_MASK` plus one, and `_SIGN`.
abbrev pub modulus : Width → ℕ
modulus w8 = 0x100
modulus w16 = 0x10000
modulus w32 = 0x100000000

abbrev pub half : Width → ℕ
half w8 = 0x80
half w16 = 0x8000
half w32 = 0x80000000

abbrev pub bits : Width → ℕ
bits w8 = 8
bits w16 = 16
bits w32 = 32

-- `a & SIGN`
abbrev pub msb : Width → ℕ → Bool
msb w a = leb (half w) a

-- `_sx8`, `_sx16` and `_sx32`, and the word that an integer is cut to.
abbrev pub signed : Width → ℕ → ℤ
signed w a = if ltb a (half w) then pos a else negsuc (modulus w - a - 1)

abbrev pub cut : Width → ℤ → ℕ
cut w (pos n) = n % modulus w
cut w (negsuc n) = modulus w - 1 - n % modulus w

pub record Flags : Type 0 where
  pub cf : Bool
  pub pf : Bool
  pub af : Bool
  pub zf : Bool
  pub sf : Bool
  pub df : Bool
  pub of : Bool

abbrev pub bit : Bool → ℕ
bit false = 0
bit true = 1

-- `EFLAGS_BASE` with the flags that are set.
abbrev pub eflags_base : ℕ
eflags_base = 0x202

abbrev pub flags_word : Flags → ℕ
flags_word f =
    eflags_base
    + bit f.cf
    + 4 * bit f.pf
    + 16 * bit f.af
    + 64 * bit f.zf
    + 128 * bit f.sf
    + 1024 * bit f.df
    + 2048 * bit f.of

abbrev pub flag_at : ℕ → ℕ → Bool
flag_at n k = n / 2 ^ k % 2 == 1

-- The setter of `eflags`.
abbrev pub flags_of : ℕ → Flags
flags_of n = record {
  cf = flag_at n 0;
  pf = flag_at n 2;
  af = flag_at n 4;
  zf = flag_at n 6;
  sf = flag_at n 7;
  df = flag_at n 10;
  of = flag_at n 11;
}

abbrev pub no_flags : Flags
no_flags = record {
  cf = false;
  pf = false;
  af = false;
  zf = false;
  sf = false;
  df = false;
  of = false;
}

-- `_PARITY`: whether the number of ones among `n` bits is even.
unfoldable pub parity_of : ℕ → ℕ → Bool
parity_of zero a = true
parity_of (suc n) a = let rest = parity_of n (a / 2) in if a % 2 == 1 then not rest else rest

abbrev pub parity : ℕ → Bool
parity a = parity_of 8 (a % 256)

-- Exclusive or, and the test that two bits differ.
abbrev pub differ : Bool → Bool → Bool
differ true b = not b
differ false b = b

-- `_COND_EXPR`: the even codes by their halves, of which the odd ones are the negations.
unfoldable pub even_cond : ℕ → Flags → Bool
even_cond k f =
    if k == 0
    then f.of
    else if k == 1
    then f.cf
    else if k == 2
    then f.zf
    else if k == 3
    then f.cf || f.zf
    else if k == 4
    then f.sf
    else if k == 5
    then f.pf
    else if k == 6
    then differ f.sf f.of
    else f.zf || differ f.sf f.of

unfoldable pub cond : ℕ → Flags → Bool
unfolding even_cond
cond code f = let even = even_cond (code / 2) f in if code % 2 == 1 then not even else even

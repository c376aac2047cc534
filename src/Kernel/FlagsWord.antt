-- ===== src/Kernel/FlagsWord.antt =====
-- The word of the flags, and the setter of `eflags` that kernel.py calls.
use minixfs.Prelude.{ℕ, ◌+◌, ◌*◌, ◌/◌, ◌%◌, ◌^◌, ◌≤◌, ◌<◌, ◌≡◌, Bool, true, false, ◌==◌, arith}
use minixfs.Processor.Flags.{Flags, flags_word, eflags_base, bit}
use minixfs.Kernel.Sigreturn.{eflags_set}

bit_test : (b : Bool) (n : ℕ) → n ≡ bit b → bit (n == 1) ≡ bit b
bit_test true n e = ground (arith, e)
bit_test false n e = ground (arith, e)

bit_small : (b : Bool) → bit b ≤ 1
bit_small true = omega arith
bit_small false = omega arith

-- The word of seven bits.
abbrev word_of : ℕ → ℕ → ℕ → ℕ → ℕ → ℕ → ℕ → ℕ
word_of c p a z s d o = eflags_base + c + 4 * p + 16 * a + 64 * z + 128 * s + 1024 * d + 2048 * o

-- It fits, and the bits are found in it.
word_of_lem :
    (c p a z s d o : ℕ)
    → c ≤ 1
    → p ≤ 1
    → a ≤ 1
    → z ≤ 1
    → s ≤ 1
    → d ≤ 1
    → o ≤ 1
    → (word_of c p a z s d o < 2 ^ 32)
      × (word_of c p a z s d o / 2 ^ 0 % 2 ≡ c)
      × (word_of c p a z s d o / 2 ^ 2 % 2 ≡ p)
      × (word_of c p a z s d o / 2 ^ 4 % 2 ≡ a)
      × (word_of c p a z s d o / 2 ^ 6 % 2 ≡ z)
      × (word_of c p a z s d o / 2 ^ 7 % 2 ≡ s)
      × (word_of c p a z s d o / 2 ^ 10 % 2 ≡ d)
      × (word_of c p a z s d o / 2 ^ 11 % 2 ≡ o)
word_of_lem c p a z s d o c1 p1 a1 z1 s1 d1 o1 = (
  omega (arith, c1, p1, a1, z1, s1, d1, o1),
  omega (arith, c1, p1, a1, z1, s1, d1, o1),
  omega (arith, c1, p1, a1, z1, s1, d1, o1),
  omega (arith, c1, p1, a1, z1, s1, d1, o1),
  omega (arith, c1, p1, a1, z1, s1, d1, o1),
  omega (arith, c1, p1, a1, z1, s1, d1, o1),
  omega (arith, c1, p1, a1, z1, s1, d1, o1),
  omega (arith, c1, p1, a1, z1, s1, d1, o1),
)

-- The word of the flags fits, and the setter leaves it as it is.
pub flags_word_lem :
    (f : Flags) → (flags_word f < 2 ^ 32) × (eflags_set (flags_word f) ≡ flags_word f)
flags_word_lem f =
    let (small, c, p, a, z, s, d, o) =
      word_of_lem (bit f.cf) (bit f.pf) (bit f.af) (bit f.zf) (bit f.sf) (bit f.df) (bit f.of)
        (bit_small f.cf) (bit_small f.pf) (bit_small f.af) (bit_small f.zf) (bit_small f.sf)
        (bit_small f.df) (bit_small f.of) in
    let n = flags_word f in
    (
      small,
      omega (
        arith,
        bit_test f.cf (n / 2 ^ 0 % 2) c,
        bit_test f.pf (n / 2 ^ 2 % 2) p,
        bit_test f.af (n / 2 ^ 4 % 2) a,
        bit_test f.zf (n / 2 ^ 6 % 2) z,
        bit_test f.sf (n / 2 ^ 7 % 2) s,
        bit_test f.df (n / 2 ^ 10 % 2) d,
        bit_test f.of (n / 2 ^ 11 % 2) o,
      ),
    )

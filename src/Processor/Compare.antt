-- ===== src/Processor/Compare.antt =====
-- What the flags of the arithmetic of cpu86.py tell, against numbers and integers.
use minixfs.Prelude.{
  ℕ, ◌+◌, ◌*◌, ◌/◌, ◌<◌, ◌≡◌, ◌↔◌, Bool, false, not, ltb, leb, ◌==◌, arith, pos, ◌+ℤ◌, ◌-ℤ◌, ltb_ℤ,
}
use minixfs.Processor.Flags.{Width, w8, w16, w32, modulus, signed, Flags, bit, cond}
use minixfs.Processor.Alu.{add_with, sub_with, alu, cmp}

cond_odd : (k : ℕ) (f : Flags) → cond (2 * k + 1) f ≡ not (cond (2 * k) f)
unfolding cond
cond_odd k f =
    let odd : (2 * k + 1) / 2 ≡ k = omega arith in
    let even : 2 * k / 2 ≡ k = omega arith in rw (odd, even) (ground arith)

-- After a comparison of two words, whatever the flags were, the codes `b`, `e` and `be` tell whether
-- the first is less than, equal to, or at most the second as numbers, `l` and `le` whether it is less
-- or at most as integers with a sign, and each odd code is the negation of the even one before it.
pub cond-cmp :
    (w : Width) (a b : ℕ) (f : Flags)
    → a < modulus w
    → b < modulus w
    → (cond 2 (alu cmp w a b f).1 ≡ ltb a b)
      × (cond 4 (alu cmp w a b f).1 ≡ (a == b))
      × (cond 6 (alu cmp w a b f).1 ≡ leb a b)
      × (cond 12 (alu cmp w a b f).1 ≡ ltb_ℤ (signed w a) (signed w b))
      × (cond 14 (alu cmp w a b f).1 ≡ not (ltb_ℤ (signed w b) (signed w a)))
      × ((k : ℕ) → cond (2 * k + 1) (alu cmp w a b f).1 ≡ not (cond (2 * k) (alu cmp w a b f).1))
unfolding alu cond sub_with
cond-cmp w8 a b f p q = (
  ground arith,
  ground arith,
  ground arith,
  ground arith,
  ground arith,
  λ k. cond_odd k (alu cmp w8 a b f).1,
)
cond-cmp w16 a b f p q = (
  ground arith,
  ground arith,
  ground arith,
  ground arith,
  ground arith,
  λ k. cond_odd k (alu cmp w16 a b f).1,
)
cond-cmp w32 a b f p q = (
  ground arith,
  ground arith,
  ground arith,
  ground arith,
  ground arith,
  λ k. cond_odd k (alu cmp w32 a b f).1,
)

-- A sum of two words and a carry: the result and the carry flag give the sum of the numbers, and the
-- result as an integer is the sum of the integers exactly where the overflow flag is clear. The zero
-- and the sign flag are those of the result.
pub add_with_lem :
    (w : Width) (a b : ℕ) (c : Bool) (f : Flags)
    → a < modulus w
    → b < modulus w
    → ((add_with w a b (bit c) f).0 + modulus w * bit (add_with w a b (bit c) f).1.cf
        ≡ a + b + bit c)
      × (((add_with w a b (bit c) f).1.of ≡ false)
          ↔ (signed w (add_with w a b (bit c) f).0 ≡ signed w a +ℤ signed w b +ℤ pos (bit c)))
unfolding add_with
add_with_lem w8 a b c f p q = (ground arith, (ground arith, ground arith))
add_with_lem w16 a b c f p q = (ground arith, (ground arith, ground arith))
add_with_lem w32 a b c f p q = (ground arith, (ground arith, ground arith))

pub sub_with_lem :
    (w : Width) (a b : ℕ) (c : Bool) (f : Flags)
    → a < modulus w
    → b < modulus w
    → ((sub_with w a b (bit c) f).0 + b + bit c
        ≡ a + modulus w * bit (sub_with w a b (bit c) f).1.cf)
      × (((sub_with w a b (bit c) f).1.of ≡ false)
          ↔ (signed w (sub_with w a b (bit c) f).0 ≡ signed w a -ℤ signed w b -ℤ pos (bit c)))
unfolding sub_with
sub_with_lem w8 a b c f p q = (ground arith, (ground arith, ground arith))
sub_with_lem w16 a b c f p q = (ground arith, (ground arith, ground arith))
sub_with_lem w32 a b c f p q = (ground arith, (ground arith, ground arith))

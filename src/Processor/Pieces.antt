-- ===== src/Processor/Pieces.antt =====
-- The bytes that the string instructions of cpu86.py store.
use minixfs.Prelude.{
  ℕ, zero, suc, ◌*◌, ◌%◌, ◌^◌, ◌<◌, ◌≡◌, refl, ap, length-append, length, Bytes, ◌++◌, [], ◌∷◌,
  arith, u16_bytes, u32_bytes,
}
use minixfs.Processor.Flags.{Width, w8, w16, w32, bytes_of, modulus}
use minixfs.Processor.Operands.{word}
use minixfs.Processor.Strings.{to_bytes, repeated}
use minixfs.Processor.Cached.Blank.{word_bytes}

-- What `stos` stores.
abbrev pub low_part : Width → ℕ → ℕ
low_part w8 a = a % 256
low_part w16 a = a % 0x10000
low_part w32 a = a

pub low_part_lem : (w : Width) (a : ℕ) → a < word → low_part w a < modulus w
low_part_lem w8 a p = omega arith
low_part_lem w16 a p = omega arith
low_part_lem w32 a p = p

pub length-to_bytes : (w : Width) (v : ℕ) → length (to_bytes w v) ≡ bytes_of w
length-to_bytes w8 v = refl
length-to_bytes w16 v = refl
length-to_bytes w32 v = refl

pub word_bytes_lem : (w : Width) (v : ℕ) → v < modulus w → word_bytes w v ≡ to_bytes w v
word_bytes_lem w8 v p = ap (λ k. k ∷ []) {x = v % 256} {y = v} (omega arith)
word_bytes_lem w16 v p = ap u16_bytes {x = v % 2 ^ 16} {y = v} (omega arith)
word_bytes_lem w32 v p = ap u32_bytes {x = v % 2 ^ 32} {y = v} (omega arith)

pub length-repeated : (n : ℕ) (d : Bytes) → length (repeated n d) ≡ n * length d
unfolding repeated
length-repeated zero d = omega arith
length-repeated (suc n) d = omega (arith, length-append d (repeated n d), length-repeated n d)

pub append_nil : (d : Bytes) → d ++ [] ≡ d
append_nil [] = refl
append_nil (x ∷ d) = ap (λ k. x ∷ k) (append_nil d)

-- ===== src/Prelude/Slices.antt =====
-- Byte strings, Python's slices and slice assignments of them, and little-endian words.
use Prim.Native.Nat.{ℕ, ◌+◌, ◌-◌, ◌*◌, ◌/◌, ◌%◌, ◌^◌, ◌≤◌, ◌<◌, min}
use mathlib.Core.Path.{◌≡◌, ◌∙◌, ap}
use mathlib.Core.List.{List, [], ◌∷◌, ◌++◌}
use native.Mathlib.Omega.{arith}
use minixfs.Prelude.Lists.{
  length, get_or, take, drop, replicate, length-append, length-replicate, length-take, length-drop,
  take-append_any, drop-append_any, take-append_length, drop-append_length, get_or-append_left,
  get_or-append_right, get_or-take, get_or-drop,
}

-- A byte string; each entry is a number, below 256 where that matters.
abbrev pub Bytes : Type 0
Bytes = List ℕ

-- `bytes(n)`
abbrev pub zeros : ℕ → Bytes
zeros n = replicate n 0

pub length-zeros : (n : ℕ) → length (zeros n) ≡ n
length-zeros n = length-replicate n 0

-- `xs[a : b]` at a ≤ b.
abbrev pub slice {ℓ} : {A : Type ℓ} → List A → ℕ → ℕ → List A
slice xs a b = take (b - a) (drop a xs)

pub slice-append {ℓ} :
    {A : Type ℓ} (xs ys : List A) (a b : ℕ)
    → slice (xs ++ ys) a b ≡ slice xs a b ++ slice ys (a - length xs) (b - length xs)
slice-append xs ys a b =
    ap (take (b - a)) (drop-append_any a xs ys)
    ∙ take-append_any (b - a) (drop a xs) (drop (a - length xs) ys)
    ∙ ap (λ k. take (b - a) (drop a xs) ++ take k (drop (a - length xs) ys))
        {y = b - length xs - (a - length xs)} (omega (arith, length-drop a xs))

pub length-slice {ℓ} :
    {A : Type ℓ} (xs : List A) (a b : ℕ) → length (slice xs a b) ≡ min (b - a) (length xs - a)
length-slice xs a b = omega (arith, length-take (b - a) (drop a xs), length-drop a xs)

-- `xs[a : a + len(d)] = d`.
abbrev pub splice {ℓ} : {A : Type ℓ} → List A → ℕ → List A → List A
splice xs a d = take a xs ++ (d ++ drop (a + length d) xs)

-- The little-endian words at an offset.
abbrev pub u16_at : Bytes → ℕ → ℕ
u16_at xs a = get_or xs a 0 + 256 * get_or xs (a + 1) 0

abbrev pub u32_at : Bytes → ℕ → ℕ
u32_at xs a = u16_at xs a + 65536 * u16_at xs (a + 2)

abbrev pub u16_bytes : ℕ → Bytes
u16_bytes v = v % 256 ∷ v / 256 % 256 ∷ []

abbrev pub u32_bytes : ℕ → Bytes
u32_bytes v = v % 256 ∷ v / 256 % 256 ∷ v / 65536 % 256 ∷ v / 16777216 % 256 ∷ []

pub length-splice {ℓ} :
    {A : Type ℓ} (xs : List A) (a : ℕ) (d : List A)
    → a + length d ≤ length xs
    → length (splice xs a d) ≡ length xs
length-splice xs a d h = omega (
  arith,
  length-append (take a xs) (d ++ drop (a + length d) xs),
  length-append d (drop (a + length d) xs),
  length-take a xs,
  length-drop (a + length d) xs,
)

-- What a slice, which begins inside the list and may end behind it, was assigned.
module _ {ℓ} {A : Type ℓ} (xs : List A) (a : ℕ) (d : List A) (h : a ≤ length xs) where
  -- What was assigned to a slice is read back from it.
  pub slice-splice : slice (splice xs a d) a (a + length d) ≡ d
  slice-splice =
      ap (λ t. take (a + length d - a) t)
        (drop-append_length a (take a xs) (d ++ drop (a + length d) xs)
          (omega (arith, length-take a xs)))
      ∙ take-append_length (a + length d - a) d (drop (a + length d) xs) (omega arith)

  pub get_or-splice_below : (z : A) (i : ℕ) → i < a → get_or (splice xs a d) i z ≡ get_or xs i z
  get_or-splice_below z i p =
      get_or-append_left z (take a xs) (d ++ drop (a + length d) xs) i
        (omega (arith, length-take a xs))
      ∙ get_or-take z a xs i p

  pub get_or-splice_inside :
      (z : A) (i : ℕ) → i < length d → get_or (splice xs a d) (a + i) z ≡ get_or d i z
  get_or-splice_inside z i p =
      get_or-append_right z (take a xs) (d ++ drop (a + length d) xs) (a + i)
        (omega (arith, length-take a xs))
      ∙ ap (λ k. get_or (d ++ drop (a + length d) xs) k z) {y = i} (omega (arith, length-take a xs))
      ∙ get_or-append_left z d (drop (a + length d) xs) i p

  pub get_or-splice_above :
      (z : A) (i : ℕ) → a + length d ≤ i → get_or (splice xs a d) i z ≡ get_or xs i z
  get_or-splice_above z i p =
      get_or-append_right z (take a xs) (d ++ drop (a + length d) xs) i
        (omega (arith, length-take a xs))
      ∙ get_or-append_right z d (drop (a + length d) xs) (i - length (take a xs))
          (omega (arith, length-take a xs))
      ∙ get_or-drop z (a + length d) xs (i - length (take a xs) - length d)
      ∙ ap (λ k. get_or xs k z) (omega (arith, length-take a xs))

pub u16_at-u16_bytes : (v : ℕ) → u16_at (u16_bytes v) 0 ≡ v % 65536
u16_at-u16_bytes v = omega arith

pub u32_at-u32_bytes : (v : ℕ) → u32_at (u32_bytes v) 0 ≡ v % 2 ^ 32
u32_at-u32_bytes v = omega arith

-- ===== src/MinixFs/Bitmap.antt =====
-- The bitmaps of minixfs.py: the count over a whole bitmap against the test of a single bit.
use minixfs.Prelude.{
  ℕ, zero, suc, ◌+◌, ◌*◌, ◌/◌, ◌%◌, ◌-◌, ◌≤◌, ◌<◌, ◌≡◌, refl, ap, ap₂, ◌∙◌, Bool, true, false,
  lt→ltb, lt-cases, inl, inr, if◌then◌else◌, length, get_or, ok, arith, length-append,
  get_or-append_left, get_or-append_right,
}
use minixfs.MinixFs.Disk.{
  MinixFs, read_block, join_blocks, bit_of, bitmap_bit, count_bits, count_bitmap,
}
use minixfs.MinixFs.Files.Content.{length-read_block}

-- How many of the bits `i`, …, `i + n - 1` of the bitmap that starts at a block are set.
unfoldable pub set_bits : MinixFs → ℕ → ℕ → ℕ → ℕ
set_bits fs start i zero = 0
set_bits fs start i (suc n) = (if bitmap_bit fs start i then 1 else 0) + set_bits fs start (i + 1) n

module _ (fs : MinixFs) where
  length-join_blocks : (start n : ℕ) → length (join_blocks fs start n) ≡ n * 1024
  unfolding join_blocks
  length-join_blocks start zero = refl
  length-join_blocks start (suc n) = omega (
    arith,
    length-append (read_block fs start) (join_blocks fs (start + 1) n),
    length-read_block fs start,
    length-join_blocks (start + 1) n,
  )

  get_or-join_blocks :
      (start n i : ℕ)
      → i < n * 1024
      → get_or (join_blocks fs start n) i 0 ≡ get_or (read_block fs (start + i / 1024)) (i % 1024) 0
  unfolding join_blocks
  get_or-join_blocks start zero i h = absurd (omega arith)
  get_or-join_blocks start (suc n) i h = elim (lt-cases i 1024) [
    | inl p ↦
        get_or-append_left 0 (read_block fs start) (join_blocks fs (start + 1) n) i
          (omega (arith, length-read_block fs start))
        ∙ ap₂ (λ b k. get_or (read_block fs b) k 0) (omega arith) (omega arith)
    | inr p ↦
        get_or-append_right 0 (read_block fs start) (join_blocks fs (start + 1) n) i
          (omega (arith, length-read_block fs start))
        ∙ ap (λ k. get_or (join_blocks fs (start + 1) n) k 0) {y = i - 1024}
            (omega (arith, length-read_block fs start))
        ∙ get_or-join_blocks (start + 1) n (i - 1024) (omega arith)
        ∙ ap₂ (λ b k. get_or (read_block fs b) k 0) (omega arith) (omega arith)
  ]

  bit-join_blocks :
      (start n i : ℕ)
      → i < n * 8192
      → bit_of (get_or (join_blocks fs start n) (i / 8) 0) i ≡ bitmap_bit fs start i
  unfolding bitmap_bit
  bit-join_blocks start n i h =
      ap (λ b. bit_of b i)
        (get_or-join_blocks start n (i / 8) (omega arith)
          ∙ ap₂ (λ b k. get_or (read_block fs b) k 0) (omega arith) (omega arith))

  count_bits-eq-set_bits :
      (start nblocks i n count : ℕ)
      → i + n ≤ nblocks * 8192
      → count_bits (join_blocks fs start nblocks) i n count ≡ ok (count + set_bits fs start i n)
  unfolding count_bits set_bits
  count_bits-eq-set_bits start nblocks i zero count h = ap ok (omega arith)
  count_bits-eq-set_bits start nblocks i (suc n) count h =
      rw
        (
          lt→ltb (i / 8) (length (join_blocks fs start nblocks))
              (omega (arith, length-join_blocks start nblocks)),
          bit-join_blocks start nblocks i (omega arith),
        )
        (counted (bitmap_bit fs start i)
          (λ c. count_bits-eq-set_bits start nblocks (i + 1) n c (omega arith)))
    where
      counted :
          (b : Bool)
          → ((c : ℕ)
              → count_bits (join_blocks fs start nblocks) (i + 1) n c
                ≡ ok (c + set_bits fs start (i + 1) n))
          → count_bits (join_blocks fs start nblocks) (i + 1) n (if b then count + 1 else count)
            ≡ ok (count + ((if b then 1 else 0) + set_bits fs start (i + 1) n))
      counted true ih = ih (count + 1) ∙ ap ok (omega arith)
      counted false ih = ih count ∙ ap ok (omega arith)

  -- A bitmap of `nblocks` blocks with room for bit `nbits` counts exactly the bits 1 to `nbits` that
  -- the test of single bits finds set, each in its own block.
  pub count_bitmap-eq-set_bits :
      (start nblocks nbits : ℕ)
      → nbits < nblocks * 8192
      → count_bitmap fs start nblocks nbits ≡ ok (set_bits fs start 1 nbits)
  unfolding count_bitmap
  count_bitmap-eq-set_bits start nblocks nbits h =
      count_bits-eq-set_bits start nblocks 1 nbits 0 (omega arith) ∙ ap ok (omega arith)

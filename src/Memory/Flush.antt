-- ===== src/Memory/Flush.antt =====
-- `_flush_icache` of x86mem.py: which entries of the cache of instructions it clears.
use minixfs.Prelude.{
  ℕ, ◌+◌, ◌-◌, ◌≤◌, ◌<◌, ◌≡◌, ◌⊎◌, inl, inr, Option, none, List, lt→ltb, lt-cases, length,
  replicate, splice, length-replicate, length-splice, arith, get_or, get_or-splice_below,
  get_or-splice_above, get_or-splice_inside, get_or-replicate, get_or_out,
}
use minixfs.Memory.{flush_icache, clear_range}

-- `[None] * n`
abbrev nones : (I : Type 0) → ℕ → List (Option I)
nones I n = replicate n none

module _ {I : Type 0} (c : List (Option I)) where
  length-none : (n : ℕ) → length (nones I n) ≡ n
  length-none n = length-replicate n none

  length-clear_range : (lo hi : ℕ) → hi ≤ length c → length (clear_range c lo hi) ≡ length c
  unfolding clear_range
  length-clear_range lo hi h = elim (lt-cases lo hi) [
    | inl p ↦
        ground
          (arith, length-splice c lo (nones I (hi - lo)) (omega (arith, length-none (hi - lo))))
    | inr p ↦ ground arith
  ]

  -- Inside the range every entry is empty, outside nothing changed.
  clear_range_inside :
      (lo hi i : ℕ) → hi ≤ length c → lo ≤ i → i < hi → get_or (clear_range c lo hi) i none ≡ none
  unfolding clear_range
  clear_range_inside lo hi i h p q =
      ground (arith, at_offset, here, get_or-replicate {A = Option I} none (hi - lo) none (i - lo))
    where
      at_offset : lo + (i - lo) ≡ i
      at_offset = omega arith

      here :
          get_or (splice c lo (nones I (hi - lo))) (lo + (i - lo)) none
          ≡ get_or (nones I (hi - lo)) (i - lo) none
      here =
          get_or-splice_inside c lo (nones I (hi - lo)) (omega (arith, length-none (hi - lo))) none
            (i - lo) (omega (arith, length-none (hi - lo)))

  clear_range_outside :
      (lo hi i : ℕ)
      → hi ≤ length c
      → (i < lo) ⊎ (hi ≤ i)
      → get_or (clear_range c lo hi) i none ≡ get_or c i none
  unfolding clear_range
  clear_range_outside lo hi i h p = elim (lt-cases lo hi) [
    | inr q ↦ ground arith
    | inl q ↦ rw (lt→ltb lo hi q) (outside q p)
  ]
    where
      outside :
          lo < hi
          → (i < lo) ⊎ (hi ≤ i)
          → get_or (splice c lo (nones I (hi - lo))) i none ≡ get_or c i none
      outside q (inl r) = get_or-splice_below c lo (nones I (hi - lo)) (omega arith) none i r
      outside q (inr r) =
          get_or-splice_above c lo (nones I (hi - lo)) (omega arith) none i
            (omega (arith, length-none (hi - lo)))

  pub length-flush_icache : (addr n : ℕ) → length (flush_icache c addr n) ≡ length c
  unfolding flush_icache
  length-flush_icache addr n = length-clear_range _ _ (ground arith)

  -- An entry that may hold a byte of the range is empty after the flush: an instruction is at most
  -- fifteen bytes long.
  pub flush_icache_clears :
      (addr n i : ℕ) → i < addr + n → addr ≤ i + 15 → get_or (flush_icache c addr n) i none ≡ none
  unfolding flush_icache
  flush_icache_clears addr n i p q = elim (lt-cases i (length c)) [
    | inl r ↦ clear_range_inside _ _ i (ground arith) (ground arith) (ground arith)
    | inr r ↦ get_or_out none (flush_icache c addr n) i (omega (arith, length-flush_icache addr n))
  ]

  -- No other entry is touched.
  pub flush_icache_keeps :
      (addr n i : ℕ)
      → (i + 15 < addr) ⊎ (addr + n ≤ i)
      → get_or (flush_icache c addr n) i none ≡ get_or c i none
  unfolding flush_icache
  flush_icache_keeps addr n i (inl h) =
      clear_range_outside _ _ i (ground arith) (inl (ground arith))
  flush_icache_keeps addr n i (inr h) = elim (lt-cases (length c) (addr + n)) [
    | inl p ↦ clear_range_outside _ _ i (ground arith) (inr (ground arith))
    | inr p ↦ clear_range_outside _ _ i (ground arith) (inr (ground arith))
  ]

-- ===== src/Memory/Cache.antt =====
-- The cache of decoded instructions of x86mem.py under stores: what is still cached after a `write`
-- was cached before, and its bytes in the text are the same.
use minixfs.Prelude.{
  ℕ, ◌+◌, ◌≤◌, ◌<◌, ◌≡◌, refl, ◌⊎◌, inl, inr, Option, none, some, List, lt-cases, length, Bytes,
  arith, get_or, get_or-splice_below, get_or-splice_above,
}
use minixfs.Memory.{AddressSpace, with_stack, store_low, store_stack, write, flush_icache}
use minixfs.Memory.Inv.{IsValid}
use minixfs.Memory.Flush.{flush_icache_clears, flush_icache_keeps}
use minixfs.Memory.Reach.{WriteCase, in_low, in_stack, in_grown, faults, write-cases}

-- An entry that a flush leaves filled is the old one, and lies outside the range that is cleared.
flush_icache_left :
    {I : Type 0} (c : List (Option I)) (addr n i : ℕ) (x : I)
    → get_or (flush_icache c addr n) i none ≡ some x
    → (get_or c i none ≡ some x) × ((i + 15 < addr) ⊎ (addr + n ≤ i))
flush_icache_left c addr n i x e = elim (lt-cases (i + 15) addr) [
  | inl p ↦ (cc (flush_icache_keeps c addr n i (inl p)), inl p)
  | inr p ↦ elim (lt-cases i (addr + n)) [
    | inl q ↦ cc (flush_icache_clears c addr n i q p)
    | inr q ↦ (cc (flush_icache_keeps c addr n i (inr q)), inr q)
  ]
]

-- What a store leaves of the entry at `i`: it is the old one, and the byte of the text at `b` is
-- the same.
abbrev pub Coherent : {I : Type 0} → AddressSpace I → AddressSpace I → ℕ → ℕ → I → Type 0
Coherent s s' i b x = (get_or s.icache i none ≡ some x) × (get_or s'.low b 0 ≡ get_or s.low b 0)

module _ {I : Type 0} where
  store_low-Coherent :
      {s : AddressSpace I} (addr : ℕ) (d : Bytes) (i b : ℕ) (x : I)
      → IsValid s
      → addr + length d ≤ s.low_end
      → get_or (store_low s addr d).icache i none ≡ some x
      → i ≤ b
      → b < i + 15
      → b < s.text_end
      → Coherent s (store_low s addr d) i b x
  unfolding store_low
  store_low-Coherent {s} addr d i b x v h e p q r = elim (lt-cases addr s.text_end) [
    | inr t ↦ (ground arith, get_or-splice_below s.low addr d (omega arith) 0 b (omega arith))
    | inl t ↦ left (flush_icache_left s.icache addr (length d) i x (ground arith))
  ]
    where
      left :
          (get_or s.icache i none ≡ some x) × ((i + 15 < addr) ⊎ (addr + length d ≤ i))
          → Coherent s (store_low s addr d) i b x
      left (old, inl u) = (old, get_or-splice_below s.low addr d (omega arith) 0 b (omega arith))
      left (old, inr u) = (old, get_or-splice_above s.low addr d (omega arith) 0 b (omega arith))

  -- After a `write`, also one that faults, an instruction that the cache still holds at `i` is the
  -- one that it held before, and every byte of the text that the instruction can span, from `i` to
  -- `i + 14`, has the value that it had when the write began.
  pub write-Coherent :
      (s : AddressSpace I) (addr : ℕ) (d : Bytes) (i b : ℕ) (x : I)
      → IsValid s
      → get_or (write s addr d).0.icache i none ≡ some x
      → i ≤ b
      → b < i + 15
      → b < s.text_end
      → Coherent s (write s addr d).0 i b x
  unfolding store_stack with_stack
  write-Coherent s addr d i b x v e p q r = go (write-cases s addr d)
    where
      go : WriteCase s addr d (write s addr d) → Coherent s (write s addr d).0 i b x
      go (in_low h w) = rw w (store_low-Coherent addr d i b x v h (rw w at e) p q r)
      go (in_stack _ _ _ w) = rw w (rw w at e, refl)
      go (in_grown _ _ _ _ w) = rw w (rw w at e, refl)
      go (faults _ (inl w) _) = rw w (rw w at e, refl)
      go (faults _ (inr (_, _, w)) _) = rw w (rw w at e, refl)

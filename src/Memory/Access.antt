-- ===== src/Memory/Access.antt =====
-- What the reads of x86mem.py return after `AddressSpace.write`.
use minixfs.Prelude.{
  ℕ, ◌+◌, ◌-◌, ◌≤◌, ◌<◌, ◌≡◌, ◌⊎◌, ◌↔◌, inl, inr, ◌∙◌, length, Bytes, zeros, length-zeros, arith,
  ok, get_or-append_right, get_or-splice_below, get_or-splice_above, slice-splice,
}
use minixfs.Memory.{
  AddressSpace, task_size, with_stack, store_low, store_stack, write, read, read_u8,
}
use minixfs.Memory.Inv.{IsValid, with_stack-IsValid}
use minixfs.Memory.Keeps.{reaches-Grown}
use minixfs.Memory.Reach.{WriteCase, in_low, in_stack, in_grown, faults, write-cases}

module _ {I : Type 0} where
  read-store_low :
      {s : AddressSpace I} (addr : ℕ) (d : Bytes)
      → IsValid s
      → addr + length d ≤ s.low_end
      → read (store_low s addr d) addr (length d) ≡ ok d
  unfolding store_low read
  read-store_low {s} addr d v h = ground (arith, slice-splice s.low addr d (omega arith))

  read-store_stack :
      {s : AddressSpace I} (addr : ℕ) (d : Bytes)
      → IsValid s
      → s.low_end < addr + length d
      → s.stack_low ≤ addr
      → addr + length d ≤ task_size
      → read (store_stack s addr d) addr (length d) ≡ ok d
  unfolding store_stack read
  read-store_stack {s} addr d v l h k =
      ground (arith, slice-splice s.stack (addr - s.stack_low) d (omega arith))

  low_end_grown :
      (s : AddressSpace I) {n : ℕ} (k : ℕ)
      → s.low_end < n
      → (with_stack s k (s.stack_low - k)).low_end < n
  unfolding with_stack
  low_end_grown s k h = h

  -- What a successful `write` stored is what `read` of that range returns.
  pub read-write :
      (s : AddressSpace I) (addr : ℕ) (d : Bytes)
      → IsValid s
      → (write s addr d).1 ≡ ok tt
      → read (write s addr d).0 addr (length d) ≡ ok d
  read-write s addr d v done = go (write-cases s addr d)
    where
      go : WriteCase s addr d (write s addr d) → read (write s addr d).0 addr (length d) ≡ ok d
      go (in_low h e) = rw e (read-store_low addr d v h)
      go (in_stack p q r e) = rw e (read-store_stack addr d v p q r)
      go (in_grown k l g r e) = rw e (
          read-store_stack addr d (with_stack-IsValid k v g.fits) (low_end_grown s k l)
            (reaches-Grown s addr k g) r)
      go (faults _ _ e) = cc (e, done)

  read_u8-store_low :
      {s : AddressSpace I} (addr : ℕ) (d : Bytes) (b : ℕ)
      → IsValid s
      → addr + length d ≤ s.low_end
      → (b < addr) ⊎ (addr + length d ≤ b)
      → read_u8 (store_low s addr d) b ≡ read_u8 s b
  unfolding store_low read_u8
  read_u8-store_low {s} addr d b v h (inl p) =
      ground (arith, get_or-splice_below s.low addr d (omega arith) 0 b p)
  read_u8-store_low {s} addr d b v h (inr p) =
      ground (arith, get_or-splice_above s.low addr d (omega arith) 0 b p)

  read_u8-store_stack :
      {s : AddressSpace I} (addr : ℕ) (d : Bytes) (b : ℕ)
      → IsValid s
      → s.stack_low ≤ addr
      → addr + length d ≤ task_size
      → (b < addr) ⊎ (addr + length d ≤ b)
      → read_u8 (store_stack s addr d) b ≡ read_u8 s b
  unfolding store_stack read_u8
  read_u8-store_stack {s} addr d b v h k (inl p) = ground (
    arith,
    λ (q : s.stack_low ≤ b).
        get_or-splice_below s.stack (addr - s.stack_low) d (omega arith) 0 (b - s.stack_low)
          (omega arith),
  )
  read_u8-store_stack {s} addr d b v h k (inr p) = ground (
    arith,
    get_or-splice_above s.stack (addr - s.stack_low) d (omega arith) 0 (b - s.stack_low)
        (omega arith),
  )

  read_u8-with_stack :
      {s : AddressSpace I} (k b x : ℕ)
      → IsValid s
      → s.low_end + k ≤ s.stack_low
      → read_u8 s b ≡ ok x
      → read_u8 (with_stack s k (s.stack_low - k)) b ≡ ok x
  unfolding with_stack read_u8
  read_u8-with_stack {s} k b x v h p =
      ground
        (arith, length-zeros k, get_or-append_right 0 (zeros k) s.stack (b - (s.stack_low - k)))

  -- A byte outside the range of a `write` that could be read before reads as before, also when the
  -- stack grew and when the write faulted.
  pub read_u8-write_outside :
      (s : AddressSpace I) (addr : ℕ) (d : Bytes) (b x : ℕ)
      → IsValid s
      → (b < addr) ⊎ (addr + length d ≤ b)
      → read_u8 s b ≡ ok x
      → read_u8 (write s addr d).0 b ≡ ok x
  read_u8-write_outside s addr d b x v out h = go (write-cases s addr d)
    where
      go : WriteCase s addr d (write s addr d) → read_u8 (write s addr d).0 b ≡ ok x
      go (in_low p e) = rw e (read_u8-store_low addr d b v p out ∙ h)
      go (in_stack p q r e) = rw e (read_u8-store_stack addr d b v q r out ∙ h)
      go (in_grown k l g r e) = rw e (
          read_u8-store_stack addr d b (with_stack-IsValid k v g.fits) (reaches-Grown s addr k g) r
            out
          ∙ read_u8-with_stack k b x v g.fits h)
      go (faults _ (inl e) _) = rw e h
      go (faults _ (inr (k, g, e)) _) = rw e (read_u8-with_stack k b x v g.fits h)

  -- A `write` succeeds exactly when its range ends in the low region, or starts above the low region
  -- and ends in the user space.
  pub write-ok_iff :
      (s : AddressSpace I) (addr : ℕ) (d : Bytes)
      → IsValid s
      → ((write s addr d).1 ≡ ok tt)
        ↔ ((addr + length d ≤ s.low_end) ⊎ ((s.low_end ≤ addr) × (addr + length d ≤ task_size)))
  write-ok_iff s addr d v =
      (λ e. forth e (write-cases s addr d), λ h. back h (write-cases s addr d))
    where
      forth :
          (write s addr d).1 ≡ ok tt
          → WriteCase s addr d (write s addr d)
          → (addr + length d ≤ s.low_end) ⊎ ((s.low_end ≤ addr) × (addr + length d ≤ task_size))
      forth e (in_low p _) = inl p
      forth e (in_stack p q r _) = inr (omega arith, r)
      forth e (in_grown k l g r _) = inr (g.above, r)
      forth e (faults _ _ f) = cc (e, f)

      back :
          (addr + length d ≤ s.low_end) ⊎ ((s.low_end ≤ addr) × (addr + length d ≤ task_size))
          → WriteCase s addr d (write s addr d)
          → (write s addr d).1 ≡ ok tt
      back h (in_low p e) = rw e
      back h (in_stack p q r e) = rw e
      back h (in_grown k l g r e) = rw e
      back h (faults (p, q) _ _) = absurd (omega arith)

-- ===== src/Memory/Keeps.antt =====
-- `AddressSpace.write` of x86mem.py keeps the invariant of the address space.
use minixfs.Prelude.{ℕ, ◌+◌, ◌-◌, ◌≤◌, inl, inr, length, Bytes, length-splice, arith}
use minixfs.Memory.{AddressSpace, task_size, with_stack, store_low, store_stack, write}
use minixfs.Memory.Inv.{IsValid, Grown, with_stack-IsValid}
use minixfs.Memory.Flush.{length-flush_icache}
use minixfs.Memory.Reach.{WriteCase, in_low, in_stack, in_grown, faults, write-cases}

module _ {I : Type 0} where
  store_low-IsValid :
      {s : AddressSpace I} (addr : ℕ) (d : Bytes)
      → IsValid s
      → addr + length d ≤ s.low_end
      → IsValid (store_low s addr d)
  unfolding store_low
  store_low-IsValid {s} addr d v h = ground (
    arith,
    length-splice s.low addr d (omega arith),
    length-flush_icache s.icache addr (length d),
  )

  store_stack-IsValid :
      {s : AddressSpace I} (addr : ℕ) (d : Bytes)
      → IsValid s
      → s.stack_low ≤ addr
      → addr + length d ≤ task_size
      → IsValid (store_stack s addr d)
  unfolding store_stack
  store_stack-IsValid {s} addr d v h k =
      ground (arith, length-splice s.stack (addr - s.stack_low) d (omega arith))

  pub reaches-Grown :
      (s : AddressSpace I) (addr k : ℕ)
      → Grown s addr k
      → (with_stack s k (s.stack_low - k)).stack_low ≤ addr
  unfolding with_stack
  reaches-Grown s addr k g = omega arith

  -- `write` keeps the invariant, also when it faults.
  pub write-IsValid :
      {s : AddressSpace I} (addr : ℕ) (d : Bytes) → IsValid s → IsValid (write s addr d).0
  write-IsValid {s} addr d v = go (write-cases s addr d)
    where
      go : WriteCase s addr d (write s addr d) → IsValid (write s addr d).0
      go (in_low h e) = rw e (store_low-IsValid addr d v h)
      go (in_stack p q r e) = rw e (store_stack-IsValid addr d v q r)
      go (in_grown k _ g r e) =
          rw e (
            store_stack-IsValid addr d (with_stack-IsValid k v g.fits) (reaches-Grown s addr k g) r)
      go (faults _ (inl e) _) = rw e v
      go (faults _ (inr (k, g, e)) _) = rw e (with_stack-IsValid k v g.fits)

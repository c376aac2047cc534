-- ===== src/Memory/Reach.antt =====
-- Which branch `AddressSpace.write` of x86mem.py takes, and that its recursion ends.
use minixfs.Prelude.{
  ℕ, suc, ◌+◌, ◌-◌, ◌≤◌, ◌<◌, ◌≡◌, sym, ◌⊎◌, inl, inr, true, false, ◌∙◌, leb, if◌then◌else◌, ◌&&◌,
  lt-cases, length, Bytes, arith, Result, ok, err,
}
use minixfs.Memory.{
  AddressSpace, SegFault, task_size, with_stack, grow_stack, store_low, store_stack, write_fuel,
  write,
}
use minixfs.Memory.Inv.{Grown, grown_by, grow_stack-cases}

-- What a call of `write` returned, and under which condition.
pub data WriteCase {I : Type 0} (s : AddressSpace I) (addr : ℕ) (d : Bytes)
    (r : AddressSpace I × Result SegFault (Unit {0})) : Type 0 where
  in_low : addr + length d ≤ s.low_end → r ≡ (store_low s addr d, ok tt) → WriteCase s addr d r
  in_stack :
      s.low_end < addr + length d
      → s.stack_low ≤ addr
      → addr + length d ≤ task_size
      → r ≡ (store_stack s addr d, ok tt)
      → WriteCase s addr d r
  in_grown :
      (k : ℕ)
      → s.low_end < addr + length d
      → Grown s addr k
      → addr + length d ≤ task_size
      → r ≡ (store_stack (with_stack s k (s.stack_low - k)) addr d, ok tt)
      → WriteCase s addr d r
  faults :
      ((s.low_end < addr + length d) × (addr < s.low_end ⊎ (task_size < addr + length d)))
      → (r.0 ≡ s) ⊎ ((k : ℕ) × Grown s addr k × (r.0 ≡ with_stack s k (s.stack_low - k)))
      → r.1 ≡ err (record { addr = addr; size = length d; is_write = true })
      → WriteCase s addr d r

module _ {I : Type 0} (s : AddressSpace I) (addr : ℕ) (d : Bytes) where
  -- After a growth the second call stores in the stack, or faults at the top of the user space.
  write-Grown :
      (f k : ℕ)
      → s.low_end < addr + length d
      → Grown s addr k
      → write_fuel (suc (suc f)) s addr d ≡ (
          if leb (addr + length d) task_size
          then (store_stack (with_stack s k (s.stack_low - k)) addr d, ok tt)
          else (
            with_stack s k (s.stack_low - k),
            err (record { addr = addr; size = length d; is_write = true }),
          ))
  unfolding write_fuel with_stack
  write-Grown f k p g = ground arith

  write_refused :
      (f : ℕ)
      → s.low_end < addr + length d
      → grow_stack s addr ≡ (s, false)
      → write_fuel (suc f) s addr d ≡ (
          if leb s.stack_low addr && leb (addr + length d) task_size
          then (store_stack s addr d, ok tt)
          else (s, err (record { addr = addr; size = length d; is_write = true })))
  unfolding write_fuel
  write_refused f p g = ground arith

  write_low :
      (f : ℕ)
      → addr + length d ≤ s.low_end
      → write_fuel (suc f) s addr d ≡ (store_low s addr d, ok tt)
  unfolding write_fuel
  write_low f p = ground arith

  -- Two calls are enough: more fuel changes nothing.
  pub write_fuel_enough : (f : ℕ) → write_fuel (suc (suc f)) s addr d ≡ write s addr d
  unfolding write
  write_fuel_enough f = elim (lt-cases s.low_end (addr + length d)) [
    | inr p ↦ write_low (suc f) p ∙ sym (write_low 1 p)
    | inl p ↦ elim (grow_stack-cases s addr) [
      | inl (g, _) ↦ write_refused (suc f) p g ∙ sym (write_refused 1 p g)
      | inr g ↦ write-Grown f _ p g ∙ sym (write-Grown 0 _ p g)
    ]
  ]

  pub write-cases : WriteCase s addr d (write s addr d)
  unfolding write
  write-cases = elim (lt-cases s.low_end (addr + length d)) [
    | inr p ↦ in_low p (write_low 1 p)
    | inl p ↦ elim (lt-cases task_size (addr + length d)) [
      | inl q ↦ elim (grow_stack-cases s addr) [
        | inl (g, _) ↦
            faults (p, inr q) (inl (ground (arith, write_refused 1 p g)))
              (ground (arith, write_refused 1 p g))
        | inr g ↦
            faults (p, inr q) (inr (grown_by s addr, g, ground (arith, write-Grown 0 _ p g)))
              (ground (arith, write-Grown 0 _ p g))
      ]
      | inr q ↦ elim (grow_stack-cases s addr) [
        | inl (g, inl above) ↦ in_stack p above q (ground (arith, write_refused 1 p g))
        | inl (g, inr below) ↦ elim (lt-cases addr s.stack_low) [
          | inl u ↦
              faults (p, inl below) (inl (ground (arith, write_refused 1 p g)))
                (ground (arith, write_refused 1 p g))
          | inr above ↦ in_stack p above q (ground (arith, write_refused 1 p g))
        ]
        | inr g ↦ in_grown (grown_by s addr) p g q (ground (arith, write-Grown 0 _ p g))
      ]
    ]
  ]

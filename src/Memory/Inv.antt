-- ===== src/Memory/Inv.antt =====
-- The invariant of the address space of x86mem.py, and what each operation does to it.
use minixfs.Prelude.{
  ℕ, ◌+◌, ◌-◌, ◌≤◌, ◌<◌, ◌≡◌, ◌⊎◌, inl, inr, true, false, Option, none, ◌++◌, ltb, if◌then◌else◌,
  lt-cases, max, length, Bytes, zeros, length-zeros, length-append, length-replicate, arith,
}
use minixfs.Memory.{
  AddressSpace, task_size, page_size, stack_grow_step, round_up, init, load_program, set_brk,
  with_stack, grow_stack,
}

-- The two buffers have the lengths that the bounds promise, the text and the break lie in the low
-- region, the cache covers no more than the text, and the two regions do not overlap.
pub record IsValid {I : Type 0} (s : AddressSpace I) : Type 0 where
  pub low_length : length s.low ≡ s.low_end
  pub stack_length : s.stack_low + length s.stack ≡ task_size
  pub text_in : s.text_end ≤ s.low_end
  pub brk_in : s.brk ≤ s.low_end
  pub cache_in : length s.icache ≤ s.text_end
  pub start_in : s.start_stack ≤ task_size
  pub apart : s.low_end ≤ s.stack_low

pub round_up_bounds : (n : ℕ) → (n ≤ round_up n) × (round_up n < n + page_size)
round_up_bounds n = omega arith

module _ {I : Type 0} where
  -- A fresh address space is valid when its stack fits the user space.
  pub init-IsValid : (n : ℕ) → n ≤ task_size → IsValid (init {I = I} n)
  unfolding init
  init-IsValid n h = omega (arith, length-zeros (round_up n))

  -- Loading a program that ends below the stack gives a valid space.
  pub load_program-IsValid :
      {s : AddressSpace I} (text d : Bytes) (bss : ℕ)
      → IsValid s
      → length text + length d + bss ≤ s.stack_low
      → IsValid (load_program s text d bss)
  unfolding load_program
  load_program-IsValid {s} text d bss v h =
      let none_i : Option I = none in
      ground (
        arith,
        length-append text (d ++ zeros bss),
        length-append d (zeros bss),
        length-zeros bss,
        length-replicate (length text) none_i,
        length-replicate 0 none_i,
      )

  -- A break at or below the stack keeps the space valid.
  pub set_brk-IsValid :
      {s : AddressSpace I} (addr : ℕ) → IsValid s → addr ≤ s.stack_low → IsValid (set_brk s addr).0
  unfolding set_brk
  set_brk-IsValid {s} addr v h =
      ground
        (arith, length-append s.low (zeros (addr - s.low_end)), length-zeros (addr - s.low_end))

  pub with_stack-IsValid :
      {s : AddressSpace I} (k : ℕ)
      → IsValid s
      → s.low_end + k ≤ s.stack_low
      → IsValid (with_stack s k (s.stack_low - k))
  unfolding with_stack
  with_stack-IsValid {s} k v h = omega (arith, length-append (zeros k) s.stack, length-zeros k)

  -- How many bytes a successful growth puts below the stack.
  pub grown_by : AddressSpace I → ℕ → ℕ
  grown_by s addr =
      let step = round_up (max (s.stack_low - addr) stack_grow_step) in
      if ltb s.stack_low (s.low_end + step) then s.stack_low - s.low_end else step

  pub record Grown (s : AddressSpace I) (addr : ℕ) (k : ℕ) : Type 0 where
    pub result : grow_stack s addr ≡ (with_stack s k (s.stack_low - k), true)
    pub below : addr < s.stack_low
    pub above : s.low_end ≤ addr
    pub reaches : s.stack_low ≤ addr + k
    pub fits : s.low_end + k ≤ s.stack_low

  -- A growth fails and changes nothing, or puts zero bytes below the stack as far as `addr`.
  pub grow_stack-cases :
      (s : AddressSpace I) (addr : ℕ)
      → ((grow_stack s addr ≡ (s, false)) × ((s.stack_low ≤ addr) ⊎ (addr < s.low_end)))
        ⊎ Grown s addr (grown_by s addr)
  unfolding grow_stack grown_by
  grow_stack-cases s addr = elim (lt-cases addr s.stack_low) [
    | inr p ↦ inl (ground arith, inl p)
    | inl p ↦ elim (lt-cases addr s.low_end) [
      | inl q ↦ inl (ground arith, inr q)
      | inr q ↦ inr (ground arith)
    ]
  ]

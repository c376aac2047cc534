-- ===== src/Memory/Brk.antt =====
-- `set_brk` and `grow_stack` of x86mem.py: what stays readable, and what a break above the stack does.
use minixfs.Prelude.{
  ℕ, ◌+◌, ◌-◌, ◌≤◌, ◌<◌, ◌≡◌, inl, inr, true, false, zeros, length-zeros, arith, ok,
  get_or-append_left, get_or-append_right, get_or-replicate,
}
use minixfs.Memory.{AddressSpace, brk_stack_gap, set_brk, grow_stack, with_stack, read_u8}
use minixfs.Memory.Inv.{IsValid, grown_by, grow_stack-cases}

-- The test of `sys_brk`.
abbrev pub Accepts : {I : Type 0} → AddressSpace I → ℕ → Type 0
Accepts s addr = (s.text_end ≤ addr) × (addr < s.start_stack - brk_stack_gap)

module _ {I : Type 0} (s : AddressSpace I) (addr : ℕ) where
  -- `set_brk` returns the break that the space then has. It is `addr` where the test of the kernel
  -- accepts it; else the space is unchanged.
  pub set_brk_result :
      ((set_brk s addr).1 ≡ (set_brk s addr).0.brk)
      × (Accepts s addr → (set_brk s addr).0.brk ≡ addr)
      × (¬ (Accepts s addr) → (set_brk s addr).0 ≡ s)
  unfolding set_brk
  set_brk_result = (ground arith, ground arith, ground arith)

  -- For a break at or below the stack, every byte that could be read keeps its value, and the bytes
  -- that the low region gains read as zero.
  pub set_brk_reads :
      (b x : ℕ)
      → IsValid s
      → addr ≤ s.stack_low
      → (read_u8 s b ≡ ok x → read_u8 (set_brk s addr).0 b ≡ ok x)
        × (Accepts s addr → s.low_end ≤ b → b < addr → read_u8 (set_brk s addr).0 b ≡ ok 0)
  unfolding set_brk read_u8
  set_brk_reads b x v h = (
    ground (arith, get_or-append_left 0 s.low (zeros (addr - s.low_end)) b),
    ground (
      arith,
      get_or-append_right 0 s.low (zeros (addr - s.low_end)) b,
      get_or-replicate {A = ℕ} 0 (addr - s.low_end) 0 (b - s.low_end),
    ),
  )

  -- The test does not look at the stack: an accepted break above its lower end hides the stack
  -- below the break, whose bytes then read as zero whatever they were.
  pub set_brk_hides_stack :
      (b : ℕ)
      → IsValid s
      → Accepts s addr
      → s.stack_low ≤ b
      → b < addr
      → (read_u8 (set_brk s addr).0 b ≡ ok 0) × (¬ (IsValid (set_brk s addr).0))
  unfolding set_brk read_u8
  set_brk_hides_stack b v (p, q) r t = (
    ground (
      arith,
      get_or-append_right 0 s.low (zeros (addr - s.low_end)) b,
      get_or-replicate {A = ℕ} 0 (addr - s.low_end) 0 (b - s.low_end),
    ),
    λ w. ground arith,
  )

  with_stack_reads :
      (k b x : ℕ)
      → IsValid s
      → s.low_end + k ≤ s.stack_low
      → (s.low_end ≤ b
          → b < s.stack_low
          → s.stack_low ≤ b + k
          → read_u8 (with_stack s k (s.stack_low - k)) b ≡ ok 0)
        × (read_u8 s b ≡ ok x → read_u8 (with_stack s k (s.stack_low - k)) b ≡ ok x)
  unfolding with_stack read_u8
  with_stack_reads k b x v h = (
    ground (
      arith,
      length-zeros k,
      get_or-append_left 0 (zeros k) s.stack (b - (s.stack_low - k)),
      get_or-replicate {A = ℕ} 0 k 0 (b - (s.stack_low - k)),
    ),
    ground (arith, length-zeros k, get_or-append_right 0 (zeros k) s.stack (b - (s.stack_low - k))),
  )

  -- A growth that succeeds makes `addr` readable as zero and keeps what could be read; one that is
  -- refused changes nothing.
  pub grow_stack_reads :
      (b x : ℕ)
      → IsValid s
      → ((grow_stack s addr).1 ≡ true → read_u8 (grow_stack s addr).0 addr ≡ ok 0)
        × ((grow_stack s addr).1 ≡ false → (grow_stack s addr).0 ≡ s)
        × (read_u8 s b ≡ ok x → read_u8 (grow_stack s addr).0 b ≡ ok x)
  grow_stack_reads b x v = elim (grow_stack-cases s addr) [
    | inl (e, _) ↦ (ground (arith, e), ground (arith, e), ground (arith, e))
    | inr g ↦ (
      λ _.
          rw g.result
            ((with_stack_reads (grown_by s addr) addr x v g.fits).0 g.above g.below g.reaches),
      λ f. ground (arith, g.result, f),
      λ h. rw g.result ((with_stack_reads (grown_by s addr) b x v g.fits).1 h),
    )
  ]

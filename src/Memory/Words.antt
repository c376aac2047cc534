-- ===== src/Memory/Words.antt =====
-- The words of x86mem.py: the fast paths of `write_u8`, `write_u16` and `write_u32` store what the
-- general `write` stores, and a word is read back as it was written.
use minixfs.Prelude.{
  ℕ, zero, suc, ◌+◌, ◌-◌, ◌%◌, ◌^◌, ◌≤◌, ◌<◌, ◌≡◌, refl, ap, inl, inr, ◌∙◌, List, [], ◌∷◌, ◌++◌,
  lt-cases, length, set, Bytes, splice, slice, u16_bytes, u32_bytes, u16_at, u32_at, arith, take,
  drop, ok, ◌>>=◌, get_or, get_or-take, get_or-drop,
}
use minixfs.Memory.{
  AddressSpace, task_size, store_low, store_stack, write_fuel, write, read, read_u16, read_u32,
  write_u8, write_u16, write_u32,
}
use minixfs.Memory.Inv.{IsValid}
use minixfs.Memory.Access.{read-write}

set-eq-splice :
    {A : Type 0} (xs : List A) (i : ℕ) (v : A) → i < length xs → set xs i v ≡ splice xs i (v ∷ [])
set-eq-splice [] i v h = absurd (omega arith)
set-eq-splice (x ∷ xs) zero v h = refl
set-eq-splice (x ∷ xs) (suc i) v h =
    ap (λ t. x ∷ t) (set-eq-splice xs i v (omega arith))
    ∙ ap (λ k. x ∷ (take i xs ++ v ∷ drop k (x ∷ xs))) {x = suc (i + 1)} (omega arith)

get_or-slice :
    (xs : Bytes) (a n i : ℕ) → i < n → get_or (slice xs a (a + n)) i 0 ≡ get_or xs (a + i) 0
get_or-slice xs a n i h =
    get_or-take 0 (a + n - a) (drop a xs) i (omega arith) ∙ get_or-drop 0 a xs i

module _ {I : Type 0} (s : AddressSpace I) (addr : ℕ) where
  write-low :
      (d : Bytes) → addr + length d ≤ s.low_end → write s addr d ≡ (store_low s addr d, ok tt)
  unfolding write write_fuel
  write-low d h = ground arith

  write-stack :
      (d : Bytes)
      → s.low_end < addr + length d
      → s.stack_low ≤ addr
      → addr + length d ≤ task_size
      → write s addr d ≡ (store_stack s addr d, ok tt)
  unfolding write write_fuel
  write-stack d p q r = ground arith

  -- The fast path of a byte store does what `write` does.
  pub write_u8-eq-write : (v : ℕ) → IsValid s → write_u8 s addr v ≡ write s addr (v % 256 ∷ [])
  unfolding write_u8 store_low store_stack
  write_u8-eq-write v h = elim (lt-cases addr s.low_end) [
    | inl p ↦ ground (
      arith,
      write-low (v % 256 ∷ []) (omega arith),
      set-eq-splice s.low addr (v % 256) (omega arith),
    )
    | inr p ↦ elim (lt-cases addr s.stack_low) [
      | inl q ↦ ground arith
      | inr q ↦ elim (lt-cases addr task_size) [
        | inl r ↦ ground (
          arith,
          write-stack (v % 256 ∷ []) (omega arith) q (omega arith),
          set-eq-splice s.stack (addr - s.stack_low) (v % 256) (omega arith),
        )
        | inr r ↦ ground arith
      ]
    ]
  ]

  -- So do the fast paths of the 16-bit and 32-bit stores.
  pub write_u16-eq-write : (v : ℕ) → write_u16 s addr v ≡ write s addr (u16_bytes (v % 2 ^ 16))
  unfolding write_u16
  write_u16-eq-write v = elim (lt-cases s.low_end (addr + 2)) [
    | inr p ↦ ground (arith, write-low (u16_bytes (v % 2 ^ 16)) p)
    | inl p ↦ ground (arith, write-stack (u16_bytes (v % 2 ^ 16)) p)
  ]

  pub write_u32-eq-write : (v : ℕ) → write_u32 s addr v ≡ write s addr (u32_bytes (v % 2 ^ 32))
  unfolding write_u32
  write_u32-eq-write v = elim (lt-cases s.low_end (addr + 4)) [
    | inr p ↦ ground (arith, write-low (u32_bytes (v % 2 ^ 32)) p)
    | inl p ↦ ground (arith, write-stack (u32_bytes (v % 2 ^ 32)) p)
  ]

  -- A word read is the little-endian value of the bytes that `read` returns.
  pub read_u16-eq-read : read_u16 s addr ≡ (do bs ← read s addr 2; ok (u16_at bs 0))
  unfolding read_u16 read
  read_u16-eq-read = ground (
    arith,
    get_or-slice s.low addr 2 0,
    get_or-slice s.low addr 2 1,
    get_or-slice s.stack (addr - s.stack_low) 2 0,
    get_or-slice s.stack (addr - s.stack_low) 2 1,
  )

  pub read_u32-eq-read : read_u32 s addr ≡ (do bs ← read s addr 4; ok (u32_at bs 0))
  unfolding read_u32 read
  read_u32-eq-read = ground (
    arith,
    get_or-slice s.low addr 4 0,
    get_or-slice s.low addr 4 1,
    get_or-slice s.low addr 4 2,
    get_or-slice s.low addr 4 3,
    get_or-slice s.stack (addr - s.stack_low) 4 0,
    get_or-slice s.stack (addr - s.stack_low) 4 1,
    get_or-slice s.stack (addr - s.stack_low) 4 2,
    get_or-slice s.stack (addr - s.stack_low) 4 3,
  )

module _ {I : Type 0} (s : AddressSpace I) (addr : ℕ) where
  -- A 16-bit store that succeeds is read back as its value modulo 2^16.
  pub read_u16-write_u16 :
      (v : ℕ)
      → IsValid s
      → (write_u16 s addr v).1 ≡ ok tt
      → read_u16 (write_u16 s addr v).0 addr ≡ ok (v % 2 ^ 16)
  read_u16-write_u16 v h e = ground (
    arith,
    write_u16-eq-write s addr v,
    read_u16-eq-read (write s addr (u16_bytes (v % 2 ^ 16))).0 addr,
    read-write s addr (u16_bytes (v % 2 ^ 16)) h,
  )

  -- In a valid space, a 32-bit store that succeeds is read back as its value modulo 2^32.
  pub read_u32-write_u32 :
      (v : ℕ)
      → IsValid s
      → (write_u32 s addr v).1 ≡ ok tt
      → read_u32 (write_u32 s addr v).0 addr ≡ ok (v % 2 ^ 32)
  read_u32-write_u32 v h e = ground (
    arith,
    write_u32-eq-write s addr v,
    read_u32-eq-read (write s addr (u32_bytes (v % 2 ^ 32))).0 addr,
    read-write s addr (u32_bytes (v % 2 ^ 32)) h,
  )

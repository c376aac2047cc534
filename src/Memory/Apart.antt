-- ===== src/Memory/Apart.antt =====
-- Words of the stack region in x86mem.py that a store beside them leaves.
use minixfs.Prelude.{
  ℕ, ◌+◌, ◌-◌, ◌%◌, ◌^◌, ◌≤◌, ◌<◌, ◌≡◌, ◌⊎◌, inr, subst, sym, length, Bytes, u32_bytes, u32_at,
  get_or, ◌∷◌, [], ap, ◌∙◌, arith, ok, Result,
}
use minixfs.Memory.{AddressSpace, SegFault, task_size, write, write_u32, read_u8, read_u32}
use minixfs.Memory.Inv.{IsValid}
use minixfs.Memory.Access.{read_u8-write_outside, write-ok_iff}
use minixfs.Memory.Keeps.{write-IsValid}
use minixfs.Memory.Joined.{write_bounds}
use minixfs.Memory.Words.{write_u32-eq-write}

module _ {I : Type 0} where
  byte_of_word :
      (s : AddressSpace I) (a v i : ℕ)
      → s.low_end ≤ a
      → read_u32 s a ≡ ok v
      → i < 4
      → read_u8 s (a + i) ≡ ok (get_or s.stack (a - s.stack_low + i) 0)
  unfolding read_u8 read_u32
  byte_of_word s a v i above h p = ground (arith, h)

  word_of_bytes :
      (s : AddressSpace I) (a x0 x1 x2 x3 : ℕ)
      → s.low_end ≤ a
      → read_u8 s (a + 0) ≡ ok x0
      → read_u8 s (a + 1) ≡ ok x1
      → read_u8 s (a + 2) ≡ ok x2
      → read_u8 s (a + 3) ≡ ok x3
      → read_u32 s a ≡ ok (u32_at (x0 ∷ x1 ∷ x2 ∷ x3 ∷ []) 0)
  unfolding read_u8 read_u32
  word_of_bytes s a x0 x1 x2 x3 above h0 h1 h2 h3 = ground (arith, h0, h1, h2, h3)

  word_value :
      (s : AddressSpace I) (a v : ℕ)
      → s.low_end ≤ a
      → read_u32 s a ≡ ok v
      → u32_at s.stack (a - s.stack_low) ≡ v
  unfolding read_u32
  word_value s a v above h = ground (arith, h)

  pub read_u32-write_apart :
      (s : AddressSpace I) (a b v : ℕ) (d : Bytes)
      → IsValid s
      → s.low_end ≤ a
      → (a + 4 ≤ b) ⊎ (b + length d ≤ a)
      → read_u32 s a ≡ ok v
      → read_u32 (write s b d).0 a ≡ ok v
  read_u32-write_apart s a b v d g above apart h =
      word_of_bytes (write s b d).0 a (x 0) (x 1) (x 2) (x 3)
        (omega (arith, above, write_bounds s b d)) (byte 0 (omega arith)) (byte 1 (omega arith))
        (byte 2 (omega arith)) (byte 3 (omega arith))
      ∙ ap ok (at_zero ∙ word_value s a v above h)
    where
      x : ℕ → ℕ
      x i = get_or s.stack (a - s.stack_low + i) 0

      byte : (i : ℕ) → i < 4 → read_u8 (write s b d).0 (a + i) ≡ ok (x i)
      byte i p =
          read_u8-write_outside s b d (a + i) (x i) g (omega (arith, apart, p))
            (byte_of_word s a v i above h p)

      at_zero : u32_at (x 0 ∷ x 1 ∷ x 2 ∷ x 3 ∷ []) 0 ≡ u32_at s.stack (a - s.stack_low)
      at_zero = ground arith

  pub read_u32-write_u32_apart :
      (s : AddressSpace I) (a b v x : ℕ)
      → IsValid s
      → s.low_end ≤ a
      → (a + 4 ≤ b) ⊎ (b + 4 ≤ a)
      → read_u32 s a ≡ ok v
      → read_u32 (write_u32 s b x).0 a ≡ ok v
  read_u32-write_u32_apart s a b v x g above apart h =
      subst (λ (r : AddressSpace I × Result SegFault (Unit {0})). read_u32 r.0 a ≡ ok v)
        (sym (write_u32-eq-write s b x))
        (read_u32-write_apart s a b v (u32_bytes (x % 2 ^ 32)) g above apart h)

  -- A store in the stack region succeeds and keeps the space valid.
  pub record Kept (s t : AddressSpace I) : Type 0 where
    pub valid : IsValid t
    pub same : t.low_end ≡ s.low_end

  pub write_step :
      (s : AddressSpace I) (a : ℕ) (d : Bytes)
      → IsValid s
      → s.low_end ≤ a
      → a + length d ≤ task_size
      → ((write s a d).1 ≡ ok tt) × Kept s (write s a d).0
  write_step s a d g above inside = (
    (write-ok_iff s a d g).1 (inr (above, inside)),
    record { valid = write-IsValid a d g; same = (write_bounds s a d).1 },
  )

  pub word_step :
      (s : AddressSpace I) (a v : ℕ)
      → IsValid s
      → s.low_end ≤ a
      → a + 4 ≤ task_size
      → ((write_u32 s a v).1 ≡ ok tt) × Kept s (write_u32 s a v).0
  word_step s a v g above inside =
      subst (λ (r : AddressSpace I × Result SegFault (Unit {0})). (r.1 ≡ ok tt) × Kept s r.0)
        (sym (write_u32-eq-write s a v)) (write_step s a (u32_bytes (v % 2 ^ 32)) g above inside)

-- ===== src/Memory/Joined.antt =====
-- Two stores of AddressSpace.write in x86mem.py, one behind the other, against one store of both.
use minixfs.Prelude.{
  ℕ, ◌+◌, ◌-◌, ◌≤◌, ◌<◌, ◌≡◌, ◌∙◌, refl, sym, ap, ap₂, subst, inl, inr, Option, none, List, ltb,
  if◌then◌else◌, lt-cases, length, ◌++◌, Bytes, arith, length-append, get_or, get_or-append_left,
  get_or-append_right, eq_of_get_or, splice, length-splice, get_or-splice_below,
  get_or-splice_above, get_or-splice_inside, ok, Result,
}
use minixfs.Memory.{
  AddressSpace, SegFault, store_low, store_stack, with_stack, flush_icache, write, write_fuel,
}
use minixfs.Memory.Reach.{WriteCase, in_low, in_stack, in_grown, faults, write-cases}
use minixfs.Memory.Inv.{IsValid}
use minixfs.Memory.Flush.{length-flush_icache, flush_icache_clears, flush_icache_keeps}

splice-append :
    (xs : Bytes) (a : ℕ) (d e : Bytes)
    → a + length d + length e ≤ length xs
    → splice (splice xs a d) (a + length d) e ≡ splice xs a (d ++ e)
splice-append xs a d e h =
    eq_of_get_or 0 (splice ys (a + length d) e) (splice xs a (d ++ e))
      (omega (arith, both, one, two)) same
  where
    ys : Bytes
    ys = splice xs a d

    joined : length (d ++ e) ≡ length d + length e
    joined = length-append d e

    one : length ys ≡ length xs
    one = length-splice xs a d (omega arith)

    two : length (splice ys (a + length d) e) ≡ length ys
    two = length-splice ys (a + length d) e (omega (arith, one))

    both : length (splice xs a (d ++ e)) ≡ length xs
    both = length-splice xs a (d ++ e) (omega (arith, joined))

    Same : ℕ → Type 0
    Same i = get_or (splice ys (a + length d) e) i 0 ≡ get_or (splice xs a (d ++ e)) i 0

    first : (j : ℕ) → j < length d → Same (a + j)
    first j p =
        get_or-splice_below ys (a + length d) e (omega (arith, one)) 0 (a + j) (omega arith)
        ∙ get_or-splice_inside xs a d (omega arith) 0 j p
        ∙ sym (
            get_or-splice_inside xs a (d ++ e) (omega arith) 0 j (omega (arith, joined))
            ∙ get_or-append_left 0 d e j p)

    second : (j : ℕ) → j < length e → Same (a + length d + j)
    second j p =
        get_or-splice_inside ys (a + length d) e (omega (arith, one)) 0 j p
        ∙ sym (
            ap (λ k. get_or (splice xs a (d ++ e)) k 0) {x = a + length d + j}
              {y = a + (length d + j)} (omega arith)
            ∙ get_or-splice_inside xs a (d ++ e) (omega arith) 0 (length d + j)
                (omega (arith, joined))
            ∙ get_or-append_right 0 d e (length d + j) (omega arith)
            ∙ ap (λ k. get_or e k 0) {x = length d + j - length d} {y = j} (omega arith))

    same : (i : ℕ) → i < length (splice ys (a + length d) e) → Same i
    same i p = elim (lt-cases i a) [
      | inl q ↦
          get_or-splice_below ys (a + length d) e (omega (arith, one)) 0 i (omega arith)
          ∙ get_or-splice_below xs a d (omega arith) 0 i q
          ∙ sym (get_or-splice_below xs a (d ++ e) (omega arith) 0 i q)
      | inr q ↦ elim (lt-cases i (a + length d)) [
        | inl r ↦ subst Same {x = a + (i - a)} {y = i} (omega arith) (first (i - a) (omega arith))
        | inr r ↦ elim (lt-cases i (a + length d + length e)) [
          | inl t ↦
              subst Same {x = a + length d + (i - (a + length d))} {y = i} (omega arith)
                (second (i - (a + length d)) (omega arith))
          | inr t ↦
              get_or-splice_above ys (a + length d) e (omega (arith, one)) 0 i t
              ∙ get_or-splice_above xs a d (omega arith) 0 i r
              ∙ sym (get_or-splice_above xs a (d ++ e) (omega arith) 0 i (omega (arith, joined)))
        ]
      ]
    ]

flush_icache-append :
    {I : Type 0} (c : List (Option I)) (a n m : ℕ)
    → flush_icache (flush_icache c a n) (a + n) m ≡ flush_icache c a (n + m)
flush_icache-append {I = I} c a n m =
    eq_of_get_or none again whole (omega (arith, len, len', len'')) same
  where
    once : List (Option I)
    once = flush_icache c a n

    again : List (Option I)
    again = flush_icache once (a + n) m

    whole : List (Option I)
    whole = flush_icache c a (n + m)

    len : length once ≡ length c
    len = length-flush_icache c a n

    len' : length again ≡ length once
    len' = length-flush_icache once (a + n) m

    len'' : length whole ≡ length c
    len'' = length-flush_icache c a (n + m)

    cleared : (i : ℕ) → a ≤ i + 15 → i < a + n + m → get_or again i none ≡ none
    cleared i q r = elim (lt-cases (i + 15) (a + n)) [
      | inl t ↦
          flush_icache_keeps once (a + n) m i (inl t) ∙ flush_icache_clears c a n i (omega arith) q
      | inr t ↦ flush_icache_clears once (a + n) m i r t
    ]

    same : (i : ℕ) → i < length again → get_or again i none ≡ get_or whole i none
    same i p = elim (lt-cases (i + 15) a) [
      | inl q ↦
          flush_icache_keeps once (a + n) m i (inl (omega arith))
          ∙ flush_icache_keeps c a n i (inl q)
          ∙ sym (flush_icache_keeps c a (n + m) i (inl q))
      | inr q ↦ elim (lt-cases i (a + n + m)) [
        | inr r ↦
            flush_icache_keeps once (a + n) m i (inr r)
            ∙ flush_icache_keeps c a n i (inr (omega arith))
            ∙ sym (flush_icache_keeps c a (n + m) i (inr (omega arith)))
        | inl r ↦ cleared i q r ∙ sym (flush_icache_clears c a (n + m) i (omega arith) q)
      ]
    ]

-- What is cleared ends with the cache.
no_more :
    {I : Type 0} (c : List (Option I)) (a n m : ℕ)
    → length c ≤ a + n
    → flush_icache c a n ≡ flush_icache c a (n + m)
unfolding flush_icache
no_more c a n m h = ground (arith, h)

module _ {I : Type 0} where
  -- A flush that starts behind the text clears nothing that the one before it has left.
  pub store_low-append :
      (s : AddressSpace I) (a : ℕ) (d e : Bytes)
      → IsValid s
      → a + length d + length e ≤ s.low_end
      → store_low (store_low s a d) (a + length d) e ≡ store_low s a (d ++ e)
  unfolding store_low
  store_low-append s a d e g h = ap₂ (λ l c. record s { low = l; icache = c }) low_eq cache_eq
    where
      low_eq : splice (splice s.low a d) (a + length d) e ≡ splice s.low a (d ++ e)
      low_eq = splice-append s.low a d e (omega (arith, g.low_length))

      flushed : ℕ → ℕ → List (Option I)
      flushed b n = if ltb b s.text_end then flush_icache s.icache b n else s.icache

      cache_eq :
          (if ltb (a + length d) s.text_end
            then flush_icache (flushed a (length d)) (a + length d) (length e)
            else flushed a (length d))
          ≡ flushed a (length (d ++ e))
      cache_eq = elim (lt-cases (a + length d) s.text_end) [
        | inl q ↦
            ground
              (arith, length-append d e, q, flush_icache-append s.icache a (length d) (length e))
        | inr q ↦ elim (lt-cases a s.text_end) [
          | inl r ↦ ground (
            arith,
            length-append d e,
            q,
            r,
            no_more s.icache a (length d) (length e) (omega (arith, g.cache_in)),
          )
          | inr r ↦ ground (arith, q, r)
        ]
      ]

  pub write-low :
      (s : AddressSpace I) (a : ℕ) (d : Bytes)
      → a + length d ≤ s.low_end
      → write s a d ≡ (store_low s a d, ok tt)
  unfolding write write_fuel
  write-low s a d h = ground arith

  pub low_end-store_low :
      (s : AddressSpace I) (a : ℕ) (d : Bytes) → (store_low s a d).low_end ≡ s.low_end
  unfolding store_low
  low_end-store_low s a d = refl

  -- Storing bytes and then those that follow them is storing all of them.
  pub write-append :
      (s : AddressSpace I) (a : ℕ) (d e : Bytes)
      → IsValid s
      → a + length d + length e ≤ s.low_end
      → write (write s a d).0 (a + length d) e ≡ write s a (d ++ e)
  write-append s a d e g h =
      let front : a + length d ≤ s.low_end = omega arith in
      ap (λ (r : AddressSpace I × Result SegFault (Unit {0})). write r.0 (a + length d) e)
        (write-low s a d front)
      ∙ write-low (store_low s a d) (a + length d) e (omega (arith, h, low_end-store_low s a d))
      ∙ ap (λ t. (t, ok tt)) (store_low-append s a d e g h)
      ∙ sym (write-low s a (d ++ e) (omega (arith, h, length-append d e)))

-- A store moves none of the bounds of the low region.
pub write_bounds :
    {I : Type 0} (s : AddressSpace I) (a : ℕ) (d : Bytes)
    → ((write s a d).0.text_end ≡ s.text_end) × ((write s a d).0.low_end ≡ s.low_end)
unfolding store_low store_stack with_stack
write_bounds {I = I} s a d = go (write-cases s a d)
  where
    go :
        WriteCase s a d (write s a d)
        → ((write s a d).0.text_end ≡ s.text_end) × ((write s a d).0.low_end ≡ s.low_end)
    go (in_low h w) = rw w (refl, refl)
    go (in_stack _ _ _ w) = rw w (refl, refl)
    go (in_grown _ _ _ _ w) = rw w (refl, refl)
    go (faults _ (inl w) _) = rw w (refl, refl)
    go (faults _ (inr (_, _, w)) _) = rw w (refl, refl)

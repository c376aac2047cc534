-- ===== src/Processor/Blocks.antt =====
-- The string instructions of cpu86.py that go by one block, against the loop over the elements.
use minixfs.Prelude.{
  ℕ, zero, suc, ◌+◌, ◌*◌, ◌%◌, ◌≤◌, ◌<◌, ◌≡◌, ◌≢◌, ◌∙◌, refl, sym, ap, ap₂, subst, Bool, false, not,
  ◌&&◌, ltb, ◌==◌, if◌then◌else◌, Bool-cases, inl, inr, length, Bytes, [], ◌∷◌, arith, ok, Result,
}
use minixfs.Memory as Memory
use minixfs.Memory.{SegFault, task_size, store_low}
use minixfs.Memory.Inv.{IsValid}
use minixfs.Memory.Keeps.{write-IsValid}
use minixfs.Memory.Joined.{write-low, store_low-append, low_end-store_low}
use minixfs.Processor.Flags.{Width, w8, w16, w32, bytes_of, modulus, Flags}
use minixfs.Processor.Machine.{
  Mem, Regs, OnInt, Prog, Stop, return, Done, run_prog, stos, Rep, no_rep, repe, repne, write_word,
}
use minixfs.Processor.Operands.{word, read_reg, write_reg, reg_of, reg_with}
use minixfs.Processor.Strings.{
  to_bytes, repeated, element, elements, advance, fill_block, repeat_string, h_string,
}
use minixfs.Processor.Cached.Blank.{write_word-eq-write}
use minixfs.Processor.Pieces.{
  low_part, low_part_lem, length-to_bytes, word_bytes_lem, length-repeated, append_nil,
}

-- The eight registers, with the rest.
abbrev pub machine : ℕ → ℕ → ℕ → ℕ → ℕ → ℕ → ℕ → ℕ → ℕ → Flags → Bool → Regs
machine a c d b sp bp si di eip f h = record {
  regs = a ∷ c ∷ d ∷ b ∷ sp ∷ bp ∷ si ∷ di ∷ [];
  eip = eip;
  flags = f;
  halted = h;
}

abbrev Repeats : Rep → Type 0
Repeats rep = rep ≢ no_rep

module _ {W : Type 0} (on_int : OnInt W) (a d bx sp bp si eip : ℕ) (f : Flags) (h : Bool)
    (world : W) where
  abbrev at : ℕ → ℕ → Regs
  at c di = machine a c d bx sp bp si di eip f h

  -- The callback keeps its state.
  abbrev runs : Prog Done → Regs → Mem → Result Stop Done × Regs × Mem × W
  runs p r s = run_prog on_int p r s world

  fill_runs :
      (w : Width) (n c di : ℕ) (s : Mem)
      → (Memory.write s di (repeated (suc n) (to_bytes w (low_part w a)))).1 ≡ ok tt
      → runs (fill_block w di (suc n)) (at c di) s ≡ (
        ok tt,
        at 0 ((di + suc n * bytes_of w) % word),
        (Memory.write s di (repeated (suc n) (to_bytes w (low_part w a)))).0,
        world,
      )
  unfolding fill_block read_reg write_reg reg_of reg_with run_prog
  fill_runs w8 n c di s e = rw (e, run_prog) refl
  fill_runs w16 n c di s e = rw (e, run_prog) refl
  fill_runs w32 n c di s e = rw (e, run_prog) refl

  stos_step :
      (w : Width) (rep : Rep) (n c di : ℕ) (s : Mem)
      → Repeats rep
      → (write_word w s di (low_part w a)).1 ≡ ok tt
      → runs (elements stos rep w false (suc n)) (at c di) s
        ≡ runs
            (elements stos rep w false n)
            (at (n % word) ((di + bytes_of w) % word))
            (write_word w s di (low_part w a)).0
  unfolding elements element advance read_reg write_reg reg_of reg_with run_prog
  stos_step w no_rep n c di s p e = absurd (p refl)
  stos_step w8 repe n c di s p e = rw (e, run_prog) refl
  stos_step w8 repne n c di s p e = rw (e, run_prog) refl
  stos_step w16 repe n c di s p e = rw (e, run_prog) refl
  stos_step w16 repne n c di s p e = rw (e, run_prog) refl
  stos_step w32 repe n c di s p e = rw (e, run_prog) refl
  stos_step w32 repne n c di s p e = rw (e, run_prog) refl

  -- The loop over the elements, where they end in the low region.
  module _ (w : Width) (rep : Rep) (repeats : Repeats rep) (fits : low_part w a < modulus w) where
    abbrev chunk : Bytes
    chunk = to_bytes w (low_part w a)

    first_store :
        (di : ℕ) (s : Mem)
        → IsValid s
        → di + bytes_of w ≤ s.low_end
        → write_word w s di (low_part w a) ≡ (store_low s di chunk, ok tt)
    first_store di s g inside =
        write_word-eq-write w s di (low_part w a) g
        ∙ ap (λ k. Memory.write s di k) (word_bytes_lem w (low_part w a) fits)
        ∙ write-low s di chunk (omega (arith, inside, length-to_bytes w (low_part w a)))

    one_stos :
        (n c di : ℕ) (s : Mem)
        → IsValid s
        → di + bytes_of w ≤ s.low_end
        → n < word
        → runs (elements stos rep w false (suc n)) (at c di) s
          ≡ runs (elements stos rep w false n) (at n (di + bytes_of w)) (store_low s di chunk)
    one_stos n c di s g inside small =
        let stored = first_store di s g inside in
        let n_eq : n % word ≡ n = omega arith in
        let di_eq : (di + bytes_of w) % word ≡ di + bytes_of w =
          omega (arith, inside, g.apart, g.stack_length) in
        stos_step w rep n c di s repeats (ap (λ x. x.1) stored)
        ∙ ap
            (λ (x : Mem × Result SegFault Done).
              runs (elements stos rep w false n) (at (n % word) ((di + bytes_of w) % word)) x.0)
            stored
        ∙ ap
            (λ k.
              runs (elements stos rep w false n) (at k ((di + bytes_of w) % word))
                (store_low s di chunk))
            n_eq
        ∙ ap (λ k. runs (elements stos rep w false n) (at n k) (store_low s di chunk)) di_eq

    elements_fill :
        (n c di : ℕ) (s : Mem)
        → IsValid s
        → di + (bytes_of w + n * bytes_of w) ≤ s.low_end
        → suc n < word
        → runs (elements stos rep w false (suc n)) (at c di) s ≡ (
          ok tt,
          at 0 (di + (bytes_of w + n * bytes_of w)),
          store_low s di (repeated (suc n) chunk),
          world,
        )
    unfolding elements repeated run_prog
    elements_fill zero c di s g inside small =
        one_stos zero c di s g (omega (arith, inside)) (omega arith)
        ∙ ap₂ (λ k e. (ok tt, at 0 k, store_low s di e, world)) {x = di + bytes_of w} (omega arith)
            (sym (append_nil chunk))
    elements_fill (suc n) c di s g inside small =
        let b = bytes_of w in
        let len = length-to_bytes w (low_part w a) in
        let more : b + suc n * b ≡ b + (b + n * b) = omega arith in
        let s1 = store_low s di chunk in
        let valid : IsValid s1 =
          subst (λ (x : Mem × Result SegFault Done). IsValid x.0)
            (write-low s di chunk (omega (arith, len, inside))) (write-IsValid di chunk g) in
        one_stos (suc n) c di s g (omega (arith, inside)) (omega arith)
        ∙ elements_fill n (suc n) (di + b) s1 valid
            (omega (arith, inside, more, low_end-store_low s di chunk)) (omega arith)
        ∙ ap₂ (λ k e. (ok tt, at 0 k, e, world)) {x = di + b + (b + n * b)}
            {y = di + (b + suc n * b)} (omega (arith, more))
            (ap (λ k. store_low s1 k (repeated (suc n) chunk)) {x = di + b} {y = di + length chunk}
                (omega (arith, len))
              ∙ store_low-append s di chunk (repeated (suc n) chunk) g (
                  omega (
                    arith,
                    len,
                    length-repeated (suc n) chunk,
                    ap (λ k. suc n * k) len,
                    inside,
                    more,
                  )))

    fill_lem :
        (n c di : ℕ) (s : Mem)
        → IsValid s
        → di + (bytes_of w + n * bytes_of w) ≤ s.low_end
        → runs (fill_block w di (suc n)) (at c di) s ≡ (
          ok tt,
          at 0 (di + (bytes_of w + n * bytes_of w)),
          store_low s di (repeated (suc n) chunk),
          world,
        )
    fill_lem n c di s g inside =
        let b = bytes_of w in
        let len = length-to_bytes w (low_part w a) in
        let stored : Memory.write s di (repeated (suc n) chunk)
            ≡ (store_low s di (repeated (suc n) chunk), ok tt) =
          write-low s di (repeated (suc n) chunk)
            (omega (arith, length-repeated (suc n) chunk, ap (λ k. suc n * k) len, inside)) in
        let more : (di + suc n * b) % word ≡ di + (b + n * b) =
          omega (arith, inside, g.apart, g.stack_length) in
        fill_runs w n c di s (ap (λ x. x.1) stored)
        ∙ ap₂ (λ k (x : Mem × Result SegFault Done). (ok tt, at 0 k, x.0, world)) more stored

  repeat_string-stos :
      (w : Width) (rep : Rep) (count c di : ℕ) (s : Mem)
      → Repeats rep
      → a < word
      → count < word
      → IsValid s
      → di + count * bytes_of w ≤ s.low_end
      → runs (repeat_string stos rep w (at c di) count) (at c di) s
        ≡ runs (elements stos rep w f.df count) (at c di) s
  unfolding repeat_string
  repeat_string-stos w rep zero c di s repeats fits small g inside = ground arith
  repeat_string-stos w rep (suc n) c di s repeats fits small g inside =
      elim (Bool-cases (not f.df && ltb 1 (suc n))) [
        | inr e ↦ rw e refl
        | inl e ↦
            let up : f.df ≡ false = ground (arith, e) in
            let within : di + (bytes_of w + n * bytes_of w) ≤ s.low_end = omega (arith, inside) in
            let block : runs
                  (if not f.df && ltb 1 (suc n)
                    then fill_block w di (suc n)
                    else elements stos rep w f.df (suc n))
                  (at c di) s
                ≡ runs (fill_block w di (suc n)) (at c di) s =
              rw e refl in
            block
            ∙ fill_lem w rep repeats (low_part_lem w a fits) n c di s g within
            ∙ sym (elements_fill w rep repeats (low_part_lem w a fits) n c di s g within small)
            ∙ ap (λ k. runs (elements stos rep w k (suc n)) (at c di) s) (sym up)
      ]

  some_left :
      (w : Width) (rep : Rep) (n di : ℕ) (s : Mem)
      → runs
          (if suc n == 0 then return tt else repeat_string stos rep w (at (suc n) di) (suc n))
          (at (suc n) di)
          s
        ≡ runs (repeat_string stos rep w (at (suc n) di) (suc n)) (at (suc n) di) s
  some_left w rep n di s =
      let counted : (suc n == 0) ≡ false = ground arith in
      ap
        (λ t.
          runs (if t then return tt else repeat_string stos rep w (at (suc n) di) (suc n))
            (at (suc n) di) s)
        counted

  -- A repeated `stos` of `ecx` elements, which fills one block when it goes up and has more than one,
  -- does what the loop over the elements does, where they lie in the low region: the same result and
  -- registers, the same bytes and the same cache.
  pub h_string-stos :
      (w : Width) (rep : Rep) (c di : ℕ) (s : Mem)
      → rep ≢ no_rep
      → a < word
      → c < word
      → IsValid s
      → di + c * bytes_of w ≤ s.low_end
      → runs (h_string stos rep w) (at c di) s ≡ runs (elements stos rep w f.df c) (at c di) s
  unfolding h_string run_prog elements
  h_string-stos w no_rep c di s repeats fits small g inside = absurd (repeats refl)
  h_string-stos w repe zero di s repeats fits small g inside = refl
  h_string-stos w repne zero di s repeats fits small g inside = refl
  h_string-stos w repe (suc n) di s repeats fits small g inside =
      some_left w repe n di s
      ∙ repeat_string-stos w repe (suc n) (suc n) di s repeats fits small g inside
  h_string-stos w repne (suc n) di s repeats fits small g inside =
      some_left w repne n di s
      ∙ repeat_string-stos w repne (suc n) (suc n) di s repeats fits small g inside

-- ===== src/Exec/Fits.antt =====
-- The initial stack that kexec.py builds: when it can be stored, and where it begins.
use minixfs.Prelude.{
  ℕ, ◌+◌, ◌-◌, ◌*◌, ◌/◌, ◌≤◌, ◌≡◌, ◌∙◌, refl, ltb, if◌then◌else◌, List, [], ◌∷◌, ◌++◌, length,
  length-append, Bytes, arith, ok, err,
}
use minixfs.Memory.{AddressSpace, task_size, write_u32}
use minixfs.Memory.Inv.{IsValid}
use minixfs.Memory.Apart.{Kept, write_step, word_step}
use minixfs.Exec.Stack.{
  arg_area, total_length, put_strings, put_words, put_tables, setup_stack, too_big,
}

module _ {I : Type 0} where
  put_strings_lem :
      (ts : List Bytes) (p : ℕ) (s : AddressSpace I)
      → IsValid s
      → s.low_end + total_length ts ≤ p
      → p ≤ task_size
      → (addrs : List ℕ) × ((put_strings ts p s).0 ≡ ok (addrs, p - total_length ts))
        × (length addrs ≡ length ts)
        × Kept s (put_strings ts p s).1
  unfolding put_strings
  put_strings_lem [] p s g room top = ([], ground arith, refl, record { valid = g; same = refl })
  put_strings_lem (t ∷ ts) p s g room top =
      let (addrs, e, n, k) = put_strings_lem ts p s g (omega (arith, room)) top in
      let q = p - total_length ts in
      let a = q - (length t + 1) in
      let s1 = (put_strings ts p s).1 in
      let here : a ≡ p - (length t + 1 + total_length ts) = omega arith in
      let (w, k') =
        write_step s1 a (t ++ 0 ∷ []) k.valid (omega (arith, room, k.same))
          (omega (arith, room, top, length-append t (0 ∷ []))) in
      (
        a ∷ addrs,
        ground (arith, e, w, here),
        ground (arith, n),
        record {
          valid = rw (e, w, put_strings) k'.valid;
          same = rw (e, w, put_strings) (k'.same ∙ k.same);
        },
      )

  put_words_lem :
      (vs : List ℕ) (a : ℕ) (s : AddressSpace I)
      → IsValid s
      → s.low_end ≤ a
      → a + 4 * length vs ≤ task_size
      → ((put_words a vs s).0 ≡ ok tt) × Kept s (put_words a vs s).1
  unfolding put_words
  put_words_lem [] a s g above inside = (refl, record { valid = g; same = refl })
  put_words_lem (v ∷ vs) a s g above inside =
      let (w, k) = word_step s a v g above (omega (arith, inside)) in
      let (e, k') =
        put_words_lem vs (a + 4) (write_u32 s a v).0 k.valid (omega (arith, above, k.same))
          (omega (arith, inside)) in
      (
        ground (arith, w, e),
        record { valid = rw (w, put_words) k'.valid; same = rw (w, put_words) (k'.same ∙ k.same) },
      )

  put_tables_lem :
      (b : ℕ) (args envs : List ℕ) (s : AddressSpace I)
      → IsValid s
      → s.low_end + 12 ≤ b
      → b + 4 * (length args + 1) + 4 * (length envs + 1) ≤ task_size
      → (put_tables b args envs s).0 ≡ ok tt
  unfolding put_tables
  put_tables_lem b args envs s g above inside =
      let c = b + 4 * (length args + 1) in
      let (w1, k1) = word_step s (b - 4) c g (omega arith) (omega arith) in
      let s1 = (write_u32 s (b - 4) c).0 in
      let (w2, k2) =
        word_step s1 (b - 8) b k1.valid (omega (arith, above, k1.same)) (omega arith) in
      let s2 = (write_u32 s1 (b - 8) b).0 in
      let (w3, k3) =
        word_step s2 (b - 12) (length args) k2.valid (omega (arith, above, k1.same, k2.same))
          (omega arith) in
      let s3 = (write_u32 s2 (b - 12) (length args)).0 in
      let (w4, k4) =
        put_words_lem (args ++ 0 ∷ []) b s3 k3.valid
          (omega (arith, above, k1.same, k2.same, k3.same))
          (omega (arith, inside, length-append args (0 ∷ []))) in
      let s4 = (put_words b (args ++ 0 ∷ []) s3).1 in
      let (w5, k5) =
        put_words_lem (envs ++ 0 ∷ []) c s4 k4.valid
          (omega (arith, above, k1.same, k2.same, k3.same, k4.same))
          (omega (arith, inside, length-append envs (0 ∷ []))) in
      ground (arith, w1, w2, w3, w4, w5)

  -- In a valid address space with room above the low region, `setup_stack` refuses exactly what is
  -- longer than the argument area, faults nowhere, and returns the address that is left below the
  -- strings, aligned to words, the two arrays with their ends and three words.
  pub setup_stack_lem :
      (s : AddressSpace I) (argv envp : List Bytes)
      → IsValid s
      → s.low_end + total_length argv + total_length envp + 4 * (length argv + length envp) + 24
        ≤ task_size
      → (setup_stack s argv envp).0 ≡ (
          if ltb arg_area (total_length argv + total_length envp)
          then err too_big
          else ok (
              (task_size - total_length envp - total_length argv) / 4 * 4
              - 4 * (length argv + length envp)
              - 20))
  unfolding setup_stack
  setup_stack_lem s argv envp g room =
      let (envs, e1, n1, k1) =
        put_strings_lem envp task_size s g (omega (arith, room)) (omega arith) in
      let s1 = (put_strings envp task_size s).1 in
      let p = task_size - total_length envp in
      let (args, e2, n2, k2) =
        put_strings_lem argv p s1 k1.valid (omega (arith, room, k1.same)) (omega arith) in
      let s2 = (put_strings argv p s1).1 in
      let b = (p - total_length argv) / 4 * 4 - 4 * (length envp + 1) - 4 * (length argv + 1) in
      let e3 : (put_tables b args envs s2).0 ≡ ok tt =
        put_tables_lem b args envs s2 k2.valid (omega (arith, room, k1.same, k2.same))
          (omega (arith, room, n1, n2)) in
      let sp : b - 12 ≡ (p - total_length argv) / 4 * 4 - 4 * (length argv + length envp) - 20 =
        omega (arith, room) in
      ground (arith, e1, e2, e3, sp)

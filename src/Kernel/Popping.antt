-- ===== src/Kernel/Popping.antt =====
-- What the return of a handler pops, for `_sigreturn` of kernel.py.
use minixfs.Prelude.{
  ℕ, ◌+◌, ◌%◌, ◌^◌, ◌≤◌, ◌≡◌, refl, ap, ◌∙◌, Bool, true, false, List, [], ◌∷◌, arith, Result, ok,
  err,
}
use minixfs.Memory.{SegFault, task_size, read_u32}
use minixfs.Kernel.State.{Process}
use minixfs.Kernel.Sigreturn.{
  P, ◌>>=◌, ◌>>◌, eflags_set, set_reg, set_eflags, set_eip, set_blocked, pop_word, pop_mask,
  restore, sigreturn,
}

module _ {I : Type 0} where
  -- A process with these registers.
  abbrev pub at : Process I → ℕ → ℕ → ℕ → ℕ → ℕ → ℕ → ℕ → ℕ → Process I
  at h a c d b sp bp si di = record h {
    cpu = record h.cpu { regs = a ∷ c ∷ d ∷ b ∷ sp ∷ bp ∷ si ∷ di ∷ [] };
  }

  pop_lem :
      (h : Process I) (a c d b sp bp si di v : ℕ)
      → sp + 4 ≤ task_size
      → read_u32 h.mem sp ≡ ok v
      → pop_word (at h a c d b sp bp si di) ≡ (ok v, at h a c d b (sp + 4) bp si di)
  unfolding pop_word
  pop_lem h a c d b sp bp si di v top e =
      rw (e, pop_word)
        (ap (λ k. (ok v, at h a c d b k bp si di)) {x = (sp + 4) % 2 ^ 32} (omega arith))

  bind_lem :
      {A B : Type 0} (m : P I A) (f : A → P I B) (p p' : Process I) (a : A)
      → m p ≡ (ok a, p')
      → (m >>= f) p ≡ f a p'
  bind_lem {A = A} m f p p' a e =
      ap (λ (x : Result SegFault A × Process I). elim x.0 [ ok a ↦ f a x.1 | err y ↦ (err y, x.1) ])
        e

  restore_lem :
      (h : Process I) (a c d b s bp si di eax ecx edx flags eip : ℕ)
      → s + 20 ≤ task_size
      → read_u32 h.mem s ≡ ok eax
      → read_u32 h.mem (s + 4) ≡ ok ecx
      → read_u32 h.mem (s + 4 + 4) ≡ ok edx
      → read_u32 h.mem (s + 4 + 4 + 4) ≡ ok flags
      → read_u32 h.mem (s + 4 + 4 + 4 + 4) ≡ ok eip
      → restore (at h a c d b s bp si di) ≡ (
        ok tt,
        record h {
          cpu = record {
            regs = eax ∷ ecx ∷ edx ∷ b ∷ (s + 4 + 4 + 4 + 4 + 4) ∷ bp ∷ si ∷ di ∷ [];
            eip = eip;
            eflags = eflags_set flags;
          };
        },
      )
  unfolding restore
  restore_lem h a c d b s bp si di eax ecx edx flags eip top e0 e1 e2 e3 e4 =
      let h3 = record h { cpu = record h.cpu { eflags = eflags_set flags } } in
      bind_lem pop_word
        (λ v.
          set_reg 0 v
          >> (pop_word >>= λ v.
              set_reg 1 v
              >> (pop_word >>= λ v.
                  set_reg 2 v >> (pop_word >>= λ v. set_eflags v >> (pop_word >>= set_eip)))))
        (at h a c d b s bp si di) (at h a c d b (s + 4) bp si di) eax
        (pop_lem h a c d b s bp si di eax (omega (arith, top)) e0)
      ∙ bind_lem pop_word
          (λ v.
            set_reg 1 v
            >> (pop_word >>= λ v.
                set_reg 2 v >> (pop_word >>= λ v. set_eflags v >> (pop_word >>= set_eip))))
          (at h eax c d b (s + 4) bp si di) (at h eax c d b (s + 4 + 4) bp si di) ecx
          (pop_lem h eax c d b (s + 4) bp si di ecx (omega (arith, top)) e1)
      ∙ bind_lem pop_word
          (λ v. set_reg 2 v >> (pop_word >>= λ v. set_eflags v >> (pop_word >>= set_eip)))
          (at h eax ecx d b (s + 4 + 4) bp si di) (at h eax ecx d b (s + 4 + 4 + 4) bp si di) edx
          (pop_lem h eax ecx d b (s + 4 + 4) bp si di edx (omega (arith, top)) e2)
      ∙ bind_lem pop_word (λ v. set_eflags v >> (pop_word >>= set_eip))
          (at h eax ecx edx b (s + 4 + 4 + 4) bp si di)
          (at h eax ecx edx b (s + 4 + 4 + 4 + 4) bp si di) flags
          (pop_lem h eax ecx edx b (s + 4 + 4 + 4) bp si di flags (omega (arith, top)) e3)
      ∙ bind_lem pop_word set_eip (at h3 eax ecx edx b (s + 4 + 4 + 4 + 4) bp si di)
          (at h3 eax ecx edx b (s + 4 + 4 + 4 + 4 + 4) bp si di) eip
          (pop_lem h3 eax ecx edx b (s + 4 + 4 + 4 + 4) bp si di eip (omega (arith, top)) e4)

  then_lem :
      {A B : Type 0} (m : P I A) (n : P I B) (p p' : Process I) (a : A)
      → m p ≡ (ok a, p')
      → (m >> n) p ≡ n p'
  then_lem {A = A} m n p p' a e =
      ap (λ (x : Result SegFault A × Process I). elim x.0 [ ok a ↦ n x.1 | err y ↦ (err y, x.1) ]) e

  pop_mask_none :
      (h : Process I) (a c d b sp bp si di : ℕ) (frames : List Bool)
      → h.sigframes ≡ false ∷ frames
      → pop_mask (at h a c d b sp bp si di)
        ≡ (ok tt, at (record h { sigframes = frames }) a c d b sp bp si di)
  unfolding pop_mask
  pop_mask_none h a c d b sp bp si di frames n = rw (n, pop_mask) refl

  pop_mask_some :
      (h : Process I) (a c d b sp bp si di v : ℕ) (frames : List Bool)
      → h.sigframes ≡ true ∷ frames
      → sp + 4 ≤ task_size
      → read_u32 h.mem sp ≡ ok v
      → pop_mask (at h a c d b sp bp si di)
        ≡ (ok tt, at (record h { sigframes = frames; blocked = v }) a c d b (sp + 4) bp si di)
  unfolding pop_mask
  pop_mask_some h a c d b sp bp si di v frames n top e =
      let q = record h { sigframes = frames } in
      rw (n, pop_mask)
        (bind_lem pop_word set_blocked (at q a c d b sp bp si di) (at q a c d b (sp + 4) bp si di) v
          (pop_lem q a c d b sp bp si di v top e))

  -- What a return restores, and what it leaves.
  abbrev pub restored : Process I → List ℕ → ℕ → ℕ → Process I
  restored h regs eip eflags = record h { cpu = record { regs = regs; eip = eip; eflags = eflags } }

  pub sigreturn_plain :
      (h : Process I) (a c d b s bp si di sig eax ecx edx flags eip : ℕ) (frames : List Bool)
      → s + 24 ≤ task_size
      → h.sigframes ≡ false ∷ frames
      → read_u32 h.mem s ≡ ok sig
      → read_u32 h.mem (s + 4) ≡ ok eax
      → read_u32 h.mem (s + 4 + 4) ≡ ok ecx
      → read_u32 h.mem (s + 4 + 4 + 4) ≡ ok edx
      → read_u32 h.mem (s + 4 + 4 + 4 + 4) ≡ ok flags
      → read_u32 h.mem (s + 4 + 4 + 4 + 4 + 4) ≡ ok eip
      → sigreturn (at h a c d b s bp si di) ≡ (
        ok tt,
        restored
            (record h { sigframes = frames })
            (eax ∷ ecx ∷ edx ∷ b ∷ (s + 4 + 4 + 4 + 4 + 4 + 4) ∷ bp ∷ si ∷ di ∷ [])
            eip
            (eflags_set flags),
      )
  unfolding sigreturn
  sigreturn_plain h a c d b s bp si di sig eax ecx edx flags eip frames top n e0 e1 e2 e3 e4 e5 =
      let h1 = record h { sigframes = frames } in
      bind_lem pop_word (λ _. pop_mask >> restore) (at h a c d b s bp si di)
        (at h a c d b (s + 4) bp si di) sig
        (pop_lem h a c d b s bp si di sig (omega (arith, top)) e0)
      ∙ then_lem pop_mask restore (at h a c d b (s + 4) bp si di) (at h1 a c d b (s + 4) bp si di)
          tt (pop_mask_none h a c d b (s + 4) bp si di frames n)
      ∙ restore_lem h1 a c d b (s + 4) bp si di eax ecx edx flags eip (omega (arith, top)) e1 e2 e3
          e4 e5

  pub sigreturn_masked :
      (h : Process I) (a c d b s bp si di sig mask eax ecx edx flags eip : ℕ) (frames : List Bool)
      → s + 28 ≤ task_size
      → h.sigframes ≡ true ∷ frames
      → read_u32 h.mem s ≡ ok sig
      → read_u32 h.mem (s + 4) ≡ ok mask
      → read_u32 h.mem (s + 4 + 4) ≡ ok eax
      → read_u32 h.mem (s + 4 + 4 + 4) ≡ ok ecx
      → read_u32 h.mem (s + 4 + 4 + 4 + 4) ≡ ok edx
      → read_u32 h.mem (s + 4 + 4 + 4 + 4 + 4) ≡ ok flags
      → read_u32 h.mem (s + 4 + 4 + 4 + 4 + 4 + 4) ≡ ok eip
      → sigreturn (at h a c d b s bp si di) ≡ (
        ok tt,
        restored
            (record h { sigframes = frames; blocked = mask })
            (eax ∷ ecx ∷ edx ∷ b ∷ (s + 4 + 4 + 4 + 4 + 4 + 4 + 4) ∷ bp ∷ si ∷ di ∷ [])
            eip
            (eflags_set flags),
      )
  unfolding sigreturn
  sigreturn_masked h a c d b s bp si di sig mask eax ecx edx flags eip frames top n e0 em e1 e2 e3
        e4 e5 =
      let h1 = record h { sigframes = frames; blocked = mask } in
      bind_lem pop_word (λ _. pop_mask >> restore) (at h a c d b s bp si di)
        (at h a c d b (s + 4) bp si di) sig
        (pop_lem h a c d b s bp si di sig (omega (arith, top)) e0)
      ∙ then_lem pop_mask restore (at h a c d b (s + 4) bp si di)
          (at h1 a c d b (s + 4 + 4) bp si di) tt
          (pop_mask_some h a c d b (s + 4) bp si di mask frames n (omega (arith, top)) em)
      ∙ restore_lem h1 a c d b (s + 4 + 4) bp si di eax ecx edx flags eip (omega (arith, top)) e1 e2
          e3 e4 e5

-- ===== src/Processor/Cached/Same.antt =====
-- A run of cpu86.py with the cache of decoded instructions against one that decodes each time.
use minixfs.Prelude.{
  ◌⊎◌, ℕ, zero, suc, ◌+◌, ◌≤◌, ◌≡◌, refl, sym, ap, subst, ◌∙◌, leb, Bool-cases, Result-cases, inl,
  inr, arith, Result,
}
use minixfs.Memory as Memory
use minixfs.Memory.{SegFault}
use minixfs.Processor.Machine.{
  Mem, Regs, Prog, Stop, ret_val, stop, get, put, load, store, load_bytes, store_bytes, interrupt,
  read_word, write_word, run_prog, OnInt, Done,
}
use minixfs.Processor.Opcodes.{decode}
use minixfs.Processor.Run.{
  perform, magic_eip_base, fetch_plain, fetch_cached, OnFault, is_fault, is_halt, Round, goes_on,
  ends, Outcome, one, round, run_loop, run,
}
use minixfs.Processor.Cached.Blank.{
  blank, read_word-blank, write_word-blank, write-blank, read-blank,
}
use minixfs.Processor.Cached.Footprint.{decode-blank, decode_ends}
use minixfs.Processor.Cached.Fetching.{ShortAt, fetch-blank}
use minixfs.Processor.Cached.Good.{Good, write-Good, write_word-Good}

-- It does the same without the cache as with a right one, which it leaves right.
abbrev pub Blind : {A W : Type 0} → (Regs → Mem → W → Result Stop A × Regs × Mem × W) → Type 0
Blind {W = W} f =
    (r : Regs) (s : Mem) (t : W)
    → Good s
    → (f r (blank s) t ≡ ((f r s t).0, (f r s t).1, blank (f r s t).2, (f r s t).3))
      × Good (f r s t).2

module _ {W : Type 0} (on_int : OnInt W) (blind : (v : ℕ) → Blind (on_int v)) {A : Type 0} where
  run_prog-Blind : (p : Prog A) → Blind (run_prog on_int p)
  unfolding run_prog
  run_prog-Blind (ret_val a) r s t g = (refl, g)
  run_prog-Blind (stop x) r s t g = (refl, g)
  run_prog-Blind (get k) r s t g = run_prog-Blind (k r) r s t g
  run_prog-Blind (put r' p) r s t g = run_prog-Blind p r' s t g
  run_prog-Blind (load w a k) r s t g = elim (Result-cases (read_word w s a)) [
    | inl (v, e) ↦
        let (same, g') = run_prog-Blind (k v) r s t g in
        (ground (arith, e, read_word-blank w s a, same), rw (e, run_prog) g')
    | inr (f, e) ↦ (ground (arith, e, read_word-blank w s a), rw (e, run_prog) g)
  ]
  run_prog-Blind (store w a v p) r s t g =
      let bl = write_word-blank w s a v g.valid in
      let g1 = write_word-Good w s a v g in
      elim (Result-cases (write_word w s a v).1) [
        | inl (u, e) ↦
            let (same, g') = run_prog-Blind p r (write_word w s a v).0 t g1 in
            (ground (arith, e, bl, same), rw (e, run_prog) g')
        | inr (f, e) ↦ (ground (arith, e, bl), rw (e, run_prog) g1)
      ]
  run_prog-Blind (load_bytes a n k) r s t g = elim (Result-cases (Memory.read s a n)) [
    | inl (d, e) ↦
        let (same, g') = run_prog-Blind (k d) r s t g in
        (ground (arith, e, read-blank s a n, same), rw (e, run_prog) g')
    | inr (f, e) ↦ (ground (arith, e, read-blank s a n), rw (e, run_prog) g)
  ]
  run_prog-Blind (store_bytes a d p) r s t g =
      let bl = write-blank s a d in
      let g1 = write-Good s a d g in
      elim (Result-cases (Memory.write s a d).1) [
        | inl (u, e) ↦
            let (same, g') = run_prog-Blind p r (Memory.write s a d).0 t g1 in
            (ground (arith, e, bl, same), rw (e, run_prog) g')
        | inr (f, e) ↦ (ground (arith, e, bl), rw (e, run_prog) g1)
      ]
  run_prog-Blind (interrupt v p) r s t g =
      let (bl, g1) = blind v r s t g in
      elim (Result-cases (on_int v r s t).0) [
        | inl (u, e) ↦
            let (same, g') =
              run_prog-Blind p (on_int v r s t).1 (on_int v r s t).2 (on_int v r s t).3 g1 in
            (ground (arith, e, bl, same), rw (e, run_prog) g')
        | inr (f, e) ↦ (ground (arith, e, bl), rw (e, run_prog) g1)
      ]

-- The outcomes without the cache.
abbrev pub blank_round : {W : Type 0} → Round W → Round W
blank_round (goes_on r s t) = goes_on r (blank s) t
blank_round (ends x k r s t) = ends x k r (blank s) t

abbrev pub blank_outcome : {W : Type 0} → Outcome W → Outcome W
blank_outcome (x, count, r, s, t) = (x, count, r, blank s, t)

abbrev pub GoodRound : {W : Type 0} → Round W → Type 0
GoodRound (goes_on r s t) = Good s
GoodRound (ends x k r s t) = Good s

-- What holds where a round goes on.
abbrev Afterwards : {W : Type 0} → Round W → (Regs → Mem → W → Type 0) → Type 0
Afterwards (goes_on r s t) p = p r s t
Afterwards (ends x k r s t) p = Unit

Round-cases :
    {W : Type 0} (o : Round W)
    → ((r : Regs) × (s : Mem) × (t : W) × (o ≡ goes_on r s t))
      ⊎ ((x : Result Stop Done) × (k : ℕ) × (r : Regs) × (s : Mem) × (t : W) × (o ≡ ends x k r s t))
Round-cases (goes_on r s t) = inl (r, s, t, refl)
Round-cases (ends x k r s t) = inr (x, k, r, s, t, refl)

module _ {W : Type 0} (on_int : OnInt W) (on_fault : OnFault W) where
  -- No instruction that `n` rounds without a cache come to has more than 15 bytes.
  unfoldable pub ShortRun : ℕ → Regs → Mem → W → Type 0
  ShortRun zero r s t = Unit
  ShortRun (suc n) r s t =
      ShortAt r s
      × ((r' : Regs) (s' : Mem) (t' : W)
          → round fetch_plain on_int on_fault r s t ≡ goes_on r' s' t'
          → ShortRun n r' s' t')

  -- A round that is computed, for a run that is.
  pub next-ShortRun :
      (n : ℕ) (r r' : Regs) (s s' : Mem) (t t' : W)
      → (decode s r.eip r.eip).1 ≤ r.eip + 15
      → round fetch_plain on_int on_fault r s t ≡ goes_on r' s' t'
      → ShortRun n r' s' t'
      → ShortRun (suc n) r s t
  unfolding ShortRun
  next-ShortRun n r r' s s' t t' short turn rest = (
    λ e end h. omega (arith, short, (decode_ends s r.eip r.eip end e h).1, ap (λ x. x.1) h),
    λ r1 s1 t1 h.
        let same = sym turn ∙ h in subst (λ (o : Round W). Afterwards o (ShortRun n)) same rest,
  )

-- Every step of a run does the same without the cache.
module _ {W : Type 0} (on_int : OnInt W) (blind : (v : ℕ) → Blind (on_int v)) (on_fault : OnFault W)
    (blind_fault : (f : Stop) → Blind (on_fault f)) where
  one-Blind :
      (r : Regs) (s : Mem) (t : W)
      → Good s
      → ShortAt r s
      → (one fetch_plain on_int on_fault r (blank s) t ≡ (
        (one fetch_cached on_int on_fault r s t).0,
        (one fetch_cached on_int on_fault r s t).1,
        blank (one fetch_cached on_int on_fault r s t).2,
        (one fetch_cached on_int on_fault r s t).3,
      ))
        × Good (one fetch_cached on_int on_fault r s t).2
  unfolding one
  one-Blind r s t g short = elim (Bool-cases (leb magic_eip_base r.eip)) [
    | inl y ↦ (ground (arith, y), rw (y, one) g)
    | inr n ↦
        let (same, g1) = fetch-blank r s g short in
        elim (Result-cases (fetch_cached r s).0) [
          | inl (e, h) ↦
              let (done, g2) =
                run_prog-Blind on_int blind (perform e.handler e) (fetch_cached r s).1
                  (fetch_cached r s).2 t g1 in
              (ground (arith, n, same, h, done), rw (n, h, one) g2)
          | inr (f, h) ↦ (ground (arith, n, same, h), rw (n, h, one) g1)
        ]
  ]

  round-Blind :
      (r : Regs) (s : Mem) (t : W)
      → Good s
      → ShortAt r s
      → (round fetch_plain on_int on_fault r (blank s) t
          ≡ blank_round (round fetch_cached on_int on_fault r s t))
        × GoodRound (round fetch_cached on_int on_fault r s t)
  unfolding round
  round-Blind r s t g short =
      let (same, g1) = one-Blind r s t g short in
      let r1 = (one fetch_cached on_int on_fault r s t).1 in
      let s1 = (one fetch_cached on_int on_fault r s t).2 in
      let t1 = (one fetch_cached on_int on_fault r s t).3 in
      elim (Result-cases (one fetch_cached on_int on_fault r s t).0) [
        | inl (u, h) ↦ (ground (arith, same, h), rw (h, round) g1)
        | inr (f, h) ↦ elim (Bool-cases (is_halt f)) [
          | inl y ↦ (ground (arith, same, h, y), rw (h, y, round) g1)
          | inr n ↦ elim (Bool-cases (is_fault f)) [
            | inl y ↦
                let (bl, g2) = blind_fault f r1 s1 t1 g1 in
                elim (Result-cases (on_fault f r1 s1 t1).0) [
                  | inl (u, k) ↦ (ground (arith, same, h, n, y, bl, k), rw (h, n, y, k, round) g2)
                  | inr (x, k) ↦ elim (Bool-cases (is_halt x)) [
                    | inl i ↦
                        (ground (arith, same, h, n, y, bl, k, i), rw (h, n, y, k, i, round) g2)
                    | inr i ↦
                        (ground (arith, same, h, n, y, bl, k, i), rw (h, n, y, k, i, round) g2)
                  ]
                ]
            | inr m ↦ (ground (arith, same, h, n, m), rw (h, n, m, round) g1)
          ]
        ]
      ]

  run_loop-Blind :
      (n count : ℕ) (r : Regs) (s : Mem) (t : W)
      → Good s
      → ShortRun on_int on_fault n r (blank s) t
      → run_loop fetch_plain on_int on_fault n count r (blank s) t
        ≡ blank_outcome (run_loop fetch_cached on_int on_fault n count r s t)
  unfolding run_loop ShortRun
  run_loop-Blind zero count r s t g short = refl
  run_loop-Blind (suc n) count r s t g short =
      let at : ShortAt r s = λ e end h. short.0 e end (decode-blank s r.eip r.eip ∙ h) in
      let (same, g1) = round-Blind r s t g at in
      elim (Round-cases (round fetch_cached on_int on_fault r s t)) [
        | inl (r', s', t', h) ↦
            let plain : round fetch_plain on_int on_fault r (blank s) t ≡ goes_on r' (blank s') t' =
              same ∙ ap blank_round h in
            let g' : Good s' = subst GoodRound h g1 in
            ground (
              arith,
              h,
              plain,
              run_loop-Blind n (count + 1) r' s' t' g' (short.1 r' (blank s') t' plain),
            )
        | inr (x, k, r', s', t', h) ↦
            let plain : round fetch_plain on_int on_fault r (blank s) t
                ≡ ends x k r' (blank s') t' =
              same ∙ ap blank_round h in
            ground (arith, h, plain)
      ]

  -- A run with a right cache returns what a run without a cache returns, on the same memory but for
  -- the cache, as long as no instruction that it comes to has more than 15 bytes and the callbacks of
  -- the kernel neither look at the cache nor leave it wrong.
  pub run-blank :
      (n : ℕ) (r : Regs) (s : Mem) (t : W)
      → Good s
      → ShortRun on_int on_fault n r (blank s) t
      → run fetch_plain on_int on_fault n r (blank s) t
        ≡ blank_outcome (run fetch_cached on_int on_fault n r s t)
  unfolding run
  run-blank n r s t g short = elim (Bool-cases r.halted) [
    | inl y ↦ ground (arith, y)
    | inr m ↦ ground (arith, m, run_loop-Blind n 0 r s t g short)
  ]

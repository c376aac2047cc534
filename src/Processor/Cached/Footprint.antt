-- ===== src/Processor/Cached/Footprint.antt =====
-- What a decoder of cpu86.py reads: the bytes from its start to its end, and no cache.
use minixfs.Prelude.{
  ℕ, ◌+◌, ◌-◌, ◌≤◌, ◌<◌, ◌≡◌, refl, sym, ap, ◌∙◌, Result-cases, inl, inr, get_or, arith, Result, ok,
  Option, none, some,
}
use minixfs.Memory.{SegFault, read_u8, read_u16, read_u32}
use minixfs.Processor.Flags.{Width, w8, w16, w32, bytes_of}
use minixfs.Processor.Machine.{Insn, Mem, read_word}
use minixfs.Processor.Fetch.{Decoder, done, fetch, commit, position, run_dec}
use minixfs.Processor.Opcodes.{decode, instruction, with_len}
use minixfs.Processor.Cached.Blank.{blank, read_word-blank}

-- The same bytes of the low region from `a` up to `b`.
pub record Agree (s t : Mem) (a b : ℕ) : Type 0 where
  pub ends : t.low_end ≡ s.low_end
  pub inside : b ≤ s.low_end
  pub bytes : (k : ℕ) → a ≤ k → k < b → get_or t.low k 0 ≡ get_or s.low k 0

read_word-Agree :
    (w : Width) (s t : Mem) (a b : ℕ)
    → Agree s t a b
    → a + bytes_of w ≤ b
    → read_word w t a ≡ read_word w s a
unfolding read_u8 read_u16 read_u32
read_word-Agree w8 s t a b g h =
    ground (arith, g.ends, g.inside, g.bytes a (omega arith) (omega arith))
read_word-Agree w16 s t a b g h = ground (
  arith,
  g.ends,
  g.inside,
  g.bytes a (omega arith) (omega arith),
  g.bytes (a + 1) (omega arith) (omega arith),
)
read_word-Agree w32 s t a b g h = ground (
  arith,
  g.ends,
  g.inside,
  g.bytes a (omega arith) (omega arith),
  g.bytes (a + 1) (omega arith) (omega arith),
  g.bytes (a + 2) (omega arith) (omega arith),
  g.bytes (a + 2 + 1) (omega arith) (omega arith),
)

rest-Agree : (s t : Mem) (a a' b : ℕ) → Agree s t a b → a ≤ a' → Agree s t a' b
rest-Agree s t a a' b g h = record {
  ends = g.ends;
  inside = g.inside;
  bytes = λ k p q. g.bytes k (omega arith) q;
}

module _ {A : Type 0} where
  pub run_dec_ends :
      (p : Decoder A) (s : Mem) (a eip end : ℕ) (x : A) → run_dec p s a eip ≡ (ok x, end) → a ≤ end
  unfolding run_dec
  run_dec_ends (done y) s a eip end x h = ground (arith, h)
  run_dec_ends (fetch w k) s a eip end x h = elim (Result-cases (read_word w s a)) [
    | inl (v, e) ↦
        omega (arith, run_dec_ends (k v) s (a + bytes_of w) eip end x (ground (arith, h, e)))
    | inr (f, e) ↦ absurd (ground (arith, h, e))
  ]
  run_dec_ends (commit p) s a eip end x h = run_dec_ends p s a a end x h
  run_dec_ends (position k) s a eip end x h = run_dec_ends (k a) s a eip end x h

  run_dec-Agree :
      (p : Decoder A) (s t : Mem) (a eip end : ℕ) (x : A)
      → run_dec p s a eip ≡ (ok x, end)
      → Agree s t a end
      → run_dec p t a eip ≡ (ok x, end)
  unfolding run_dec
  run_dec-Agree (done y) s t a eip end x h g = h
  run_dec-Agree (fetch w k) s t a eip end x h g = elim (Result-cases (read_word w s a)) [
    | inl (v, e) ↦
        let h' : run_dec (k v) s (a + bytes_of w) eip ≡ (ok x, end) = ground (arith, h, e) in
        let up : a + bytes_of w ≤ end = run_dec_ends (k v) s (a + bytes_of w) eip end x h' in
        let same : read_word w t a ≡ ok v = read_word-Agree w s t a end g up ∙ e in
        let next =
          run_dec-Agree (k v) s t (a + bytes_of w) eip end x h'
            (rest-Agree s t a (a + bytes_of w) end g (omega arith)) in
        ground (arith, same, next)
    | inr (f, e) ↦ absurd (ground (arith, h, e))
  ]
  run_dec-Agree (commit p) s t a eip end x h g = run_dec-Agree p s t a a end x h g
  run_dec-Agree (position k) s t a eip end x h g = run_dec-Agree (k a) s t a eip end x h g

  run_dec-blank :
      (p : Decoder A) (s : Mem) (a eip : ℕ) → run_dec p (blank s) a eip ≡ run_dec p s a eip
  unfolding run_dec
  run_dec-blank (done y) s a eip = refl
  run_dec-blank (fetch w k) s a eip = elim (Result-cases (read_word w s a)) [
    | inl (v, e) ↦
        ground (arith, e, read_word-blank w s a, run_dec-blank (k v) s (a + bytes_of w) eip)
    | inr (f, e) ↦ ground (arith, e, read_word-blank w s a)
  ]
  run_dec-blank (commit p) s a eip = run_dec-blank p s a a
  run_dec-blank (position k) s a eip = run_dec-blank (k a) s a eip

pub decode-blank : (s : Mem) (a eip : ℕ) → decode (blank s) a eip ≡ decode s a eip
unfolding decode
decode-blank s a eip =
    ap (λ (r : Result SegFault (Option Insn) × ℕ). (with_len (r.1 - a) r.0, r.1))
      (run_dec-blank instruction s a eip)

whole :
    (s : Mem) (a eip end : ℕ) (e : Insn)
    → decode s a eip ≡ (ok e, end)
    → (o : Option Insn) × (run_dec instruction s a eip ≡ (ok o, end))
      × (with_len (end - a) (ok o) ≡ ok e)
unfolding decode
whole s a eip end e h = elim (Result-cases (run_dec instruction s a eip).0) [
  | inl (o, r) ↦
      let end_eq : (run_dec instruction s a eip).1 ≡ end = ap (λ x. x.1) h in
      let run : run_dec instruction s a eip ≡ (ok o, end) =
        ap (λ x. (x, (run_dec instruction s a eip).1)) r ∙ ap (λ x. (ok o, x)) end_eq in
      (
        o,
        run,
        sym (ap (λ (x : Result SegFault (Option Insn) × ℕ). with_len (x.1 - a) x.0) run)
            ∙ ap (λ x. x.0) h,
      )
  | inr (x, r) ↦ absurd (ground (arith, h, r))
]

some_of : (n : ℕ) (o : Option Insn) (e : Insn) → with_len n (ok o) ≡ ok e → e.len ≡ n
some_of n none e h = absurd (ground (arith, h))
some_of n (some x) e h = ground (arith, h)

-- A decoded instruction ends where its length says, and is decoded again from the same bytes.
pub decode_ends :
    (s : Mem) (a eip end : ℕ) (e : Insn)
    → decode s a eip ≡ (ok e, end)
    → (a ≤ end) × (e.len ≡ end - a)
decode_ends s a eip end e h =
    let (o, run, len) = whole s a eip end e h in
    (run_dec_ends instruction s a eip end o run, some_of (end - a) o e len)

pub decode-Agree :
    (s t : Mem) (a eip end : ℕ) (e : Insn)
    → decode s a eip ≡ (ok e, end)
    → Agree s t a end
    → decode t a eip ≡ (ok e, end)
unfolding decode
decode-Agree s t a eip end e h g =
    let (o, run, len) = whole s a eip end e h in
    ap (λ (x : Result SegFault (Option Insn) × ℕ). (with_len (x.1 - a) x.0, x.1))
      (run_dec-Agree instruction s t a eip end o run g)
    ∙ ap (λ x. (x, end)) len

-- ===== src/Processor/Cached/Good.antt =====
-- What the cache of cpu86.py holds: each entry is the instruction that is decoded at its place.
use minixfs.Prelude.{
  ℕ, ◌+◌, ◌≤◌, ◌<◌, ◌≡◌, sym, ap, subst, ◌∙◌, ◌==◌, ==_iff, Bool-cases, inl, inr, lt-cases, length,
  get_or, set, get_or-set, get_or_out, List, length-set, Bytes, arith, Result, ok, Option, none,
  some,
}
use minixfs.Memory as Memory
use minixfs.Memory.{AddressSpace, SegFault, with_stack, store_low, store_stack}
use minixfs.Memory.Inv.{IsValid}
use minixfs.Memory.Keeps.{write-IsValid}
use minixfs.Memory.Joined.{write_bounds}
use minixfs.Memory.Cache.{write-Coherent}
use minixfs.Processor.Flags.{Width}
use minixfs.Processor.Machine.{Insn, Mem, Done, write_word}
use minixfs.Processor.Opcodes.{decode}
use minixfs.Processor.Cached.Blank.{write_word-eq-write, word_bytes}
use minixfs.Processor.Cached.Footprint.{decode-Agree, decode_ends, decode-blank}

-- An entry of at most 15 bytes, in the text, that decoding gives again.
pub record Right (s : Mem) (i : ℕ) (e : Insn) : Type 0 where
  pub short : e.len ≤ 15
  pub in_text : i + e.len ≤ s.text_end
  pub again : decode s i i ≡ (ok e, i + e.len)

pub record Good (s : Mem) : Type 0 where
  pub valid : IsValid s
  pub entries : (i : ℕ) (e : Insn) → get_or s.icache i none ≡ some e → Right s i e

some_inside :
    (xs : List (Option Insn)) (i : ℕ) (e : Insn) → get_or xs i none ≡ some e → i < length xs
some_inside xs i e h = elim (lt-cases i (length xs)) [
  | inl p ↦ p
  | inr p ↦ absurd (ground (arith, h, get_or_out none xs i p))
]

-- A store keeps the cache right, whatever it hits.
pub write-Good : (s : Mem) (a : ℕ) (d : Bytes) → Good s → Good (Memory.write s a d).0
write-Good s a d g = record {
  valid = write-IsValid a d g.valid;
  entries = λ i e h.
      let bounds = write_bounds s a d in
      let v' = write-IsValid a d g.valid in
      let filled = some_inside (Memory.write s a d).0.icache i e h in
      let old =
        (write-Coherent s a d i i e g.valid h (omega arith) (omega arith)
          (omega (arith, v'.cache_in, bounds.0))).0 in
      let r = g.entries i e old in
      record {
        short = r.short;
        in_text = omega (arith, r.in_text);
        again = decode-Agree s (Memory.write s a d).0 i i (i + e.len) e r.again (record {
          ends = bounds.1;
          inside = omega (arith, r.in_text, g.valid);
          bytes = λ k p q.
              (write-Coherent s a d i k e g.valid h p (omega (arith, r.short))
                (omega (arith, r.in_text))).1;
        });
      };
}

pub write_word-Good : (w : Width) (s : Mem) (a v : ℕ) → Good s → Good (write_word w s a v).0
write_word-Good w s a v g =
    subst (λ (r : Mem × Result SegFault Done). Good r.0) (sym (write_word-eq-write w s a v g.valid))
      (write-Good s a (word_bytes w v) g)

-- Decoding does not look at the cache.
decode_any :
    (s : Mem) (c : List (Option Insn)) (i : ℕ) → decode (record s { icache = c }) i i ≡ decode s i i
decode_any s c i = sym (decode-blank (record s { icache = c }) i i) ∙ decode-blank s i i

-- A new entry, of a short instruction that ends in the text.
pub enter-Good :
    (s : Mem) (i end : ℕ) (e : Insn)
    → Good s
    → decode s i i ≡ (ok e, end)
    → i < length s.icache
    → end ≤ length s.icache
    → e.len ≤ 15
    → Good (record s { icache = set s.icache i (some e) })
enter-Good s i end e g h start inside short =
    let (up, len) = decode_ends s i i end e h in
    let c = set s.icache i (some e) in
    let end_eq : end ≡ i + e.len = omega arith in
    let new : Right (record s { icache = c }) i e = record {
      short = short;
      in_text = omega (arith, g.valid.cache_in);
      again = decode_any s c i ∙ h ∙ ap (λ k. (ok e, k)) end_eq;
    } in
    record {
      valid = record {
        low_length = g.valid.low_length;
        stack_length = g.valid.stack_length;
        text_in = g.valid.text_in;
        brk_in = g.valid.brk_in;
        cache_in = omega (arith, length-set s.icache i (some e), g.valid.cache_in);
        start_in = g.valid.start_in;
        apart = g.valid.apart;
      };
      entries = λ j x at. elim (Bool-cases (i == j)) [
        | inl same ↦
            let j_eq : i ≡ j = (==_iff i j).0 same in
            let x_eq : e ≡ x =
              ground (arith, at, same, get_or-set s.icache i j (some e) none start) in
            subst (λ k. Right (record s { icache = c }) k x) j_eq
              (subst (λ y. Right (record s { icache = c }) i y) x_eq new)
        | inr other ↦
            let r =
              g.entries j x
                (ground (arith, at, other, get_or-set s.icache i j (some e) none start)) in
            record { short = r.short; in_text = r.in_text; again = decode_any s c j ∙ r.again }
      ];
    }

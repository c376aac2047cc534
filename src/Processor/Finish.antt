-- ===== src/Processor/Finish.antt =====
-- Decoding in cpu86.py comes to an end: the loop over the prefixes runs into the end of the memory.
use minixfs.Prelude.{
  ℕ, zero, suc, ◌+◌, ◌≤◌, ◌<◌, ◌≡◌, ◌≢◌, refl, ap, sym, ◌∙◌, Option-cases, Bool-cases, Result-cases,
  inl, inr, arith, ok, err, Option, none, some,
}
use minixfs.Memory.{SegFault, task_size, read_u8}
use minixfs.Memory.Inv.{IsValid}
use minixfs.Processor.Flags.{Width, w8, w32, bytes_of}
use minixfs.Processor.Machine.{Insn, Mem, Rep, no_rep, read_word}
use minixfs.Processor.Fetch.{Decoder, done, fetch, commit, position, ◌>>=◌, run_dec}
use minixfs.Processor.Opcodes.{
  is_prefix, size_after, rep_after, dec_main, prefixes, instruction, decode,
}

read_u8_inside : (s : Mem) (a v : ℕ) → IsValid s → read_u8 s a ≡ ok v → a < task_size
unfolding read_u8
read_u8_inside s a v g h = ground (arith, h, g.apart, g.stack_length)

-- What comes after a decoder that gives something gives something.
run_dec-some :
    {A : Type 0} (p : Decoder A) (s : Mem) (at eip : ℕ)
    → (run_dec (p >>= λ a. done (some a)) s at eip).0 ≢ ok none
unfolding run_dec
run_dec-some (done a) s at eip h = ground (arith, h)
run_dec-some (fetch w k) s at eip h = elim (Result-cases (read_word w s at)) [
  | inl (v, e) ↦ run_dec-some (k v) s (at + bytes_of w) eip (ground (arith, h, e))
  | inr (f, e) ↦ ground (arith, h, e)
]
run_dec-some (commit p) s at eip h = run_dec-some p s at at h
run_dec-some (position k) s at eip h = run_dec-some (k at) s at eip h

prefixes_lem :
    (n : ℕ) (s : Mem) (at eip op : ℕ) (w : Width) (rep : Rep)
    → IsValid s
    → at ≤ task_size
    → task_size < at + n
    → (run_dec (prefixes n op w rep) s at eip).0 ≢ ok none
unfolding prefixes run_dec
prefixes_lem zero s at eip op w rep g inside enough h = omega arith
prefixes_lem (suc n) s at eip op w rep g inside enough h = elim (Bool-cases (is_prefix op)) [
  | inl y ↦ elim (Result-cases (read_u8 s at)) [
    | inl (v, e) ↦
        let below = read_u8_inside s at v g e in
        prefixes_lem n s (at + 1) eip v (size_after op w) (rep_after op rep) g (omega arith)
          (omega arith) (ground (arith, h, y, e))
    | inr (f, e) ↦ ground (arith, h, y, e)
  ]
  | inr m ↦ run_dec-some (dec_main op w rep) s at eip (ground (arith, h, m))
]

-- The first byte, and what follows it.
module _ {A : Type 0} (k : ℕ → Decoder A) (s : Mem) (a eip : ℕ) where
  run_dec-fetch :
      (v : ℕ) → read_u8 s a ≡ ok v → run_dec (fetch w8 k) s a eip ≡ run_dec (k v) s (a + 1) eip
  unfolding run_dec
  run_dec-fetch v e = rw (e, run_dec) refl

  run_dec-err : (f : SegFault) → read_u8 s a ≡ err f → run_dec (fetch w8 k) s a eip ≡ (err f, eip)
  unfolding run_dec
  run_dec-err f e = rw (e, run_dec) refl

unfoldable from_first : ℕ → Decoder (Option Insn)
from_first op = prefixes task_size op w32 no_rep

instruction_first : instruction ≡ fetch w8 from_first
unfolding instruction from_first
instruction_first = refl

instruction_lem : (s : Mem) (a eip : ℕ) → IsValid s → (run_dec instruction s a eip).0 ≢ ok none
unfolding from_first
instruction_lem s a eip g h = elim (Result-cases (read_u8 s a)) [
  | inl (v, e) ↦
      let below = read_u8_inside s a v g e in
      prefixes_lem task_size s (a + 1) eip v w32 no_rep g (omega arith) (omega arith) (
        ap (λ x. x.0)
          (sym
            (ap (λ p. run_dec p s a eip) instruction_first ∙ run_dec-fetch from_first s a eip v e))
        ∙ h)
  | inr (f, e) ↦
      let out =
        ap (λ p. run_dec p s a eip) instruction_first ∙ run_dec-err from_first s a eip f e in
      ground (arith, h, out)
]

-- Decoding always gives an instruction or the fault of a read, in a valid memory: no course of prefixes is
-- longer than what the fuel of the loop allows for.
pub decode_finishes : (s : Mem) (a eip : ℕ) → IsValid s → (decode s a eip).0 ≢ err none
unfolding decode
decode_finishes s a eip g h = elim (Result-cases (run_dec instruction s a eip).0) [
  | inl (o, r) ↦ elim (Option-cases o) [
    | inl n ↦ instruction_lem s a eip g (r ∙ ap ok n)
    | inr (e, n) ↦ ground (arith, h, r, n)
  ]
  | inr (f, r) ↦ ground (arith, h, r)
]

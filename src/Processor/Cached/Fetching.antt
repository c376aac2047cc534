-- ===== src/Processor/Cached/Fetching.antt =====
-- Fetching an instruction in cpu86.py by way of the cache, and without one.
use minixfs.Prelude.{
  ℕ, ◌+◌, ◌≤◌, ◌≡◌, ap, ◌∙◌, ltb, leb, ◌&&◌, Bool-cases, Result-cases, Option-cases, inl, inr,
  length, get_or, set, arith, ok, none, some,
}
use minixfs.Processor.Machine.{Insn, Mem, Regs}
use minixfs.Processor.Opcodes.{decode}
use minixfs.Processor.Run.{fetch_plain, fetch_cached}
use minixfs.Processor.Cached.Blank.{blank}
use minixfs.Processor.Cached.Footprint.{decode-blank}
use minixfs.Processor.Cached.Good.{Good, enter-Good}

-- The instruction at `eip`, if one is decoded there, has at most 15 bytes.
abbrev pub ShortAt : Regs → Mem → Type 0
ShortAt r s = (e : Insn) (end : ℕ) → decode s r.eip r.eip ≡ (ok e, end) → e.len ≤ 15

-- The two ways to fetch agree on a right cache, which stays right.
abbrev pub SameFetch : Regs → Mem → Type 0
SameFetch r s =
    (fetch_plain r (blank s)
      ≡ ((fetch_cached r s).0, (fetch_cached r s).1, blank (fetch_cached r s).2))
    × Good (fetch_cached r s).2

hit : (r : Regs) (s : Mem) (e : Insn) → Good s → get_or s.icache r.eip none ≡ some e → SameFetch r s
unfolding fetch_plain fetch_cached
hit r s e g h =
    let same : decode (blank s) r.eip r.eip ≡ (ok e, r.eip + e.len) =
      decode-blank s r.eip r.eip ∙ (g.entries r.eip e h).again in
    (ground (arith, same, h), rw (h, fetch_cached) g)

missed :
    (r : Regs) (s : Mem) → Good s → ShortAt r s → get_or s.icache r.eip none ≡ none → SameFetch r s
unfolding fetch_plain fetch_cached
missed r s g short h = elim (Result-cases (decode s r.eip r.eip).0) [
  | inl (e, d) ↦
      let end = (decode s r.eip r.eip).1 in
      let whole : decode s r.eip r.eip ≡ (ok e, end) = ap (λ x. (x, end)) d in
      let bl = decode-blank s r.eip r.eip in
      elim (Bool-cases (ltb r.eip (length s.icache) && leb end (length s.icache))) [
        | inl y ↦
            let kept : fetch_cached r s ≡ (
              ok e,
              record r { eip = end },
              record s { icache = set s.icache r.eip (some e) },
            ) =
              ground (arith, h, d, y) in
            (
              ground (arith, h, d, bl, y),
              rw kept (
                  enter-Good s r.eip end e g whole (ground (arith, y)) (ground (arith, y))
                    (short e end whole)),
            )
        | inr n ↦
            let kept : fetch_cached r s ≡ (ok e, record r { eip = end }, s) =
              ground (arith, h, d, n) in
            (ground (arith, h, d, bl, n), rw kept g)
      ]
  | inr (f, d) ↦
      let kept : (fetch_cached r s).2 ≡ s = ground (arith, h, d) in
      (ground (arith, h, d, decode-blank s r.eip r.eip), rw kept g)
]

pub fetch-blank : (r : Regs) (s : Mem) → Good s → ShortAt r s → SameFetch r s
fetch-blank r s g short = elim (Option-cases (get_or s.icache r.eip none)) [
  | inl h ↦ missed r s g short h
  | inr (e, h) ↦ hit r s e g h
]

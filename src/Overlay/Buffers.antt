-- ===== src/Overlay/Buffers.antt =====
-- The bytes of a buffer that kvfs.py patches at an offset, or cuts to a size.
use minixfs.Prelude.{
  ℕ, ◌+◌, ◌-◌, ◌≤◌, ◌≡◌, sym, ap, ◌∙◌, ltb, ◌++◌, if◌then◌else◌, inl, inr, lt-cases, length, take,
  get_or, get_or_out, get_or-replicate, get_or-append_left, get_or-append_right,
  get_or-splice_below, get_or-splice_inside, get_or-splice_above, length-zeros, get_or-take,
  length-append, length-take, length-drop, drop, splice, Bytes, zeros, arith,
}
use minixfs.Overlay.Ops.{patched}

get_or-zeros : (n i : ℕ) → get_or (zeros n) i 0 ≡ 0
get_or-zeros n i = elim (lt-cases i n) [
  | inl p ↦ get_or-replicate 0 n 0 i p
  | inr p ↦ get_or_out 0 (zeros n) i (omega (arith, length-zeros n))
]

-- The bytes of the buffer with zeros behind it are those that reading past its end finds.
get_or-pad : (buf : Bytes) (n i : ℕ) → get_or (buf ++ zeros n) i 0 ≡ get_or buf i 0
get_or-pad buf n i = elim (lt-cases i (length buf)) [
  | inl p ↦ get_or-append_left 0 buf (zeros n) i p
  | inr p ↦
      get_or-append_right 0 buf (zeros n) i p
      ∙ get_or-zeros n (i - length buf)
      ∙ sym (get_or_out 0 buf i p)
]

-- A byte of `d` where it was written at the offset, and else the byte that was there.
abbrev pub byte_after : Bytes → ℕ → Bytes → ℕ → ℕ
byte_after buf offset d i =
    if ltb i offset
    then get_or buf i 0
    else if ltb i (offset + length d)
    then get_or d (i - offset) 0
    else get_or buf i 0

get_or-splice :
    (buf : Bytes) (offset : ℕ) (d : Bytes) (i : ℕ)
    → offset ≤ length buf
    → get_or (splice buf offset d) i 0 ≡ byte_after buf offset d i
get_or-splice buf offset d i h = elim (lt-cases i offset) [
  | inl p ↦ get_or-splice_below buf offset d h 0 i p ∙ ground (arith, p)
  | inr p ↦ elim (lt-cases i (offset + length d)) [
    | inl q ↦
        ap (λ k. get_or (splice buf offset d) k 0) {x = i} {y = offset + (i - offset)} (omega arith)
        ∙ get_or-splice_inside buf offset d h 0 (i - offset) (omega arith)
        ∙ ground (arith, p, q)
    | inr q ↦ get_or-splice_above buf offset d h 0 i q ∙ ground (arith, p, q)
  ]
]

pub get_or-patched :
    (buf : Bytes) (offset : ℕ) (d : Bytes) (i : ℕ)
    → get_or (patched buf offset d) i 0 ≡ byte_after buf offset d i
get_or-patched buf offset d i = elim (lt-cases (length buf) offset) [
  | inr p ↦ ground (arith, p, get_or-splice buf offset d i p)
  | inl p ↦
      let k = offset - length buf in
      ground (
        arith,
        p,
        get_or-splice (buf ++ zeros k) offset d i
            (omega (arith, length-append buf (zeros k), length-zeros k)),
        get_or-pad buf k i,
      )
]

pub length-patched :
    (buf : Bytes) (offset : ℕ) (d : Bytes)
    → length (patched buf offset d)
      ≡ (if ltb (length buf) (offset + length d) then offset + length d else length buf)
length-patched buf offset d =
    let k = offset - length buf in
    let b = if ltb (length buf) offset then buf ++ zeros k else buf in
    ground (
      arith,
      length-append (take offset b) (d ++ drop (offset + length d) b),
      length-append d (drop (offset + length d) b),
      length-take offset b,
      length-drop (offset + length d) b,
      length-append buf (zeros k),
      length-zeros k,
    )

-- The bytes of a string that is cut, or lengthened by zeros, to a number of bytes.
abbrev pub byte_cut : Bytes → ℕ → ℕ → ℕ
byte_cut buf n i = if ltb i n then get_or buf i 0 else 0

pub get_or-cut :
    (buf : Bytes) (n i : ℕ)
    → get_or (if ltb n (length buf) then take n buf else buf ++ zeros (n - length buf)) i 0
      ≡ byte_cut buf n i
get_or-cut buf n i = elim (lt-cases n (length buf)) [
  | inr p ↦ elim (lt-cases i n) [
    | inl q ↦ ground (arith, p, q, get_or-pad buf (n - length buf) i)
    | inr q ↦
        ground (arith, p, q, get_or-pad buf (n - length buf) i, get_or_out 0 buf i (omega arith))
  ]
  | inl p ↦ elim (lt-cases i n) [
    | inl q ↦ ground (arith, p, q, get_or-take 0 n buf i q)
    | inr q ↦ ground (arith, p, q, get_or_out 0 (take n buf) i (omega (arith, length-take n buf)))
  ]
]

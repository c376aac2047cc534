-- ===== src/Memory/Strings.antt =====
-- `read_cstr` of x86mem.py: the bytes up to the first zero byte.
use minixfs.Prelude.{
  ℕ, zero, suc, ◌+◌, ◌<◌, ◌≡◌, ◌≢◌, ◌↔◌, inl, inr, ◌∙◌, [], ◌∷◌, ◌++◌, ◌==◌, Bool-cases,
  Result-cases, subst, length, Bytes, arith, ok, length-append,
}
use mathlib.Core.List.{append_assoc, append-nil}
use minixfs.Memory.{AddressSpace, read_u8, read_cstr, read_cstr_from}

-- The bytes of `bs` stand in the space from `addr` on, none is zero, and a zero byte follows them.
abbrev pub HoldsText : {I : Type 0} → AddressSpace I → ℕ → Bytes → Type 0
HoldsText s addr [] = read_u8 s addr ≡ ok 0
HoldsText s addr (b ∷ bs) = (read_u8 s addr ≡ ok b) × (b ≢ 0) × HoldsText s (addr + 1) bs

module _ {I : Type 0} (s : AddressSpace I) (addr limit : ℕ) where
  read_cstr_from_finds :
      (rounds : ℕ) (out bs : Bytes)
      → length bs < rounds
      → HoldsText s (addr + length out) bs
      → read_cstr_from s addr limit rounds out ≡ ok (out ++ bs)
  unfolding read_cstr_from
  read_cstr_from_finds zero out bs h t = absurd (omega arith)
  read_cstr_from_finds (suc n) out [] h t = ground (arith, t, append-nil out)
  read_cstr_from_finds (suc n) out (b ∷ bs) h (e, p, t) = ground (
    arith,
    e,
    p,
    append_assoc out (b ∷ []) bs,
    read_cstr_from_finds n (out ++ b ∷ []) bs (omega arith) (
        subst (λ a. HoldsText s a bs) {x = addr + length out + 1}
          (omega (arith, length-append out (b ∷ []))) t),
  )

  read_cstr_from_sound :
      (rounds : ℕ) (out r : Bytes)
      → read_cstr_from s addr limit rounds out ≡ ok r
      → (bs : Bytes) × (r ≡ out ++ bs) × (length bs < rounds) × HoldsText s (addr + length out) bs
  unfolding read_cstr_from
  read_cstr_from_sound zero out r h = cc
  read_cstr_from_sound (suc n) out r h = elim (Result-cases (read_u8 s (addr + length out))) [
    | inr (e, f) ↦ ground (arith, f)
    | inl (b, f) ↦ elim (Bool-cases (b == 0)) [
      | inl z ↦ ([], ground (arith, f, z, append-nil out), omega arith, ground (arith, f, z))
      | inr z ↦
          more b f (ground (arith, z))
            (read_cstr_from_sound n (out ++ b ∷ []) r (ground (arith, f, z)))
    ]
  ]
    where
      more :
          (b : ℕ)
          → read_u8 s (addr + length out) ≡ ok b
          → b ≢ 0
          → (bs : Bytes) × (r ≡ (out ++ b ∷ []) ++ bs)
            × (length bs < n)
            × HoldsText s (addr + length (out ++ b ∷ [])) bs
          → (bs : Bytes) × (r ≡ out ++ bs)
            × (length bs < suc n)
            × HoldsText s (addr + length out) bs
      more b f z (bs, e, l, t) = (
        b ∷ bs,
        e ∙ append_assoc out (b ∷ []) bs,
        omega arith,
        (
          f,
          z,
          subst (λ a. HoldsText s a bs) {y = addr + length out + 1}
              (omega (arith, length-append out (b ∷ []))) t,
        ),
      )

-- `read_cstr` returns exactly the text that stands at the address, if it is shorter than the limit:
-- a result is such a text, and such a text is the result.
pub read_cstr_iff :
    {I : Type 0} (s : AddressSpace I) (addr limit : ℕ) (bs : Bytes)
    → (read_cstr s addr limit ≡ ok bs) ↔ ((length bs < limit) × HoldsText s addr bs)
unfolding read_cstr
read_cstr_iff s addr limit bs = (
  λ h. forth (read_cstr_from_sound s addr limit limit [] bs h),
  λ (l, t).
      read_cstr_from_finds s addr limit limit [] bs l
        (subst (λ a. HoldsText s a bs) {x = addr} (omega arith) t),
)
  where
    forth :
        (cs : Bytes) × (bs ≡ cs) × (length cs < limit) × HoldsText s (addr + 0) cs
        → (length bs < limit) × HoldsText s addr bs
    forth (cs, e, l, t) = rw e (l, subst (λ a. HoldsText s a cs) {y = addr} (omega arith) t)

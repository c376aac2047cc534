-- ===== src/Processor/Fetch.antt =====
-- Reading an instruction in cpu86.py, byte after byte.
-- A decoder reads at a position of its own; `commit` is where the source stores it in `eip`, which a
-- fault in the middle of an instruction leaves behind. A decoder that succeeds has stored all of it.
use minixfs.Prelude.{
  ℕ, ◌+◌, ◌/◌, ◌%◌, ◌^◌, Bool, ◌&&◌, Option, none, some, ◌==◌, if◌then◌else◌, Result, ok, err,
}
use minixfs.Memory.{SegFault}
use minixfs.Processor.Flags.{Width, w8, w32, bytes_of, signed, cut}
use minixfs.Processor.Machine.{Mem, read_word}

pub data Decoder (A : Type 0) : Type 0 where
  done : A → Decoder A
  fetch : Width → (ℕ → Decoder A) → Decoder A
  commit : Decoder A → Decoder A
  position : (ℕ → Decoder A) → Decoder A

module _ {A B : Type 0} where
  infixl 6 ◌>>=◌
  abbrev pub ◌>>=◌ : Decoder A → (A → Decoder B) → Decoder B
  done a >>= f = f a
  fetch w k >>= f = fetch w (λ v. k v >>= f)
  commit p >>= f = commit (p >>= f)
  position k >>= f = position (λ a. k a >>= f)

  infixl 6 ◌>>◌
  abbrev pub ◌>>◌ : Decoder A → Decoder B → Decoder B
  p >> q = p >>= λ _. q

module _ {A : Type 0} where
  -- The value or a fault, and `eip` after it.
  unfoldable pub run_dec : Decoder A → Mem → ℕ → ℕ → Result SegFault A × ℕ
  run_dec (done a) s at eip = (ok a, at)
  run_dec (fetch w k) s at eip = elim (read_word w s at) [
    | ok v ↦ run_dec (k v) s (at + bytes_of w) eip
    | err e ↦ (err e, eip)
  ]
  run_dec (commit p) s at eip = run_dec p s at at
  run_dec (position k) s at eip = run_dec (k at) s at eip

-- `_fetch8`, `_fetch16` and `_fetch32`, by the width, which is also `_imm`.
abbrev pub imm : Width → Decoder ℕ
imm w = fetch w (λ v. commit (done v))

abbrev pub unread : ℕ → Decoder ℕ
unread n = done n

-- `_sx8`, `_sx16` and `_sx32` as words of 32 bits.
abbrev pub extended : Width → ℕ → ℕ
extended w v = cut w32 (signed w v)

-- ---- the operand bytes ----

pub record Modrm : Type 0 where
  pub in_register : Bool
  pub reg : ℕ
  pub base : Option ℕ
  pub index : Option ℕ
  pub scale : ℕ
  pub disp : ℕ

abbrev pub word_fetch : Decoder ℕ
word_fetch = fetch w32 unread

-- The displacement that `mod` asks for, added to the one of an operand without a base.
abbrev pub with_disp : ℕ → Modrm → Decoder Modrm
with_disp md m =
    if md == 1
    then (do
      d ← fetch w8 unread
      commit (done (record m { disp = (m.disp + extended w8 d) % 2 ^ 32 })))
    else if md == 2
    then (do d ← word_fetch; commit (done (record m { disp = (m.disp + d) % 2 ^ 32 })))
    else commit (done m)

abbrev pub with_base : Modrm → ℕ → ℕ → Decoder Modrm
with_base m md base =
    if base == 5 && md == 0
    then (do d ← word_fetch; with_disp md (record m { base = none; disp = d }))
    else with_disp md (record m { base = some base })

-- `_modrm_dec`
unfoldable pub modrm : Decoder Modrm
modrm = do
  b ← fetch w8 unread
  let md = b / 64
  let rm = b % 8
  let m : Modrm = record {
    in_register = md == 3;
    reg = b / 8 % 8;
    base = some rm;
    index = none;
    scale = 0;
    disp = 0;
  }
  if md == 3
      then commit (done m)
      else if rm == 4
      then (do
        sib ← fetch w8 unread
        let index = if sib / 8 % 8 == 4 then none else some (sib / 8 % 8)
        with_base (record m { index = index; scale = sib / 64 }) md (sib % 8))
      else with_base m md rm

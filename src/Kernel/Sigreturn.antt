-- ===== src/Kernel/Sigreturn.antt =====
-- The return of a handler without a restorer in kernel.py (`_sigreturn`).
use minixfs.Prelude.{ℕ, ◌+◌, ◌%◌, ◌^◌, [], ◌∷◌, if◌then◌else◌, set, Result, ok, err}
use minixfs.Memory.{SegFault, read_u32}
use minixfs.Processor.Flags.{flags_word, flags_of}
use minixfs.Kernel.State.{Process, Done}
use minixfs.Kernel.Frames.{stack_pointer, with_stack}

-- Steps on a process that may fault.
abbrev pub P : Type 0 → Type 0 → Type 0
P I A = Process I → Result SegFault A × Process I

module _ {I A B : Type 0} where
  infixl 6 ◌>>=◌
  abbrev pub ◌>>=◌ : P I A → (A → P I B) → P I B
  ◌>>=◌ m f p = let (r, p') = m p in elim r [ ok a ↦ f a p' | err e ↦ (err e, p') ]

  infixl 6 ◌>>◌
  abbrev pub ◌>>◌ : P I A → P I B → P I B
  ◌>>◌ m n p = let (r, p') = m p in elim r [ ok a ↦ n p' | err e ↦ (err e, p') ]

-- The setter of `eflags`.
abbrev pub eflags_set : ℕ → ℕ
eflags_set v = flags_word (flags_of v)

module _ {I : Type 0} where
  -- `pop32`
  unfoldable pub pop_word : P I ℕ
  pop_word p = elim (read_u32 p.mem (stack_pointer p)) [
    | err e ↦ (err e, p)
    | ok v ↦ (ok v, with_stack p p.mem ((stack_pointer p + 4) % 2 ^ 32))
  ]

  abbrev pub set_reg : ℕ → ℕ → P I Done
  set_reg i v p = (ok tt, record p { cpu = record p.cpu { regs = set p.cpu.regs i v } })

  abbrev pub set_eflags : ℕ → P I Done
  set_eflags v p = (ok tt, record p { cpu = record p.cpu { eflags = eflags_set v } })

  abbrev pub set_eip : ℕ → P I Done
  set_eip v p = (ok tt, record p { cpu = record p.cpu { eip = v } })

  abbrev pub set_blocked : ℕ → P I Done
  set_blocked v p = (ok tt, record p { blocked = v })

  -- The mask, where the newest frame holds one.
  unfoldable pub pop_mask : P I Done
  unfolding pop_word
  pop_mask p = elim p.sigframes [
    | [] ↦ (ok tt, p)
    | held ∷ frames ↦
        let q = record p { sigframes = frames } in
        if held then (do v ← pop_word; set_blocked v) q else (ok tt, q)
  ]

  -- The registers that a frame saves, the flags and the place.
  unfoldable pub restore : P I Done
  unfolding pop_word
  restore = do
    a ← pop_word
    set_reg 0 a
    c ← pop_word
    set_reg 1 c
    d ← pop_word
    set_reg 2 d
    f ← pop_word
    set_eflags f
    i ← pop_word
    set_eip i

  unfoldable pub sigreturn : P I Done
  unfolding pop_mask restore
  sigreturn = do _ ← pop_word; pop_mask; restore

-- ===== src/Kernel/Returning.antt =====
-- The round trip of a signal frame in kernel.py: what the return of a handler restores.
use minixfs.Prelude.{
  ℕ, ◌+◌, ◌-◌, ◌*◌, ◌%◌, ◌^◌, ◌≤◌, ◌<◌, ◌≡◌, refl, sym, ap, ap₂, subst, ◌∙◌, true, false, not,
  Bool-cases, inl, inr, [], ◌∷◌, length, if◌then◌else◌, arith, ok,
}
use Prim.Native.Nat.{bit_or}
use minixfs.Memory.{AddressSpace, task_size, read_u32}
use minixfs.Memory.Inv.{IsValid}
use minixfs.Processor.Flags.{Flags, flags_word}
use minixfs.Kernel.State.{Process, SigAction, bit_at}
use minixfs.Kernel.Frames.{sa_nomask, saved_words, push_frame, stack_pointer}
use minixfs.Kernel.Sigreturn.{eflags_set, sigreturn}
use minixfs.Kernel.Pushing.{SameFrom, Stored, SameWords, Stored-SameWords}
use minixfs.Kernel.Popping.{at, restored, sigreturn_plain, sigreturn_masked}
use minixfs.Kernel.FlagsWord.{flags_word_lem}
use minixfs.Kernel.Framing.{return_to, Framed, push_frame_lem}

module _ {I : Type 0} where
  word_there :
      (m : AddressSpace I) (a b v : ℕ)
      → read_u32 m a ≡ ok (v % 2 ^ 32)
      → v < 2 ^ 32
      → a ≡ b
      → read_u32 m b ≡ ok v
  word_there m a b v e small same =
      subst (λ k. read_u32 m k ≡ ok v) same (e ∙ ap ok {x = v % 2 ^ 32} (omega arith))

  -- The process that takes a signal, its registers, and the process at the return of the handler,
  -- which has popped the restorer.
  module _ (p h : Process I) (sig : ℕ) (act : SigAction) (f : Flags)
      (eax ecx edx ebx sp bp si di : ℕ) where
    abbrev taking : Process I
    taking = at p eax ecx edx ebx sp bp si di

    abbrev framed : Process I
    framed = (push_frame sig act taking).0

    -- The words of a process fit.
    pub record Fits : Type 0 where
      pub eax_in : eax < 2 ^ 32
      pub ecx_in : ecx < 2 ^ 32
      pub edx_in : edx < 2 ^ 32
      pub eip_in : p.cpu.eip < 2 ^ 32
      pub mask_in : p.blocked < 2 ^ 32
      pub flags_eq : p.cpu.eflags ≡ flags_word f

    module _ (fits : Fits) (g : IsValid p.mem) (room : p.mem.low_end + 32 ≤ sp)
        (top : sp ≤ task_size) (same : SameWords (stack_pointer framed + 4) sp framed.mem h.mem)
        (frames : h.sigframes ≡ framed.sigframes) (a c d b bp' si' di' : ℕ) where
      frame : Framed sig act taking sp (length (saved_words taking act))
      frame = push_frame_lem p sig act eax ecx edx ebx sp bp si di g room top

      flags_in : p.cpu.eflags < 2 ^ 32
      flags_in = omega (arith, fits.flags_eq, (flags_word_lem f).0)

      flags_back : eflags_set p.cpu.eflags ≡ p.cpu.eflags
      flags_back = ap eflags_set fits.flags_eq ∙ (flags_word_lem f).1 ∙ sym fits.flags_eq

      return_plain :
          bit_at act.sa_flags sa_nomask ≡ true
          → sigreturn (at h a c d b (stack_pointer framed + 4) bp' si' di') ≡ (
            ok tt,
            restored
                (record h { sigframes = p.sigframes })
                (eax ∷ ecx ∷ edx ∷ b ∷ sp ∷ bp' ∷ si' ∷ di' ∷ [])
                p.cpu.eip
                p.cpu.eflags,
          )
      unfolding Stored
      return_plain nomask =
          let saved = p.cpu.eip ∷ p.cpu.eflags ∷ edx ∷ ecx ∷ eax ∷ [] in
          let vs : saved_words taking act ≡ saved = rw nomask refl in
          let pointer : stack_pointer framed + 4 ≡ sp - 24 =
            omega (arith, frame.pointer, ap length vs, room) in
          let n5 : length (saved_words taking act) ≡ 5 = ap length vs in
          let there =
            Stored-SameWords saved framed.mem h.mem sp (stack_pointer framed + 4) sp same
              (omega (arith, pointer, room)) (omega arith)
              (subst (λ l. Stored framed.mem sp l) vs frame.stored) in
          let s = sp - 24 in
          let e0 : read_u32 h.mem s ≡ ok (sig % 2 ^ 32) =
            same s (sig % 2 ^ 32) (omega (arith, pointer)) (omega (arith, room)) (
              subst (λ k. read_u32 framed.mem k ≡ ok (sig % 2 ^ 32))
                {x = sp - 4 * length (saved_words taking act) - 4} (omega (arith, n5))
                frame.signal) in
          ap (λ k. sigreturn (at h a c d b k bp' si' di')) pointer
          ∙ sigreturn_plain h a c d b s bp' si' di' (sig % 2 ^ 32) eax ecx edx p.cpu.eflags
              p.cpu.eip p.sigframes (omega (arith, room, top))
              (frames ∙ frame.frames ∙ ap (λ t. not t ∷ p.sigframes) nomask) e0
              (word_there h.mem (sp - 4 - 4 - 4 - 4 - 4) (s + 4) eax there.1.1.1.1.0 fits.eax_in
                (omega (arith, room)))
              (word_there h.mem (sp - 4 - 4 - 4 - 4) (s + 4 + 4) ecx there.1.1.1.0 fits.ecx_in
                (omega (arith, room)))
              (word_there h.mem (sp - 4 - 4 - 4) (s + 4 + 4 + 4) edx there.1.1.0 fits.edx_in
                (omega (arith, room)))
              (word_there h.mem (sp - 4 - 4) (s + 4 + 4 + 4 + 4) p.cpu.eflags there.1.0 flags_in
                (omega (arith, room)))
              (word_there h.mem (sp - 4) (s + 4 + 4 + 4 + 4 + 4) p.cpu.eip there.0 fits.eip_in
                (omega (arith, room)))
          ∙ ap₂
              (λ k e. (
                ok tt,
                restored (record h { sigframes = p.sigframes })
                    (eax ∷ ecx ∷ edx ∷ b ∷ k ∷ bp' ∷ si' ∷ di' ∷ []) p.cpu.eip e,
              ))
              {x = s + 4 + 4 + 4 + 4 + 4 + 4} {y = sp} (omega (arith, room)) flags_back

      return_masked :
          bit_at act.sa_flags sa_nomask ≡ false
          → sigreturn (at h a c d b (stack_pointer framed + 4) bp' si' di') ≡ (
            ok tt,
            restored
                (record h { sigframes = p.sigframes; blocked = p.blocked })
                (eax ∷ ecx ∷ edx ∷ b ∷ sp ∷ bp' ∷ si' ∷ di' ∷ [])
                p.cpu.eip
                p.cpu.eflags,
          )
      unfolding Stored
      return_masked mask =
          let saved = p.cpu.eip ∷ p.cpu.eflags ∷ edx ∷ ecx ∷ eax ∷ p.blocked ∷ [] in
          let vs : saved_words taking act ≡ saved = rw mask refl in
          let n6 : length (saved_words taking act) ≡ 6 = ap length vs in
          let pointer : stack_pointer framed + 4 ≡ sp - 28 =
            omega (arith, frame.pointer, n6, room) in
          let there =
            Stored-SameWords saved framed.mem h.mem sp (stack_pointer framed + 4) sp same
              (omega (arith, pointer, room)) (omega arith)
              (subst (λ l. Stored framed.mem sp l) vs frame.stored) in
          let s = sp - 28 in
          let e0 : read_u32 h.mem s ≡ ok (sig % 2 ^ 32) =
            same s (sig % 2 ^ 32) (omega (arith, pointer)) (omega (arith, room)) (
              subst (λ k. read_u32 framed.mem k ≡ ok (sig % 2 ^ 32))
                {x = sp - 4 * length (saved_words taking act) - 4} (omega (arith, n6))
                frame.signal) in
          ap (λ k. sigreturn (at h a c d b k bp' si' di')) pointer
          ∙ sigreturn_masked h a c d b s bp' si' di' (sig % 2 ^ 32) p.blocked eax ecx edx
              p.cpu.eflags p.cpu.eip p.sigframes (omega (arith, room, top))
              (frames ∙ frame.frames ∙ ap (λ t. not t ∷ p.sigframes) mask) e0
              (word_there h.mem (sp - 4 - 4 - 4 - 4 - 4 - 4) (s + 4) p.blocked there.1.1.1.1.1.0
                fits.mask_in (omega (arith, room)))
              (word_there h.mem (sp - 4 - 4 - 4 - 4 - 4) (s + 4 + 4) eax there.1.1.1.1.0 fits.eax_in
                (omega (arith, room)))
              (word_there h.mem (sp - 4 - 4 - 4 - 4) (s + 4 + 4 + 4) ecx there.1.1.1.0 fits.ecx_in
                (omega (arith, room)))
              (word_there h.mem (sp - 4 - 4 - 4) (s + 4 + 4 + 4 + 4) edx there.1.1.0 fits.edx_in
                (omega (arith, room)))
              (word_there h.mem (sp - 4 - 4) (s + 4 + 4 + 4 + 4 + 4) p.cpu.eflags there.1.0 flags_in
                (omega (arith, room)))
              (word_there h.mem (sp - 4) (s + 4 + 4 + 4 + 4 + 4 + 4) p.cpu.eip there.0 fits.eip_in
                (omega (arith, room)))
          ∙ ap₂
              (λ k e. (
                ok tt,
                restored (record h { sigframes = p.sigframes; blocked = p.blocked })
                    (eax ∷ ecx ∷ edx ∷ b ∷ k ∷ bp' ∷ si' ∷ di' ∷ []) p.cpu.eip e,
              ))
              {x = s + 4 + 4 + 4 + 4 + 4 + 4 + 4} {y = sp} (omega (arith, room)) flags_back

      -- A frame is built where the stack has room for it: the handler starts with the bits of its mask
      -- masked too, on a stack whose first word is the restorer, or the address at which the kernel takes
      -- over, and whose second is the signal, and the words of the stack are as they were. When it returns
      -- through the kernel, having popped the restorer and kept the words of the frame, the process goes on
      -- where the signal came: with the `eax`, `ecx` and `edx`, the flags, the stack pointer and the frames
      -- of then, and with the mask of then unless the action has SA_NOMASK, where the mask is the handler's.
      -- The other registers and the memory are what the handler left.
      pub sigreturn-push_frame :
          ((push_frame sig act taking).1 ≡ ok tt)
          × (framed.cpu.eip ≡ act.handler)
          × (framed.blocked ≡ bit_or p.blocked act.mask)
          × (read_u32 framed.mem (stack_pointer framed) ≡ ok (return_to act % 2 ^ 32))
          × (read_u32 framed.mem (stack_pointer framed + 4) ≡ ok (sig % 2 ^ 32))
          × SameFrom sp p.mem framed.mem
          × (sigreturn (at h a c d b (stack_pointer framed + 4) bp' si' di') ≡ (
            ok tt,
            record h {
              cpu = record {
                regs = eax ∷ ecx ∷ edx ∷ b ∷ sp ∷ bp' ∷ si' ∷ di' ∷ [];
                eip = p.cpu.eip;
                eflags = p.cpu.eflags;
              };
              sigframes = p.sigframes;
              blocked = if bit_at act.sa_flags sa_nomask then h.blocked else p.blocked;
            },
          ))
      sigreturn-push_frame =
          let short : length (saved_words taking act) ≤ 6 = ground arith in
          (
            frame.done,
            frame.handler,
            frame.masked,
            subst (λ k. read_u32 framed.mem k ≡ ok (return_to act % 2 ^ 32)) (sym frame.pointer)
                frame.return,
            subst (λ k. read_u32 framed.mem k ≡ ok (sig % 2 ^ 32))
                (omega (arith, frame.pointer, room, short)) frame.signal,
            frame.above,
            elim (Bool-cases (bit_at act.sa_flags sa_nomask)) [
              | inl y ↦ rw y (return_plain y)
              | inr n ↦ rw n (return_masked n)
            ],
          )

-- ===== src/Kernel/Framing.antt =====
-- The frame that kernel.py builds for a handler, word by word.
use minixfs.Prelude.{
  ℕ, ◌+◌, ◌-◌, ◌*◌, ◌%◌, ◌^◌, ◌≤◌, ◌≡◌, refl, sym, ap, subst, ◌∙◌, ◌==◌, not, List, [], ◌∷◌, length,
  if◌then◌else◌, arith, Result, ok,
}
use Prim.Native.Nat.{bit_or}
use minixfs.Memory.{SegFault, task_size, read_u32}
use minixfs.Memory.Inv.{IsValid}
use minixfs.Kernel.State.{Process, SigAction, Done, bit_at}
use minixfs.Kernel.Frames.{
  sa_nomask, push_words, saved_words, spent, push_frame, with_stack, stack_pointer, magic_sigreturn,
}
use minixfs.Kernel.Pushing.{SameFrom, Stored, push_words_lem, Stored-SameWords}
use minixfs.Kernel.Popping.{at}

-- Where the handler returns to.
abbrev pub return_to : SigAction → ℕ
return_to act = if act.restorer == 0 then magic_sigreturn else act.restorer

abbrev last_words : ℕ → SigAction → List ℕ
last_words sig act = sig ∷ return_to act ∷ []

module _ {I : Type 0} where
  -- The pointer, the record of the frame and the words of one that is built.
  pub record Framed (sig : ℕ) (act : SigAction) (p : Process I) (sp : ℕ) (n : ℕ) : Type 0 where
    pub done : (push_frame sig act p).1 ≡ ok tt
    pub pointer : stack_pointer (push_frame sig act p).0 ≡ sp - 4 * n - 8
    pub frames :
        (push_frame sig act p).0.sigframes ≡ not (bit_at act.sa_flags sa_nomask) ∷ p.sigframes
    pub stored : Stored (push_frame sig act p).0.mem sp (saved_words p act)
    pub signal : read_u32 (push_frame sig act p).0.mem (sp - 4 * n - 4) ≡ ok (sig % 2 ^ 32)
    pub return :
        read_u32 (push_frame sig act p).0.mem (sp - 4 * n - 8) ≡ ok (return_to act % 2 ^ 32)
    pub handler : (push_frame sig act p).0.cpu.eip ≡ act.handler
    pub masked : (push_frame sig act p).0.blocked ≡ bit_or p.blocked act.mask
    pub above : SameFrom sp p.mem (push_frame sig act p).0.mem

  pub push_frame_lem :
      (p : Process I) (sig : ℕ) (act : SigAction) (eax ecx edx ebx sp bp si di : ℕ)
      → IsValid p.mem
      → p.mem.low_end + 32 ≤ sp
      → sp ≤ task_size
      → Framed sig act
          (at p eax ecx edx ebx sp bp si di)
          sp
          (length (saved_words (at p eax ecx edx ebx sp bp si di) act))
  unfolding push_frame Stored
  push_frame_lem p sig act eax ecx edx ebx sp bp si di g room top =
      let p' = at p eax ecx edx ebx sp bp si di in
      let vs = saved_words p' act in
      let short : length vs ≤ 6 = ground arith in
      let one = push_words_lem vs p.mem sp g (omega (arith, room, short)) top in
      let m1 = (push_words vs p.mem sp).0 in
      let sp1 = (push_words vs p.mem sp).1 in
      let two =
        push_words_lem (last_words sig act) m1 sp1 one.kept.valid
          (omega (arith, room, short, one.down, one.kept.same)) (omega (arith, top, one.down)) in
      let m2 = (push_words (last_words sig act) m1 sp1).0 in
      let sp2 = (push_words (last_words sig act) m1 sp1).1 in
      let q = with_stack (with_stack p' m1 sp1) m2 sp2 in
      let whole : push_frame sig act p' ≡ (
        record (with_stack p' m2 sp2) {
          cpu = record (with_stack p' m2 sp2).cpu { eip = act.handler };
          blocked = bit_or p.blocked act.mask;
          sigactions = spent sig act p.sigactions;
          sigframes = not (bit_at act.sa_flags sa_nomask) ∷ p.sigframes;
        },
        ok tt,
      ) =
        rw (one.done, two.done, push_frame) refl in
      let there =
        Stored-SameWords vs m1 m2 sp sp1 sp (λ a v lo hi e. two.above a v lo e)
          (omega (arith, one.down, room, short)) (omega arith) one.stored in
      record {
        done = ap (λ x. x.1) whole;
        pointer = ap (λ x. stack_pointer x.0) whole ∙ two.down ∙ omega (arith, one.down);
        frames = ap (λ x. x.0.sigframes) whole;
        stored =
            subst (λ (x : Process I × Result SegFault Done). Stored x.0.mem sp vs) (sym whole)
              there;
        signal =
            subst
              (λ (x : Process I × Result SegFault Done).
                read_u32 x.0.mem (sp - 4 * length vs - 4) ≡ ok (sig % 2 ^ 32))
              (sym whole)
              (subst (λ k. read_u32 m2 (k - 4) ≡ ok (sig % 2 ^ 32)) one.down two.stored.0);
        return =
            subst
              (λ (x : Process I × Result SegFault Done).
                read_u32 x.0.mem (sp - 4 * length vs - 8) ≡ ok (return_to act % 2 ^ 32))
              (sym whole)
              (subst (λ k. read_u32 m2 k ≡ ok (return_to act % 2 ^ 32)) {x = sp1 - 4 - 4}
                (omega (arith, one.down)) two.stored.1.0);
        handler = ap (λ x. x.0.cpu.eip) whole;
        masked = ap (λ x. x.0.blocked) whole;
        above =
            subst (λ (x : Process I × Result SegFault Done). SameFrom sp p.mem x.0.mem) (sym whole)
              (λ a v lo e. two.above a v (omega (arith, lo, one.down)) (one.above a v lo e));
      }

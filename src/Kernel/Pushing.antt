-- ===== src/Kernel/Pushing.antt =====
-- What pushing words on the user stack leaves, for the frames of kernel.py.
use minixfs.Prelude.{
  ℕ, ◌+◌, ◌-◌, ◌*◌, ◌%◌, ◌^◌, ◌≤◌, ◌≡◌, refl, sym, ap, subst, ◌∙◌, inr, List, [], ◌∷◌, length,
  arith, Result, ok,
}
use minixfs.Memory.{AddressSpace, SegFault, task_size, read_u32, write_u32}
use minixfs.Memory.Inv.{IsValid}
use minixfs.Memory.Words.{read_u32-write_u32}
use minixfs.Memory.Apart.{Kept, word_step, read_u32-write_u32_apart}
use minixfs.Kernel.State.{Done}
use minixfs.Kernel.Frames.{push_words}

module _ {I : Type 0} where
  -- Words pushed from `sp` downwards are there.
  unfoldable pub Stored : AddressSpace I → ℕ → List ℕ → Type 0
  Stored m sp [] = Unit
  Stored m sp (v ∷ vs) = (read_u32 m (sp - 4) ≡ ok (v % 2 ^ 32)) × Stored m (sp - 4) vs

  -- The words from an address on are the same.
  abbrev pub SameFrom : ℕ → AddressSpace I → AddressSpace I → Type 0
  SameFrom lo m t = (a v : ℕ) → lo ≤ a → read_u32 m a ≡ ok v → read_u32 t a ≡ ok v

  pub record Pushed (m : AddressSpace I) (sp : ℕ) (vs : List ℕ) : Type 0 where
    pub done : (push_words vs m sp).2 ≡ ok tt
    pub down : (push_words vs m sp).1 ≡ sp - 4 * length vs
    pub kept : Kept m (push_words vs m sp).0
    pub stored : Stored (push_words vs m sp).0 sp vs
    pub above : SameFrom sp m (push_words vs m sp).0

  pub push_words_lem :
      (vs : List ℕ) (m : AddressSpace I) (sp : ℕ)
      → IsValid m
      → m.low_end + 4 * length vs ≤ sp
      → sp ≤ task_size
      → Pushed m sp vs
  unfolding push_words Stored
  push_words_lem [] m sp g room top = record {
    done = refl;
    down = omega arith;
    kept = record { valid = g; same = refl };
    stored = tt;
    above = λ a v p h. h;
  }
  push_words_lem (v ∷ vs) m sp g room top =
      let a_eq : (sp + 2 ^ 32 - 4) % 2 ^ 32 ≡ sp - 4 = omega (arith, room, top) in
      let (w, k) = word_step m (sp - 4) v g (omega (arith, room)) (omega (arith, room, top)) in
      let m1 = (write_u32 m (sp - 4) v).0 in
      let rest =
        push_words_lem vs m1 (sp - 4) k.valid (omega (arith, room, k.same)) (omega (arith, top)) in
      let a = (sp + 2 ^ 32 - 4) % 2 ^ 32 in
      let stored_there =
        (word_step m a v g (omega (arith, room, a_eq)) (omega (arith, room, top, a_eq))).0 in
      let next : push_words (v ∷ vs) m sp ≡ push_words vs m1 (sp - 4) =
        rw (stored_there, push_words) refl ∙ ap (λ b. push_words vs (write_u32 m b v).0 b) a_eq in
      record {
        done = ap (λ x. x.2) next ∙ rest.done;
        down = ap (λ x. x.1) next ∙ rest.down ∙ omega arith;
        kept = rw next (record { valid = rest.kept.valid; same = rest.kept.same ∙ k.same });
        stored =
            subst (λ (x : AddressSpace I × ℕ × Result SegFault Done). Stored x.0 sp (v ∷ vs))
              (sym next)
              (
                rest.above (sp - 4) (v % 2 ^ 32) (omega arith)
                    (read_u32-write_u32 m (sp - 4) v g w),
                rest.stored,
              );
        above = λ b x p h. rw next (
            rest.above b x (omega arith) (
              read_u32-write_u32_apart m b (sp - 4) x v g (omega (arith, room))
                (inr (omega (arith, room))) h));
      }

  -- The words between two addresses are the same.
  abbrev pub SameWords : ℕ → ℕ → AddressSpace I → AddressSpace I → Type 0
  SameWords lo hi m t = (a v : ℕ) → lo ≤ a → a + 4 ≤ hi → read_u32 m a ≡ ok v → read_u32 t a ≡ ok v

  pub Stored-SameWords :
      (vs : List ℕ) (m t : AddressSpace I) (sp lo hi : ℕ)
      → SameWords lo hi m t
      → lo + 4 * length vs ≤ sp
      → sp ≤ hi
      → Stored m sp vs
      → Stored t sp vs
  unfolding Stored
  Stored-SameWords [] m t sp lo hi same room top h = tt
  Stored-SameWords (v ∷ vs) m t sp lo hi same room top h = (
    same (sp - 4) (v % 2 ^ 32) (omega (arith, room)) (omega (arith, room, top)) h.0,
    Stored-SameWords vs m t (sp - 4) lo hi same (omega (arith, room)) (omega (arith, top)) h.1,
  )

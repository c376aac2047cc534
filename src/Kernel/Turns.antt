-- ===== src/Kernel/Turns.antt =====
-- The turns of the processes in the scheduler of kernel.py.
use minixfs.Prelude.{
  ℕ, suc, ◌≡◌, refl, sym, ap, ◌∙◌, subst, Bool, true, false, not, ◌&&◌, Bool-cases, Option-cases,
  inl, inr, Option, some, none, List, [], ◌∷◌, ◌++◌, length, if◌then◌else◌, ok, arith,
}
use minixfs.Overlay.Dict.{Table, table_get}
use minixfs.Kernel.State.{Process, Kernel}
use minixfs.Kernel.Signals.{is_zombie}
use minixfs.Kernel.Procs.{can_run, pick_from, pick}

module _ {I : Type 0} (procs : Table (Process I)) where
  -- The process is there and can run; it is there and has not ended.
  abbrev pub runs : ℕ → Bool
  runs n = elim (table_get n procs) [ none ↦ false | some p ↦ can_run p ]

  abbrev pub lives : ℕ → Bool
  lives n = elim (table_get n procs) [ none ↦ false | some p ↦ not (is_zombie p.state) ]

  -- None of them can run, and those of them that live.
  abbrev pub idle : List ℕ → Bool
  idle [] = true
  idle (n ∷ ns) = not (runs n) && idle ns

  abbrev pub living : List ℕ → List ℕ
  living [] = []
  living (n ∷ ns) = let rest = living ns in if lives n then n ∷ rest else rest

  -- A turn from a queue: nobody can run, or the first that can has its turn and goes to the end,
  -- behind those before it that live.
  abbrev pub IsTurn : List ℕ → List ℕ → Option ℕ → List ℕ → Type 0
  IsTurn q behind none q' = (idle q ≡ true) × (q' ≡ behind ++ living q)
  IsTurn q behind (some n) q' =
      (before : List ℕ) × (after : List ℕ) × (q ≡ before ++ n ∷ after)
      × (idle before ≡ true)
      × (runs n ≡ true)
      × (q' ≡ after ++ ((behind ++ living before) ++ n ∷ []))

  one_more :
      (n : ℕ) (q behind behind' : List ℕ) (r : Option ℕ) (q' : List ℕ)
      → runs n ≡ false
      → ((before : List ℕ) → behind' ++ living before ≡ behind ++ living (n ∷ before))
      → IsTurn q behind' r q'
      → IsTurn (n ∷ q) behind r q'
  one_more n q behind behind' none q' no_turn same (all, e) =
      (ground (arith, no_turn, all), e ∙ same q)
  one_more n q behind behind' (some m) q' no_turn same (before, after, split, all, can, e) = (
    n ∷ before,
    after,
    ap (λ t. n ∷ t) split,
    ground (arith, no_turn, all),
    can,
    e ∙ ap (λ t. after ++ (t ++ m ∷ [])) (same before),
  )

  append_assoc : (xs ys zs : List ℕ) → (xs ++ ys) ++ zs ≡ xs ++ (ys ++ zs)
  append_assoc [] ys zs = refl
  append_assoc (x ∷ xs) ys zs = ap (λ t. x ∷ t) (append_assoc xs ys zs)

  append_nil : (xs : List ℕ) → xs ++ [] ≡ xs
  append_nil [] = refl
  append_nil (x ∷ xs) = ap (λ t. x ∷ t) (append_nil xs)

  -- The next process of the queue is looked at.
  pick_gone :
      (n k : ℕ) (q : List ℕ)
      → lives n ≡ false
      → pick_from procs (suc k) (n ∷ q) ≡ pick_from procs k q
  unfolding pick_from
  pick_gone n k q h = elim (Option-cases (table_get n procs)) [
    | inl e ↦ ground (arith, h, e)
    | inr (p, e) ↦ ground (arith, h, e)
  ]

  pick_first :
      (n k : ℕ) (q : List ℕ)
      → runs n ≡ true
      → pick_from procs (suc k) (n ∷ q) ≡ (some n, q ++ n ∷ [])
  unfolding pick_from
  pick_first n k q h = elim (Option-cases (table_get n procs)) [
    | inl e ↦ ground (arith, h, e)
    | inr (p, e) ↦ ground (arith, h, e)
  ]

  pick_later :
      (n k : ℕ) (q : List ℕ)
      → lives n ≡ true
      → runs n ≡ false
      → pick_from procs (suc k) (n ∷ q) ≡ pick_from procs k (q ++ n ∷ [])
  unfolding pick_from
  pick_later n k q h h' = elim (Option-cases (table_get n procs)) [
    | inl e ↦ ground (arith, h, e)
    | inr (p, e) ↦ ground (arith, h, h', e)
  ]

  not_gone : (n : ℕ) → lives n ≡ false → runs n ≡ false
  not_gone n h = elim (Option-cases (table_get n procs)) [
    | inl e ↦ ground (arith, h, e)
    | inr (p, e) ↦ ground (arith, h, e)
  ]

  -- A turn may be seen from what the choice is equal to.
  seen :
      (q behind : List ℕ) {a b : Option ℕ × List ℕ}
      → a ≡ b
      → IsTurn q behind b.0 b.1
      → IsTurn q behind a.0 a.1
  seen q behind e t = subst (λ r. IsTurn q behind r.0 r.1) (sym e) t

  pick_from-IsTurn :
      (q behind : List ℕ)
      → IsTurn q behind
          (pick_from procs (length q) (q ++ behind)).0
          (pick_from procs (length q) (q ++ behind)).1
  unfolding pick_from
  pick_from-IsTurn [] behind = (refl, sym (append_nil behind))
  pick_from-IsTurn (n ∷ q) behind = elim (Bool-cases (runs n)) [
    | inl can ↦
        seen (n ∷ q) behind {b = (some n, (q ++ behind) ++ n ∷ [])}
          (pick_first n (length q) (q ++ behind) can)
          (
            [],
            q,
            refl,
            refl,
            can,
            append_assoc q behind (n ∷ []) ∙ ap (λ t. q ++ (t ++ n ∷ [])) (sym (append_nil behind)),
          )
    | inr no_turn ↦ elim (Bool-cases (lives n)) [
      | inr gone ↦ seen (n ∷ q) behind (pick_gone n (length q) (q ++ behind) gone) (
          one_more n q behind behind _ _ no_turn (λ before. ground (arith, gone))
            (pick_from-IsTurn q behind))
      | inl there ↦
          seen (n ∷ q) behind
            (pick_later n (length q) (q ++ behind) there no_turn
              ∙ ap (pick_from procs (length q)) (append_assoc q behind (n ∷ [])))
            (one_more n q behind (behind ++ n ∷ []) _ _ no_turn
              (λ before. append_assoc behind (n ∷ []) (living before) ∙ ground (arith, there))
              (pick_from-IsTurn q (behind ++ n ∷ [])))
    ]
  ]

module _ {I : Type 0} where
  -- The choice of the next process always ends with a number or none. With none, no process of the
  -- queue can run, and the queue keeps the living ones in order. With a number, it is that of the
  -- first process of the queue that can run: none before it can, and afterwards it stands last, behind
  -- those that stood after it and then those before it that live.
  pub pick_turns :
      (s : Kernel I)
      → (r : Option ℕ) × ((pick s).0 ≡ ok r) × IsTurn s.procs s.runq [] r (pick s).1.runq
  unfolding pick
  pick_turns s = (
    (pick_from s.procs (length s.runq) s.runq).0,
    refl,
    subst
        (λ t.
          IsTurn s.procs s.runq [] (pick_from s.procs (length s.runq) t).0
            (pick_from s.procs (length s.runq) t).1)
        (append_nil s.procs s.runq) (pick_from-IsTurn s.procs s.runq []),
  )

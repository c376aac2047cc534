-- ===== src/Kernel/Marked.antt =====
-- `execve` of kernel.py closes the descriptors that are marked, and no others.
use minixfs.Prelude.{
  ℕ, zero, suc, ◌+◌, ◌≤◌, ◌<◌, ◌≡◌, refl, sym, ap, ◌∙◌, true, false, Bool-cases, ◌⊎◌, inl, inr,
  Option, Option-cases, none, some, List, [], if◌then◌else◌, get_or, get_or-set, lt-cases, set,
  length, ok, arith,
}
use minixfs.Overlay.Dict.{table_get, table_set, table_get-table_set}
use minixfs.Kernel.State.{Process, Kernel, bit_at, proc}
use minixfs.Kernel.Fds.{close, get_file, set_fd}
use minixfs.Kernel.Counts.{Counted}
use minixfs.Kernel.Balance.{release_file-Counted}
use minixfs.Kernel.Slots.{set_fd_lem, file_there, clear-Counted, slot_inside}
use minixfs.Kernel.Execve.{is_marked, close_marked}

-- The slots after those from `i` on, `n` of them, have been closed where they are marked.
pub record Closed (marks i n : ℕ) (fds fds' : List (Option ℕ)) : Type 0 where
  pub inside :
      (j : ℕ)
      → i ≤ j
      → j < i + n
      → get_or fds' j none ≡ (if bit_at marks j then none else get_or fds j none)
  pub outside : (j : ℕ) → (j < i) ⊎ (i + n ≤ j) → get_or fds' j none ≡ get_or fds j none

module _ (marks i n : ℕ) (fds fds' : List (Option ℕ)) where
  -- A slot that is free, or not marked, is left.
  skip_lem :
      (get_or fds i none ≡ (if bit_at marks i then none else get_or fds i none))
      → Closed marks (i + 1) n fds fds'
      → Closed marks i (suc n) fds fds'
  skip_lem same k = record {
    inside = λ j low high. elim (lt-cases i j) [
      | inl after ↦ k.inside j (omega (arith, after)) (omega (arith, high))
      | inr upto ↦
          k.outside j (inl (omega (arith, upto)))
          ∙ ap (λ u. get_or fds u none) {y = i} (omega (arith, low, upto))
          ∙ same
          ∙ ap (λ u. if bit_at marks u then none else get_or fds u none) {y = j}
              (omega (arith, low, upto))
    ];
    outside = λ j where_it. elim where_it [
      | inl low ↦ k.outside j (inl (omega (arith, low)))
      | inr high ↦ k.outside j (inr (omega (arith, high)))
    ];
  }

  take_lem :
      i < length fds
      → bit_at marks i ≡ true
      → Closed marks (i + 1) n (set fds i none) fds'
      → Closed marks i (suc n) fds fds'
  take_lem there marked k = record {
    inside = λ j low high. elim (lt-cases i j) [
      | inl after ↦
          k.inside j (omega (arith, after)) (omega (arith, high))
          ∙ ap (λ x. if bit_at marks j then none else x) (other j (inr after))
      | inr upto ↦
          let same : j ≡ i = omega (arith, low, upto) in
          k.outside j (inl (omega (arith, upto)))
          ∙ ap (λ u. get_or (set fds i none) u none) same
          ∙ ground (arith, get_or-set fds i i none none there)
          ∙ sym (ap (λ b. if b then none else get_or fds j none) (ap (bit_at marks) same ∙ marked))
    ];
    outside = λ j where_it. elim where_it [
      | inl low ↦ k.outside j (inl (omega (arith, low))) ∙ other j (inl low)
      | inr high ↦ k.outside j (inr (omega (arith, high))) ∙ other j (inr (omega (arith, high)))
    ];
  }
    where
      other : (j : ℕ) → (j < i) ⊎ (i < j) → get_or (set fds i none) j none ≡ get_or fds j none
      other j apart = get_or-set fds i j none none there ∙ ground (arith, apart)

module _ {I : Type 0} (pid : ℕ) where
  -- Closing an open descriptor of a kernel whose counts are right does what is asked.
  close_lem :
      (s : Kernel I) (p : Process I) (fd f : ℕ)
      → Counted [] s
      → table_get pid s.procs ≡ some p
      → get_or p.fds fd none ≡ some f
      → (s' : Kernel I) × (close pid fd s ≡ (ok 0, s'))
        × Counted [] s'
        × (table_get pid s'.procs ≡ some (record p { fds = set p.fds fd none }))
  unfolding close get_file proc
  close_lem s p fd f c at h =
      let p' = record p { fds = set p.fds fd none } in
      let clear = set_fd_lem s pid p fd none at in
      let c1 = clear-Counted pid p at c fd f h in
      let (o, there) = file_there pid p at c fd f h in
      let s1 = (set_fd pid fd none s).1 in
      let (s2, gone, c2, kept) =
        release_file-Counted f o (ap (λ r. table_get f r.1.files) clear ∙ there) c1 in
      (
        s2,
        ground (arith, at, h, clear, gone),
        c2,
        ap (λ t. table_get pid t) (kept ∙ ap (λ r. r.1.procs) clear)
            ∙ ap (λ k. table_get pid (table_set k p' s.procs)) (c.pids pid p at)
            ∙ ground (arith, table_get-table_set pid pid p' s.procs),
      )

  unmarked_lem :
      (p : Process I) (i : ℕ)
      → is_marked p i ≡ false
      → get_or p.fds i none ≡ (if bit_at p.close_on_exec i then none else get_or p.fds i none)
  unmarked_lem p i unmarked = elim (Option-cases (get_or p.fds i none)) [
    | inl free ↦ ground (arith, free)
    | inr (f, h) ↦ ground (arith, unmarked, h)
  ]

  pub close_marked_lem :
      (n i : ℕ) (s : Kernel I) (p : Process I)
      → Counted [] s
      → table_get pid s.procs ≡ some p
      → (s' : Kernel I) × (fds' : List (Option ℕ)) × (close_marked pid n i s ≡ (ok tt, s'))
        × Counted [] s'
        × (table_get pid s'.procs ≡ some (record p { fds = fds' }))
        × Closed p.close_on_exec i n p.fds fds'
  unfolding close_marked proc
  close_marked_lem zero i s p c at = (
    s,
    p.fds,
    refl,
    c,
    at,
    record { inside = λ j a b. ground (arith, a, b); outside = λ j a. refl },
  )
  close_marked_lem (suc n) i s p c at = elim (Bool-cases (is_marked p i)) [
    | inr unmarked ↦
        let (s', fds', run, c', at', k) = close_marked_lem n (i + 1) s p c at in
        (
          s',
          fds',
          ground (arith, at, unmarked, run),
          c',
          at',
          skip_lem p.close_on_exec i n p.fds fds' (unmarked_lem p i unmarked) k,
        )
    | inl marked ↦ elim (Option-cases (get_or p.fds i none)) [
      | inl free ↦ ground (arith, marked, free)
      | inr (f, h) ↦
          let (s1, closed, c1, at1) = close_lem s p i f c at h in
          let (s', fds', run, c', at', k) =
            close_marked_lem n (i + 1) s1 (record p { fds = set p.fds i none }) c1 at1 in
          (
            s',
            fds',
            ground (arith, at, marked, closed, run),
            c',
            at',
            take_lem p.close_on_exec i n p.fds fds' (slot_inside p.fds i f h)
                (ground (arith, marked, h)) k,
          )
    ]
  ]

-- ===== src/Kernel/Slots.antt =====
-- The slots of a process of kernel.py, and the counts when a descriptor is put into one or taken out.
use minixfs.Prelude.{
  ℕ, suc, ◌+◌, ◌-◌, ◌≤◌, ◌<◌, ◌≡◌, sym, ap, ◌∙◌, subst, Bool-cases, Option-cases, ◌⊎◌, inl, inr,
  Option, none, some, List, [], ◌∷◌, leb, get_or, get_or_out, lt-cases, set, length, length-set, ok,
  err, arith,
}
use minixfs.Overlay.Dict.{
  table_get, table_set, table_get-table_set, total-table_set, total-table_del,
}
use minixfs.Kernel.State.{
  Trap, errno, dangling, ebadf, emfile, OpenFile, Process, Kernel, proc, put_proc,
}
use minixfs.Kernel.Fds.{first_free, alloc_fd, get_file, set_fd}
use minixfs.Kernel.Counts.{Counted, occurrences, held, held-set}

pub first_free_lem :
    (fds : List (Option ℕ)) (i start fd : ℕ)
    → first_free fds i start ≡ some fd
    → (i ≤ fd) × (fd < i + length fds) × (get_or fds (fd - i) none ≡ none)
unfolding first_free
first_free_lem [] i start fd h = cc
first_free_lem (some f ∷ fds) i start fd h =
    let (a, b, c) = first_free_lem fds (i + 1) start fd h in
    (omega arith, omega arith, rw (shift fd i a) c)
  where
    shift : (fd i : ℕ) → i + 1 ≤ fd → fd - i ≡ suc (fd - (i + 1))
    shift fd i h = omega arith
first_free_lem (none ∷ fds) i start fd h = elim (Bool-cases (leb start i)) [
  | inl e ↦ ground (arith, h, e)
  | inr e ↦
      let (a, b, c) = first_free_lem fds (i + 1) start fd (ground (arith, h, e)) in
      (omega arith, omega arith, rw (shift fd i a) c)
]
  where
    shift : (fd i : ℕ) → i + 1 ≤ fd → fd - i ≡ suc (fd - (i + 1))
    shift fd i h = omega arith

module _ {I : Type 0} {extra extra' : List ℕ} {s : Kernel I} {pid : ℕ} {p : Process I}
    (at : table_get pid s.procs ≡ some p) where
  -- A process may be replaced by one whose descriptors differ by what passes into or out of hand.
  pub put_proc-Counted :
      (p' : Process I)
      → p'.pid ≡ pid
      → length p'.fds ≡ length p.fds
      → ((g : ℕ) → held g p.fds + occurrences g extra ≡ held g p'.fds + occurrences g extra')
      → Counted extra s
      → Counted extra' (record s { procs = table_set p'.pid p' s.procs })
  put_proc-Counted p' e len same c = record {
    refs = λ g. ground (
      arith,
      at,
      e,
      same g,
      c.refs g,
      total-table_set (λ (q : Process I). held g q.fds) p'.pid p' s.procs,
    );
    readers = c.readers;
    writers = c.writers;
    pipes_there = c.pipes_there;
    pids = λ n q h. ground (arith, e, h, c.pids n q, table_get-table_set p'.pid n p' s.procs);
    slots = λ n q h. ground (
      arith,
      e,
      h,
      at,
      len,
      c.slots n q,
      c.slots pid p at,
      table_get-table_set p'.pid n p' s.procs,
    );
    fresh_pids =
        λ n h. ground (arith, e, h, at, c.fresh_pids n h, table_get-table_set p'.pid n p' s.procs);
    distinct_files = c.distinct_files;
    fresh_files = c.fresh_files;
    fresh_pipes = c.fresh_pipes;
  }

-- A process may be replaced by one with the same descriptors.
pub put_same-Counted :
    {I : Type 0} {extra : List ℕ} {s : Kernel I} {pid : ℕ} {p : Process I} (p' : Process I)
    → table_get pid s.procs ≡ some p
    → p'.pid ≡ pid
    → p'.fds ≡ p.fds
    → Counted extra s
    → Counted extra (record s { procs = table_set pid p' s.procs })
put_same-Counted {extra} {s} p' at e same c =
    subst (λ k. Counted extra (record s { procs = table_set k p' s.procs })) e
      (put_proc-Counted at p' e (ap (λ t. length t) same)
        (λ g. ap (λ t. held g t + occurrences g extra) (sym same)) c)

module _ {I : Type 0} (s : Kernel I) (pid : ℕ) where
  pub proc-cases :
      ((x : Trap) × (proc pid s ≡ (err x, s)))
      ⊎ ((p : Process I) × (table_get pid s.procs ≡ some p) × (proc pid s ≡ (ok p, s)))
  unfolding proc
  proc-cases = elim (Option-cases (table_get pid s.procs)) [
    | inl e ↦ inl (dangling pid, ground (arith, e))
    | inr (p, e) ↦ inr (p, e, ground (arith, e))
  ]

  pub get_file-cases :
      (fd : ℕ)
      → ((x : Trap) × (get_file pid fd s ≡ (err x, s)))
        ⊎ ((p : Process I) × (f : ℕ) × (table_get pid s.procs ≡ some p)
            × (get_or p.fds fd none ≡ some f)
            × (get_file pid fd s ≡ (ok f, s)))
  unfolding get_file
  get_file-cases fd = elim proc-cases [
    | inl (x, e) ↦ inl (x, ground (arith, e))
    | inr (p, at, e) ↦ elim (Option-cases (get_or p.fds fd none)) [
      | inl h ↦ inl (errno ebadf, ground (arith, e, h))
      | inr (f, h) ↦ inr (p, f, at, h, ground (arith, e, h))
    ]
  ]

  pub alloc_fd-cases :
      (start : ℕ)
      → ((x : Trap) × (alloc_fd pid start s ≡ (err x, s)))
        ⊎ ((p : Process I) × (fd : ℕ) × (table_get pid s.procs ≡ some p)
            × (fd < length p.fds)
            × (get_or p.fds fd none ≡ none)
            × (alloc_fd pid start s ≡ (ok fd, s)))
  unfolding alloc_fd
  alloc_fd-cases start = elim proc-cases [
    | inl (x, e) ↦ inl (x, ground (arith, e))
    | inr (p, at, e) ↦ elim (Option-cases (first_free p.fds 0 start)) [
      | inl h ↦ inl (errno emfile, ground (arith, e, h))
      | inr (fd, h) ↦
          let (a, b, c) = first_free_lem p.fds 0 start fd h in
          inr (
            p,
            fd,
            at,
            omega arith,
            ap (λ k. get_or p.fds k none) {y = fd - 0} (omega arith) ∙ c,
            ground (arith, e, h),
          )
    ]
  ]

  pub set_fd_lem :
      (p : Process I) (fd : ℕ) (x : Option ℕ)
      → table_get pid s.procs ≡ some p
      → set_fd pid fd x s
        ≡ (ok tt, record s { procs = table_set p.pid (record p { fds = set p.fds fd x }) s.procs })
  unfolding proc put_proc set_fd
  set_fd_lem p fd x at = ground (arith, at)

pub slot_inside : (xs : List (Option ℕ)) (i f : ℕ) → get_or xs i none ≡ some f → i < length xs
slot_inside xs i f h = elim (lt-cases i (length xs)) [
  | inl p ↦ p
  | inr p ↦ absurd (ground (arith, h, get_or_out none xs i p))
]

module _ {I : Type 0} {extra : List ℕ} {s : Kernel I} (pid : ℕ) (p : Process I)
    (at : table_get pid s.procs ≡ some p) (c : Counted extra s) where
  -- An open file that a process holds is in the table.
  pub held_there : (f : ℕ) → 1 ≤ held f p.fds → (o : OpenFile) × (table_get f s.files ≡ some o)
  held_there f h = elim (Option-cases (table_get f s.files)) [
    | inr there ↦ there
    | inl missing ↦ absurd (
        ground (
          arith,
          at,
          missing,
          h,
          c.refs f,
          total-table_del (λ (q : Process I). held f q.fds) pid s.procs,
        ))
  ]

  pub file_there :
      (fd f : ℕ) → get_or p.fds fd none ≡ some f → (o : OpenFile) × (table_get f s.files ≡ some o)
  file_there fd f h =
      held_there f (ground (arith, h, held-set f p.fds fd none (slot_inside p.fds fd f h)))

  pub fill-Counted :
      (fd f : ℕ) (extra' : List ℕ)
      → extra ≡ f ∷ extra'
      → fd < length p.fds
      → get_or p.fds fd none ≡ none
      → Counted extra' (set_fd pid fd (some f) s).1
  fill-Counted fd f extra' e inside free = rw (set_fd_lem s pid p fd (some f) at) (
      put_proc-Counted at (record p { fds = set p.fds fd (some f) }) (c.pids pid p at)
        (length-set p.fds fd _) (λ g. ground (arith, e, free, held-set g p.fds fd (some f) inside))
        c)

  pub clear-Counted :
      (fd f : ℕ) → get_or p.fds fd none ≡ some f → Counted (f ∷ extra) (set_fd pid fd none s).1
  clear-Counted fd f h = rw (set_fd_lem s pid p fd none at) (
      put_proc-Counted at (record p { fds = set p.fds fd none }) (c.pids pid p at)
        (length-set p.fds fd _)
        (λ g. ground (arith, h, held-set g p.fds fd none (slot_inside p.fds fd f h))) c)

-- ===== src/Kernel/Leaving.antt =====
-- The loops over the slots at fork and exit keep the counts of kernel.py.
use minixfs.Prelude.{
  ℕ, suc, ◌+◌, ◌≤◌, ◌≡◌, refl, sym, ap, ◌∙◌, subst, Option-cases, inl, inr, Option, none, some,
  List, [], ◌∷◌, get_or, set, get_or-set, ok, arith,
}
use minixfs.Overlay.Dict.{Table, table_get, table_set, table_get-table_set}
use minixfs.Overlay.State as Overlay
use minixfs.Kernel.State.{
  FileObj, vnode, pipe, terminal, null_device, OpenFile, Process, Kernel, file, put_file, the_pipe,
  put_pipe,
}
use minixfs.Kernel.Fds.{set_fd, acquire_fd, release_file, close_vnode, close_in_overlay}
use minixfs.Kernel.Procs.{acquire_all, release_all}
use minixfs.Kernel.Counts.{Counted, held, occurrences}
use minixfs.Kernel.Balance.{acquire_fd-Counted, release_file-Counted}
use minixfs.Kernel.Slots.{set_fd_lem, file_there, held_there, clear-Counted, slot_inside}

-- The descriptors in hand once all slots are acquired.
abbrev pub taken : List (Option ℕ) → List ℕ → List ℕ
taken [] extra = extra
taken (none ∷ fds) extra = taken fds extra
taken (some f ∷ fds) extra = taken fds (f ∷ extra)

pub occurrences-taken :
    (g : ℕ) (fds : List (Option ℕ)) (extra : List ℕ)
    → occurrences g (taken fds extra) ≡ held g fds + occurrences g extra
occurrences-taken g [] extra = omega arith
occurrences-taken g (none ∷ fds) extra = omega (arith, occurrences-taken g fds extra)
occurrences-taken g (some f ∷ fds) extra = omega (arith, occurrences-taken g fds (f ∷ extra))

module _ {I : Type 0} where
  acquire_all_step :
      (s s1 : Kernel I) (f : ℕ) (fds : List (Option ℕ))
      → acquire_fd f s ≡ (ok tt, s1)
      → acquire_all (some f ∷ fds) s ≡ acquire_all fds s1
  unfolding acquire_all
  acquire_all_step s s1 f fds run = ground (arith, run)

  -- The slots of a process that is in the table.
  pub acquire_all-Counted :
      (pid : ℕ) (p : Process I) (fds : List (Option ℕ)) (extra : List ℕ) (s : Kernel I)
      → table_get pid s.procs ≡ some p
      → ((g : ℕ) → held g fds ≤ held g p.fds)
      → Counted extra s
      → (s' : Kernel I) × (acquire_all fds s ≡ (ok tt, s'))
        × Counted (taken fds extra) s'
        × (s'.procs ≡ s.procs)
        × (s'.next_pid ≡ s.next_pid)
  unfolding acquire_all
  acquire_all-Counted pid p [] extra s at below c = (s, refl, c, refl, refl)
  acquire_all-Counted pid p (none ∷ fds) extra s at below c =
      acquire_all-Counted pid p fds extra s at (λ g. ground (arith, below g)) c
  acquire_all-Counted pid p (some f ∷ fds) extra s at below c =
      let (o, there) = held_there pid p at c f (ground (arith, below f)) in
      let (s1, run, c1, same, pid_same) = acquire_fd-Counted f o there c in
      let (s2, run2, c2, same2, pid_same2) =
        acquire_all-Counted pid p fds (f ∷ extra) s1 (ap (λ t. table_get pid t) same ∙ at)
          (λ g. ground (arith, below g)) c1 in
      (s2, acquire_all_step s s1 f fds run ∙ run2, c2, same2 ∙ same, pid_same2 ∙ pid_same)

  -- A release does not look at the processes.
  release_with :
      (s : Kernel I) (t : Table (Process I)) (f : ℕ)
      → release_file f (record s { procs = t })
        ≡ ((release_file f s).0, record (release_file f s).1 { procs = t })
  unfolding file put_file the_pipe put_pipe close_in_overlay close_vnode release_file Overlay.put
  release_with s t f = elim (Option-cases (table_get f s.files)) [
    | inl e ↦ ground (arith, e)
    | inr (o, e) ↦ by_obj o o.obj e refl
  ]
    where
      by_obj :
          (o : OpenFile) (x : FileObj)
          → table_get f s.files ≡ some o
          → o.obj ≡ x
          → release_file f (record s { procs = t })
            ≡ ((release_file f s).0, record (release_file f s).1 { procs = t })
      by_obj o terminal e is = ground (arith, e, is)
      by_obj o null_device e is = ground (arith, e, is)
      by_obj o (pipe q) e is = elim (Option-cases (table_get q s.pipes)) [
        | inl h ↦ ground (arith, e, is, h)
        | inr (u, h) ↦ ground (arith, e, is, h)
      ]
      by_obj o (vnode n) e is = elim (Option-cases (table_get n s.fs.vnodes)) [
        | inl h ↦ ground (arith, e, is, h)
        | inr (v, h) ↦ ground (arith, e, is, h)
      ]

  -- A release and the clearing of the slot, in the order of `exit`.
  pub give_back :
      {extra : List ℕ} (pid : ℕ) (p : Process I) (i f : ℕ) (s : Kernel I)
      → table_get pid s.procs ≡ some p
      → get_or p.fds i none ≡ some f
      → Counted extra s
      → (s1 : Kernel I) × (s2 : Kernel I) × (release_file f s ≡ (ok tt, s1))
        × (set_fd pid i none s1 ≡ (ok tt, s2))
        × Counted extra s2
        × (table_get pid s2.procs ≡ some (record p { fds = set p.fds i none }))
  give_back {extra} pid p i f s at h c =
      let p' = record p { fds = set p.fds i none } in
      let t = table_set p.pid p' s.procs in
      let set_eq = set_fd_lem s pid p i none at in
      let c1 : Counted (f ∷ extra) (record s { procs = t }) =
        subst (λ r. Counted (f ∷ extra) r.1) set_eq (clear-Counted pid p at c i f h) in
      let (o, there) = file_there pid p at c i f h in
      let (s', gone, c', kept) = release_file-Counted f o there c1 in
      let same = sym (release_with s t f) ∙ gone in
      let s1 = (release_file f s).1 in
      let procs_kept : s1.procs ≡ s.procs = ap (λ r. r.1.procs) (release_with s s.procs f) in
      let whole : record s1 { procs = t } ≡ s' = ap (λ r. r.1) same in
      (
        s1,
        record s1 { procs = t },
        ap (λ x. (x, s1)) (ap (λ r. r.0) same),
        set_fd_lem s1 pid p i none (ap (λ u. table_get pid u) procs_kept ∙ at)
            ∙ ap (λ u. (ok tt, record s1 { procs = table_set p.pid p' u })) procs_kept,
        subst (λ u. Counted extra u) (sym whole) c',
        ground (arith, c.pids pid p at, table_get-table_set p.pid pid p' s.procs),
      )

  release_all_step :
      (s s1 s2 : Kernel I) (pid i f : ℕ) (fds : List (Option ℕ))
      → release_file f s ≡ (ok tt, s1)
      → set_fd pid i none s1 ≡ (ok tt, s2)
      → release_all pid i (some f ∷ fds) s ≡ release_all pid (i + 1) fds s2
  unfolding release_all
  release_all_step s s1 s2 pid i f fds run run2 = ground (arith, run, run2)

  pub release_all-Counted :
      {extra : List ℕ} (pid : ℕ) (fds : List (Option ℕ)) (p : Process I) (i : ℕ) (s : Kernel I)
      → table_get pid s.procs ≡ some p
      → ((k : ℕ) → get_or p.fds (i + k) none ≡ get_or fds k none)
      → Counted extra s
      → (s' : Kernel I) × (p' : Process I) × (release_all pid i fds s ≡ (ok tt, s'))
        × Counted extra s'
        × (table_get pid s'.procs ≡ some p')
  unfolding release_all
  release_all-Counted pid [] p i s at same c = (s, p, refl, c, at)
  release_all-Counted pid (none ∷ fds) p i s at same c =
      release_all-Counted pid fds p (i + 1) s at
        (λ k.
          ap (λ n. get_or p.fds n none) {x = i + 1 + k} {y = i + suc k} (omega arith)
          ∙ same (suc k))
        c
  release_all-Counted pid (some f ∷ fds) p i s at same c =
      let here : get_or p.fds i none ≡ some f =
        ap (λ n. get_or p.fds n none) {x = i} {y = i + 0} (omega arith) ∙ same 0 in
      let (s1, s2, run, run2, c2, at2) = give_back pid p i f s at here c in
      let p2 = record p { fds = set p.fds i none } in
      let later = λ (k : ℕ).
        get_or-set p.fds i (i + 1 + k) none none (slot_inside p.fds i f here)
        ∙ ground (arith)
        ∙ ap (λ n. get_or p.fds n none) {x = i + 1 + k} {y = i + suc k} (omega arith)
        ∙ same (suc k) in
      let (s', p', run', c', at') = release_all-Counted pid fds p2 (i + 1) s2 at2 later c2 in
      (s', p', release_all_step s s1 s2 pid i f fds run run2 ∙ run', c', at')

-- ===== src/Kernel/Replacing.antt =====
-- `dup2`, `fcntl` and `pipe` keep the counts of kernel.py.
use minixfs.Prelude.{
  ℕ, ◌≤◌, ◌<◌, ◌≡◌, refl, ◌≢◌, ap, ◌∙◌, Bool-cases, Option-cases, Result-cases, ◌⊎◌, inl, inr, none,
  some, [], ◌==◌, get_or, lt-cases, set, length, length-set, get_or-set, ok, err, arith, ==_iff,
}
use minixfs.Overlay.Dict.{table_get, table_set, table_get-table_set}
use minixfs.Kernel.State.{Trap, Done, Process, Kernel, proc, put_proc, clear_bit}
use minixfs.Kernel.Fds.{get_file, set_fd, acquire_fd, close, close_if_open, dup2}
use minixfs.Kernel.Counts.{Counted}
use minixfs.Kernel.Balance.{acquire_fd-Counted, release_file-Counted}
use minixfs.Kernel.Slots.{
  get_file-cases, set_fd_lem, put_same-Counted, file_there, fill-Counted, clear-Counted,
  slot_inside,
}
use minixfs.Kernel.Sharing.{close_steps}

-- The process afterwards, which differs at one slot, and that is free.
abbrev FreedAt : {I : Type 0} → ℕ → ℕ → Process I → Kernel I → Type 0
FreedAt {I} pid fd p s =
    (p' : Process I) × (table_get pid s.procs ≡ some p')
    × (length p'.fds ≡ length p.fds)
    × (get_or p'.fds fd none ≡ none)
    × ((k : ℕ) → k ≢ fd → get_or p'.fds k none ≡ get_or p.fds k none)

module _ {I : Type 0} (pid : ℕ) where
  close_if_open_free :
      (s : Kernel I) (p : Process I) (fd : ℕ)
      → table_get pid s.procs ≡ some p
      → get_or p.fds fd none ≡ none
      → close_if_open pid fd s ≡ (ok tt, s)
  unfolding proc close_if_open
  close_if_open_free s p fd at h = ground (arith, at, h)

  close_if_open_used :
      (s : Kernel I) (p : Process I) (fd f : ℕ)
      → table_get pid s.procs ≡ some p
      → get_or p.fds fd none ≡ some f
      → (close_if_open pid fd s).1 ≡ (close pid fd s).1
  unfolding proc close_if_open
  close_if_open_used s p fd f at h = elim (Result-cases (close pid fd s).0) [
    | inl (a, e) ↦ ground (arith, at, h, e)
    | inr (x, e) ↦ ground (arith, at, h, e)
  ]

  get_file_used :
      (s : Kernel I) (p : Process I) (fd f : ℕ)
      → table_get pid s.procs ≡ some p
      → get_or p.fds fd none ≡ some f
      → get_file pid fd s ≡ (ok f, s)
  unfolding proc get_file
  get_file_used s p fd f at h = ground (arith, at, h)

  close_if_open-Counted :
      (s : Kernel I) (p : Process I) (fd : ℕ)
      → table_get pid s.procs ≡ some p
      → Counted [] s
      → Counted [] (close_if_open pid fd s).1 × FreedAt pid fd p (close_if_open pid fd s).1
  close_if_open-Counted s p fd at c = elim (Option-cases (get_or p.fds fd none)) [
    | inl h ↦ rw (close_if_open_free s p fd at h) (c, (p, at, refl, h, λ k ne. refl))
    | inr (f, h) ↦
        let (o, there) = file_there pid p at c fd f h in
        let s1 = (set_fd pid fd none s).1 in
        let c1 = clear-Counted pid p at c fd f h in
        let files_same : s1.files ≡ s.files = ap (λ r. r.1.files) (set_fd_lem s pid p fd none at) in
        let (s2, gone, c2, kept) =
          release_file-Counted f o (ap (λ t. table_get f t) files_same ∙ there) c1 in
        let p' = record p { fds = set p.fds fd none } in
        let procs_now : s2.procs ≡ table_set p.pid p' s.procs =
          kept ∙ ap (λ r. r.1.procs) (set_fd_lem s pid p fd none at) in
        let inside = slot_inside p.fds fd f h in
        rw (close_if_open_used s p fd f at h) (
          rw (close_steps pid s p fd f at (get_file_used s p fd f at h)) (
            rw gone (
              c2,
              (
                p',
                ap (λ t. table_get pid t) procs_now
                    ∙ ground (arith, c.pids pid p at, table_get-table_set p.pid pid p' s.procs),
                length-set p.fds fd none,
                get_or-set p.fds fd fd none none inside ∙ ground arith,
                λ k ne. get_or-set p.fds fd k none none inside ∙ ground (arith, ne),
              ),
            )))
  ]

  dup2_early :
      (s : Kernel I) (oldfd newfd : ℕ)
      → ((x : Trap) × (get_file pid oldfd s ≡ (err x, s)))
        ⊎ ((f : ℕ) × (get_file pid oldfd s ≡ (ok f, s)) × ((20 ≤ newfd) ⊎ (oldfd ≡ newfd)))
      → (dup2 pid oldfd newfd s).1 ≡ s
  unfolding dup2
  dup2_early s oldfd newfd (inl (x, run)) = ground (arith, run)
  dup2_early s oldfd newfd (inr (f, run, inl h)) = ground (arith, run, h)
  dup2_early s oldfd newfd (inr (f, run, inr h)) = ground (arith, run, h)

  dup2_unclosed :
      (s : Kernel I) (oldfd newfd f : ℕ) (x : Trap)
      → get_file pid oldfd s ≡ (ok f, s)
      → newfd < 20
      → oldfd ≢ newfd
      → (close_if_open pid newfd s).0 ≡ err x
      → (dup2 pid oldfd newfd s).1 ≡ (close_if_open pid newfd s).1
  unfolding dup2
  dup2_unclosed s oldfd newfd f x run small ne e = ground (arith, run, small, ne, e)

  dup2_steps :
      (s s2 : Kernel I) (oldfd newfd f : ℕ) (u : Done) (p2 : Process I)
      → get_file pid oldfd s ≡ (ok f, s)
      → newfd < 20
      → oldfd ≢ newfd
      → (close_if_open pid newfd s).0 ≡ ok u
      → acquire_fd f (close_if_open pid newfd s).1 ≡ (ok tt, s2)
      → table_get pid s2.procs ≡ some p2
      → p2.pid ≡ pid
      → let p3 = record p2 { fds = set p2.fds newfd (some f) } in
        let s3 = (set_fd pid newfd (some f) s2).1 in
        (dup2 pid oldfd newfd s).1 ≡ record s3 {
          procs =
              table_set pid
                (record p3 { close_on_exec = clear_bit p3.close_on_exec newfd })
                s3.procs;
        }
  unfolding proc put_proc dup2
  dup2_steps s s2 oldfd newfd f u p2 run small ne closed acq at e =
      let p3 = record p2 { fds = set p2.fds newfd (some f) } in
      ground (
        arith,
        run,
        small,
        ne,
        closed,
        acq,
        e,
        set_fd_lem s2 pid p2 newfd (some f) at,
        table_get-table_set p2.pid pid p3 s2.procs,
      )

  -- `dup2` from one slot to another, in range.
  dup2_moves :
      (s : Kernel I) (oldfd newfd f : ℕ) (p : Process I)
      → Counted [] s
      → table_get pid s.procs ≡ some p
      → get_or p.fds oldfd none ≡ some f
      → get_file pid oldfd s ≡ (ok f, s)
      → newfd < 20
      → oldfd ≢ newfd
      → Counted [] (dup2 pid oldfd newfd s).1
  dup2_moves s oldfd newfd f p c at h run small ne =
      let (c1, (p1, at1, len1, free1, others)) = close_if_open-Counted s p newfd at c in
      let s1 = (close_if_open pid newfd s).1 in
      elim (Result-cases (close_if_open pid newfd s).0) [
        | inr (x, e) ↦ rw (dup2_unclosed s oldfd newfd f x run small ne e) c1
        | inl (u, e) ↦
            let (o, there) = file_there pid p1 at1 c1 oldfd f (others oldfd ne ∙ h) in
            let (s2, acq, c2, same, _) = acquire_fd-Counted f o there c1 in
            let at2 : table_get pid s2.procs ≡ some p1 = ap (λ t. table_get pid t) same ∙ at1 in
            let inside : newfd < length p1.fds = ground (arith, c1.slots pid p1 at1, small) in
            let c3 = fill-Counted pid p1 at2 c2 newfd f [] refl inside free1 in
            let p3 = record p1 { fds = set p1.fds newfd (some f) } in
            let at3 : table_get pid (set_fd pid newfd (some f) s2).1.procs ≡ some p3 =
              ap (λ r. table_get pid r.1.procs) (set_fd_lem s2 pid p1 newfd (some f) at2)
              ∙ ground (arith, c2.pids pid p1 at2, table_get-table_set p1.pid pid p3 s2.procs) in
            let p4 = record p3 { close_on_exec = clear_bit p3.close_on_exec newfd } in
            let same_pid = c2.pids pid p1 at2 in
            rw (dup2_steps s s2 oldfd newfd f u p1 run small ne e acq at2 same_pid)
              (put_same-Counted p4 at3 same_pid refl c3)
      ]

  pub dup2-Counted :
      (s : Kernel I) (oldfd newfd : ℕ) → Counted [] s → Counted [] (dup2 pid oldfd newfd s).1
  dup2-Counted s oldfd newfd c = elim (get_file-cases s pid oldfd) [
    | inl refused ↦ rw (dup2_early s oldfd newfd (inl refused)) c
    | inr (p, f, at, h, run) ↦ elim (lt-cases newfd 20) [
      | inr large ↦ rw (dup2_early s oldfd newfd (inr (f, run, inl large))) c
      | inl small ↦ elim (Bool-cases (oldfd == newfd)) [
        | inl e ↦ rw (dup2_early s oldfd newfd (inr (f, run, inr ((==_iff oldfd newfd).0 e)))) c
        | inr ne ↦ dup2_moves s oldfd newfd f p c at h run small (ground (arith, ne))
      ]
    ]
  ]

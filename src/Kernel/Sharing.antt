-- ===== src/Kernel/Sharing.antt =====
-- Closing, duplicating and opening pipes keep the counts of kernel.py.
use minixfs.Prelude.{
  ℕ, ◌<◌, ◌≡◌, refl, ap, ◌∙◌, Result-cases, inl, inr, none, some, [], ◌∷◌, get_or, length, ok, err,
  arith,
}
use minixfs.Overlay.Dict.{table_get}
use minixfs.Kernel.State.{Trap, Process, Kernel}
use minixfs.Kernel.Fds.{alloc_fd, get_file, set_fd, acquire_fd, release_file, close, dup_from, dup}
use minixfs.Kernel.Counts.{Counted}
use minixfs.Kernel.Balance.{acquire_fd-Counted, release_file-Counted}
use minixfs.Kernel.Slots.{
  get_file-cases, alloc_fd-cases, set_fd_lem, file_there, fill-Counted, clear-Counted,
}

module _ {I : Type 0} (pid : ℕ) where
  pub close_steps :
      (s : Kernel I) (p : Process I) (fd f : ℕ)
      → table_get pid s.procs ≡ some p
      → get_file pid fd s ≡ (ok f, s)
      → (close pid fd s).1 ≡ (release_file f (set_fd pid fd none s).1).1
  unfolding close
  close_steps s p fd f at run = elim (Result-cases (release_file f (set_fd pid fd none s).1).0) [
    | inl (a, e) ↦ ground (arith, run, set_fd_lem s pid p fd none at, e)
    | inr (x, e) ↦ ground (arith, run, set_fd_lem s pid p fd none at, e)
  ]

  close_refused :
      (s : Kernel I) (fd : ℕ) (x : Trap) → get_file pid fd s ≡ (err x, s) → (close pid fd s).1 ≡ s
  unfolding close
  close_refused s fd x run = ground (arith, run)

  pub close-Counted : (s : Kernel I) (fd : ℕ) → Counted [] s → Counted [] (close pid fd s).1
  close-Counted s fd c = elim (get_file-cases s pid fd) [
    | inl (x, run) ↦ rw (close_refused s fd x run) c
    | inr (p, f, at, h, run) ↦
        let s1 = (set_fd pid fd none s).1 in
        let c1 = clear-Counted pid p at c fd f h in
        let (o, there) = file_there pid p at c fd f h in
        let same : s1.files ≡ s.files = ap (λ r. r.1.files) (set_fd_lem s pid p fd none at) in
        let (s2, gone, c2, kept) =
          release_file-Counted f o (ap (λ t. table_get f t) same ∙ there) c1 in
        rw (close_steps s p fd f at run) (rw gone c2)
  ]

  -- The new descriptor of an open file in hand.
  place :
      (s s1 : Kernel I) (f new : ℕ) (p : Process I)
      → s1.procs ≡ s.procs
      → Counted (f ∷ []) s1
      → table_get pid s.procs ≡ some p
      → new < length p.fds
      → get_or p.fds new none ≡ none
      → Counted [] (set_fd pid new (some f) s1).1
  place s s1 f new p same c at inside free =
      fill-Counted pid p (ap (λ t. table_get pid t) same ∙ at) c new f [] refl inside free

  dup_steps :
      (s s1 : Kernel I) (fd start f new : ℕ) (p : Process I)
      → get_file pid fd s ≡ (ok f, s)
      → alloc_fd pid start s ≡ (ok new, s)
      → acquire_fd f s ≡ (ok tt, s1)
      → table_get pid s1.procs ≡ some p
      → dup_from pid fd start s ≡ (ok new, (set_fd pid new (some f) s1).1)
  unfolding dup_from
  dup_steps s s1 fd start f new p run alloc acq at =
      ground (arith, run, alloc, acq, set_fd_lem s1 pid p new (some f) at)

  dup_refused :
      (s : Kernel I) (fd start : ℕ) (x : Trap)
      → get_file pid fd s ≡ (err x, s)
      → dup_from pid fd start s ≡ (err x, s)
  unfolding dup_from
  dup_refused s fd start x run = ground (arith, run)

  dup_full :
      (s : Kernel I) (fd start f : ℕ) (x : Trap)
      → get_file pid fd s ≡ (ok f, s)
      → alloc_fd pid start s ≡ (err x, s)
      → dup_from pid fd start s ≡ (err x, s)
  unfolding dup_from
  dup_full s fd start f x run alloc = ground (arith, run, alloc)

  pub dup_from-Counted :
      (s : Kernel I) (fd start : ℕ) → Counted [] s → Counted [] (dup_from pid fd start s).1
  dup_from-Counted s fd start c = elim (get_file-cases s pid fd) [
    | inl (x, run) ↦ rw (dup_refused s fd start x run) c
    | inr (p, f, at, h, run) ↦ elim (alloc_fd-cases s pid start) [
      | inl (x, alloc) ↦ rw (dup_full s fd start f x run alloc) c
      | inr (p', new, at', inside, free, alloc) ↦
          let (o, there) = file_there pid p at c fd f h in
          let (s1, acq, c1, same, _) = acquire_fd-Counted f o there c in
          rw (dup_steps s s1 fd start f new p' run alloc acq (ap (λ t. table_get pid t) same ∙ at'))
            (place s s1 f new p' same c1 at' inside free)
    ]
  ]

  pub dup-Counted : (s : Kernel I) (fd : ℕ) → Counted [] s → Counted [] (dup pid fd s).1
  unfolding dup
  dup-Counted s fd c = dup_from-Counted s fd 0 c

-- ===== src/Kernel/Keeps.antt =====
-- Operations of kernel.py that keep the counts, and rules to see it from their parts.
use minixfs.Prelude.{
  ℕ, ◌≡◌, sym, ap, ◌∙◌, subst, Bool, true, false, Result-cases, inl, inr, List, [], if◌then◌else◌,
  ok, err, arith,
}
use minixfs.Overlay.State as Overlay
use minixfs.Overlay.Dict.{table_set}
use minixfs.Kernel.State.{Trap, Process, Kernel, K, proc, put_proc, in_fs, ◌>>=◌, ◌>>◌}
use minixfs.Kernel.Counts.{Counted}
use minixfs.Kernel.Slots.{proc-cases, put_same-Counted}

-- One step of a chain, by the result of its first part.
module _ {I A B : Type 0} (m : K I A) (s : Kernel I) where
  pub bind_ok : (f : A → K I B) (a : A) → (m s).0 ≡ ok a → (m >>= f) s ≡ f a (m s).1
  bind_ok f a e = ground (arith, e)

  pub bind_err : (f : A → K I B) (x : Trap) → (m s).0 ≡ err x → ((m >>= f) s).1 ≡ (m s).1
  bind_err f x e = ground (arith, e)

  pub then_ok : (n : K I B) (a : A) → (m s).0 ≡ ok a → (m >> n) s ≡ n (m s).1
  then_ok n a e = ground (arith, e)

  pub then_err : (n : K I B) (x : Trap) → (m s).0 ≡ err x → ((m >> n) s).1 ≡ (m s).1
  then_err n x e = ground (arith, e)

module _ {I : Type 0} where
  abbrev pub Keeps : {A : Type 0} → K I A → Type 0
  Keeps m = (s : Kernel I) → Counted [] s → Counted [] (m s).1

  pub moved : {s t : Kernel I} → s ≡ t → Counted [] s → Counted [] t
  moved e c = subst (λ u. Counted [] u) e c

  module _ {A B : Type 0} where
    pub bind-Keeps :
        (m : K I A) (f : A → K I B) → Keeps m → ((a : A) → Keeps (f a)) → Keeps (m >>= f)
    bind-Keeps m f km kf s c = elim (Result-cases (m s).0) [
      | inl (a, e) ↦ moved (sym (ap (λ r. r.1) (bind_ok m s f a e))) (kf a (m s).1 (km s c))
      | inr (x, e) ↦ moved (sym (bind_err m s f x e)) (km s c)
    ]

    pub then-Keeps : (m : K I A) (n : K I B) → Keeps m → Keeps n → Keeps (m >> n)
    then-Keeps m n km kn s c = elim (Result-cases (m s).0) [
      | inl (a, e) ↦ moved (sym (ap (λ r. r.1) (then_ok m s n a e))) (kn (m s).1 (km s c))
      | inr (x, e) ↦ moved (sym (then_err m s n x e)) (km s c)
    ]

  module _ {A : Type 0} where
    pub if-Keeps : (b : Bool) (m n : K I A) → Keeps m → Keeps n → Keeps (if b then m else n)
    if-Keeps true m n km kn = km
    if-Keeps false m n km kn = kn

    -- The process is read, replaced by one with the same number and descriptors, and the rest runs.
    pub update-Keeps :
        (pid : ℕ) (g : Process I → Process I) (k : Process I → K I A)
        → ((p : Process I) → ((g p).pid ≡ p.pid) × ((g p).fds ≡ p.fds))
        → ((p : Process I) → Keeps (k p))
        → Keeps (proc pid >>= λ p. (put_proc (g p) >> k p))
    unfolding put_proc
    update-Keeps pid g k same kk s c = elim (proc-cases s pid) [
      | inl (x, e) ↦ moved (ground (arith, e)) c
      | inr (p, at, e) ↦
          let pid_eq = (same p).0 ∙ c.pids pid p at in
          let next = record s { procs = table_set (g p).pid (g p) s.procs } in
          let c1 : Counted [] next =
            subst (λ n. Counted [] (record s { procs = table_set n (g p) s.procs })) (sym pid_eq)
              (put_same-Counted (g p) at pid_eq (same p).1 c) in
          moved
            (sym (
              ap (λ r. r.1) (bind_ok (proc pid) s (λ q. put_proc (g q) >> k q) p (ap (λ r. r.0) e))
              ∙ rest p e))
            (kk p next c1)
    ]
      where
        rest :
            (p : Process I)
            → proc pid s ≡ (ok p, s)
            → ((put_proc (g p) >> k p) (proc pid s).1).1
              ≡ (k p (record s { procs = table_set (g p).pid (g p) s.procs })).1
        rest p e = ground (arith, e)

    pub proc-Keeps :
        (pid : ℕ) (k : Process I → K I A) → ((p : Process I) → Keeps (k p)) → Keeps (proc pid >>= k)
    proc-Keeps pid k kk = bind-Keeps (proc pid) k (read_only pid) kk
      where
        read_only : (pid : ℕ) → Keeps {A = Process I} (proc pid)
        read_only pid s c = elim (proc-cases s pid) [
          | inl (x, e) ↦ moved (ap (λ r. r.1) (sym e)) c
          | inr (p, at, e) ↦ moved (ap (λ r. r.1) (sym e)) c
        ]

  -- The counts do not speak of the queue, the overlay, the status and the time.
  pub aside-Keeps :
      (s : Kernel I) (fs : Overlay.OverlayFs) (runq : List ℕ) (status : ℕ)
      → Counted [] s
      → Counted [] (record s { fs = fs; runq = runq; exit_status = status })
  aside-Keeps s fs runq status c = record {
    refs = c.refs;
    readers = c.readers;
    writers = c.writers;
    pipes_there = c.pipes_there;
    pids = c.pids;
    slots = c.slots;
    fresh_files = c.fresh_files;
    fresh_pipes = c.fresh_pipes;
    fresh_pids = c.fresh_pids;
    distinct_files = c.distinct_files;
  }

  pub in_fs-Keeps : {A : Type 0} (m : Overlay.M A) → Keeps {A = A} (in_fs m)
  in_fs-Keeps m s c = elim (Result-cases (m s.fs).0) [
    | inl (a, e) ↦ moved (ground (arith, e)) (aside-Keeps s (m s.fs).1 s.runq s.exit_status c)
    | inr (x, e) ↦ moved (ground (arith, e)) (aside-Keeps s (m s.fs).1 s.runq s.exit_status c)
  ]

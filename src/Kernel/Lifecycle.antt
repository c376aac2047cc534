-- ===== src/Kernel/Lifecycle.antt =====
-- Fork, exit and signals keep the counts of kernel.py.
use minixfs.Prelude.{ℕ, ◌+◌, ◌≡◌, ap, ◌∙◌, inl, inr, none, some, [], ok, err, arith}
use minixfs.Overlay.Dict.{table_get, table_get-table_set, total-table_set}
use minixfs.Kernel.State.{Trap, Process, Kernel, proc}
use minixfs.Kernel.Procs.{acquire_all, next_number, enter, child_of, fork}
use minixfs.Kernel.Counts.{Counted, held}
use minixfs.Kernel.Slots.{proc-cases}
use minixfs.Kernel.Leaving.{taken, occurrences-taken, acquire_all-Counted}

module _ {I : Type 0} where
  enter-Counted :
      (s s2 : Kernel I) (p : Process I)
      → Counted [] s
      → table_get p.pid s.procs ≡ some p
      → Counted (taken p.fds []) s2
      → s2.procs ≡ s.procs
      → s2.next_pid ≡ s.next_pid + 1
      → Counted [] (enter (child_of s.next_pid p) s2).1
  unfolding enter child_of
  enter-Counted s s2 p c at c2 same later =
      let n = s.next_pid in
      let child = child_of n p in
      let free : table_get n s2.procs ≡ none =
        ap (λ t. table_get n t) same ∙ c.fresh_pids n (omega arith) in
      record {
        refs = λ g. ground (
          arith,
          free,
          c2.refs g,
          occurrences-taken g p.fds [],
          total-table_set (λ (q : Process I). held g q.fds) n child s2.procs,
        );
        readers = c2.readers;
        writers = c2.writers;
        pipes_there = c2.pipes_there;
        pids = λ m q h. ground (arith, h, c2.pids m q, table_get-table_set n m child s2.procs);
        slots = λ m q h.
            ground
              (arith, h, c2.slots m q, c.slots p.pid p at, table_get-table_set n m child s2.procs);
        fresh_files = c2.fresh_files;
        fresh_pipes = c2.fresh_pipes;
        fresh_pids = λ m h.
            ground (arith, h, later, c2.fresh_pids m h, table_get-table_set n m child s2.procs);
        distinct_files = c2.distinct_files;
      }

  fork_steps :
      (s s2 : Kernel I) (pid : ℕ) (p : Process I)
      → proc pid s ≡ (ok p, s)
      → acquire_all p.fds (record s { next_pid = s.next_pid + 1 }) ≡ (ok tt, s2)
      → fork pid s ≡ (ok s.next_pid, (enter (child_of s.next_pid p) s2).1)
  unfolding next_number enter fork
  fork_steps s s2 pid p run acq = ground (arith, run, acq)

  fork_refused :
      (s : Kernel I) (pid : ℕ) (x : Trap) → proc pid s ≡ (err x, s) → fork pid s ≡ (err x, s)
  unfolding fork
  fork_refused s pid x run = ground (arith, run)

  Counted-next : (s : Kernel I) → Counted [] s → Counted [] (record s { next_pid = s.next_pid + 1 })
  Counted-next s c = record {
    refs = c.refs;
    readers = c.readers;
    writers = c.writers;
    pipes_there = c.pipes_there;
    pids = c.pids;
    slots = c.slots;
    fresh_files = c.fresh_files;
    fresh_pipes = c.fresh_pipes;
    fresh_pids = λ n h. c.fresh_pids n (omega arith);
    distinct_files = c.distinct_files;
  }

  pub fork-Counted : (s : Kernel I) (pid : ℕ) → Counted [] s → Counted [] (fork pid s).1
  fork-Counted s pid c = elim (proc-cases s pid) [
    | inl (x, run) ↦ rw (fork_refused s pid x run) c
    | inr (p, at, run) ↦
        let s1 = record s { next_pid = s.next_pid + 1 } in
        let (s2, acq, c2, same, pid_same) =
          acquire_all-Counted pid p p.fds [] s1 at (λ g. omega arith) (Counted-next s c) in
        rw (fork_steps s s2 pid p run acq) (
          enter-Counted s s2 p c (ap (λ k. table_get k s.procs) (c.pids pid p at) ∙ at) c2 same
            pid_same)
  ]

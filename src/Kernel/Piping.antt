-- ===== src/Kernel/Piping.antt =====
-- `pipe` keeps the counts of kernel.py.
use minixfs.Prelude.{
  ℕ, ◌+◌, ◌<◌, ◌≡◌, refl, sym, ap, ◌∙◌, inl, inr, none, some, [], ◌∷◌, get_or, set, length,
  length-set, get_or-set, Result, ok, err, arith,
}
use minixfs.Memory as Memory
use minixfs.Memory.{SegFault}
use minixfs.Pipe.{Pipe}
use minixfs.Overlay.Dict.{
  table_get, table_set, table_get-table_set, total-table_set, table_set-Distinct,
  table_set-table_set,
}
use minixfs.Kernel.State.{
  Trap, Done, pipe, OpenFile, readable, writable, Process, Kernel, K, return, trap, fault, ◌>>◌,
}
use minixfs.Kernel.Fds.{alloc_fd, write_word, second_slot, enter_pipe, report_pipe, open_pipe}
use minixfs.Kernel.Counts.{Counted, end_share, held-set}
use minixfs.Kernel.Slots.{alloc_fd-cases, set_fd_lem, put_proc-Counted}
use minixfs.Kernel.Keeps.{Keeps, moved, then-Keeps, update-Keeps}

module _ {I : Type 0} where
  -- The two ends of a new pipe, before a slot stands for them.
  enter_pipe-Counted :
      (s : Kernel I)
      → Counted [] s
      → Counted (s.next_file ∷ (s.next_file + 1) ∷ []) (enter_pipe s.next_file s.next_pipe s).1
  unfolding enter_pipe
  enter_pipe-Counted s c =
      let rf = s.next_file in
      let q = s.next_pipe in
      let e : Pipe = record { buf = []; readers = 1; writers = 1 } in
      let a : OpenFile = record { obj = pipe q; flags = 0; pos = 0; refs = 1 } in
      let b : OpenFile = record { obj = pipe q; flags = 1; pos = 0; refs = 1 } in
      let t = table_set rf a s.files in
      let free_a : table_get rf s.files ≡ none = c.fresh_files rf (omega arith) in
      let free_b : table_get (rf + 1) s.files ≡ none = c.fresh_files (rf + 1) (omega arith) in
      let free_b' : table_get (rf + 1) t ≡ none =
        table_get-table_set rf (rf + 1) a s.files ∙ ground (arith, free_b) in
      let free_q : table_get q s.pipes ≡ none = c.fresh_pipes q (omega arith) in
      record {
        refs = λ g. ground (
          arith,
          free_a,
          free_b,
          c.refs g,
          table_get-table_set rf g a s.files,
          table_get-table_set (rf + 1) g b t,
        );
        readers = λ p. ground (
          arith,
          free_a,
          free_b',
          free_q,
          c.readers p,
          table_get-table_set q p e s.pipes,
          total-table_set (end_share readable p) rf a s.files,
          total-table_set (end_share readable p) (rf + 1) b t,
        );
        writers = λ p. ground (
          arith,
          free_a,
          free_b',
          free_q,
          c.writers p,
          table_get-table_set q p e s.pipes,
          total-table_set (end_share writable p) rf a s.files,
          total-table_set (end_share writable p) (rf + 1) b t,
        );
        pipes_there = λ g p u at is. ground (
          arith,
          at,
          is,
          c.pipes_there g p u,
          table_get-table_set q p e s.pipes,
          table_get-table_set rf g a s.files,
          table_get-table_set (rf + 1) g b t,
        );
        pids = c.pids;
        slots = c.slots;
        fresh_files = λ g h. ground (
          arith,
          h,
          c.fresh_files g,
          table_get-table_set rf g a s.files,
          table_get-table_set (rf + 1) g b t,
        );
        fresh_pipes = λ p h. ground (arith, h, c.fresh_pipes p, table_get-table_set q p e s.pipes);
        fresh_pids = c.fresh_pids;
        distinct_files =
            table_set-Distinct (rf + 1) b t (table_set-Distinct rf a s.files c.distinct_files);
      }

  write_word-Keeps : (pid addr v : ℕ) → Keeps {I = I} (write_word pid addr v)
  unfolding write_word
  write_word-Keeps pid addr v =
      update-Keeps pid (λ p. record p { mem = (Memory.write_u32 p.mem addr v).0 })
        (λ p. elim ((Memory.write_u32 p.mem addr v).1) [
          | ok _ ↦ return tt
          | err e ↦ trap (fault e)
        ])
        (λ p. (refl, refl)) (λ p s c. settled (Memory.write_u32 p.mem addr v).1 s c)
    where
      settled :
          (r : Result SegFault Done) (s : Kernel I)
          → Counted [] s
          → Counted []
              ((elim r as (λ _. K I Done) [ ok _ ↦ return tt | err e ↦ trap (fault e) ]) s).1
      settled (ok a) s c = c
      settled (err e) s c = c

  report_pipe-Keeps : (pid addr rfd wfd : ℕ) → Keeps {I = I} (report_pipe pid addr rfd wfd)
  unfolding report_pipe
  report_pipe-Keeps pid addr rfd wfd =
      then-Keeps (write_word pid addr rfd) (write_word pid (addr + 4) wfd >> return 0)
        (write_word-Keeps pid addr rfd)
        (then-Keeps (write_word pid (addr + 4) wfd) (return 0) (write_word-Keeps pid (addr + 4) wfd)
          (λ s c. c))

  pipe_refused :
      (s : Kernel I) (pid addr : ℕ) (x : Trap)
      → alloc_fd pid 0 s ≡ (err x, s)
      → (open_pipe pid addr s).1 ≡ s
  unfolding open_pipe
  pipe_refused s pid addr x e = ground (arith, e)

  enter_pipe_procs :
      (s : Kernel I) (pid : ℕ)
      → table_get pid (enter_pipe s.next_file s.next_pipe s).1.procs ≡ table_get pid s.procs
  unfolding enter_pipe
  enter_pipe_procs s pid = refl

  -- The process with one slot, or two, that stand for the new open files.
  module _ (s : Kernel I) (pid addr : ℕ) (p : Process I) (rfd : ℕ)
      (at : table_get pid s.procs ≡ some p) (alloc : alloc_fd pid 0 s ≡ (ok rfd, s)) where
    one_slot : Process I
    one_slot = record p { fds = set p.fds rfd (some s.next_file) }

    after_one : Kernel I
    after_one = record s { procs = table_set p.pid one_slot s.procs }

    pipe_full :
        (x : Trap)
        → p.pid ≡ pid
        → alloc_fd pid 0 after_one ≡ (err x, after_one)
        → (open_pipe pid addr s).1 ≡ record s {
          procs =
              table_set p.pid
                (record p { fds = set (set p.fds rfd (some s.next_file)) rfd none })
                s.procs;
        }
    unfolding one_slot after_one second_slot open_pipe
    pipe_full x pid_eq full =
        let p1 = record p { fds = set p.fds rfd (some s.next_file) } in
        let s1 = record s { procs = table_set p.pid p1 s.procs } in
        let at1 : table_get pid s1.procs ≡ some p1 =
          ground (arith, pid_eq, table_get-table_set p.pid pid p1 s.procs) in
        ground (
          arith,
          alloc,
          full,
          set_fd_lem s pid p rfd (some s.next_file) at,
          set_fd_lem s1 pid p1 rfd none at1,
          table_set-table_set p.pid p1
              (record p { fds = set (set p.fds rfd (some s.next_file)) rfd none }) s.procs,
        )

    pipe_made :
        (wfd : ℕ)
        → p.pid ≡ pid
        → alloc_fd pid 0 after_one ≡ (ok wfd, after_one)
        → (open_pipe pid addr s).1
          ≡ (report_pipe pid addr rfd wfd (record (enter_pipe s.next_file s.next_pipe s).1 {
            procs =
                table_set p.pid
                  (record p {
                    fds = set (set p.fds rfd (some s.next_file)) wfd (some (s.next_file + 1));
                  })
                  s.procs;
          })).1
    unfolding one_slot after_one second_slot enter_pipe open_pipe
    pipe_made wfd pid_eq got =
        let p1 = record p { fds = set p.fds rfd (some s.next_file) } in
        let s1 = record s { procs = table_set p.pid p1 s.procs } in
        let s2 = (enter_pipe s.next_file s.next_pipe s1).1 in
        let p2 = record p {
          fds = set (set p.fds rfd (some s.next_file)) wfd (some (s.next_file + 1));
        } in
        let at1 : table_get pid s1.procs ≡ some p1 =
          ground (arith, pid_eq, table_get-table_set p.pid pid p1 s.procs) in
        ground (
          arith,
          alloc,
          got,
          set_fd_lem s pid p rfd (some s.next_file) at,
          set_fd_lem s2 pid p1 wfd (some (s.next_file + 1)) at1,
          table_set-table_set p.pid p1 p2 s.procs,
        )

  pub open_pipe-Keeps : (pid addr : ℕ) → Keeps {I = I} (open_pipe pid addr)
  unfolding one_slot after_one enter_pipe
  open_pipe-Keeps pid addr s c = elim (alloc_fd-cases s pid 0) [
    | inl (x, e) ↦ moved (sym (refused x e)) c
    | inr (p, rfd, at, inside, free, alloc) ↦
        let pid_eq = c.pids pid p at in
        let p1 = record p { fds = set p.fds rfd (some s.next_file) } in
        let s1 = record s { procs = table_set p.pid p1 s.procs } in
        let inside1 : rfd < length p1.fds =
          omega (arith, length-set p.fds rfd (some s.next_file)) in
        let now_rfd : get_or p1.fds rfd none ≡ some s.next_file =
          get_or-set p.fds rfd rfd (some s.next_file) none inside ∙ ground arith in
        elim (alloc_fd-cases s1 pid 0) [
          | inl (x, full) ↦
              let p2 = record p { fds = set p1.fds rfd none } in
              moved (sym (pipe_full s pid addr p rfd at alloc x pid_eq full)) (
                put_proc-Counted at p2 pid_eq
                  (length-set p1.fds rfd none ∙ length-set p.fds rfd (some s.next_file))
                  (λ g. ground (
                    arith,
                    free,
                    now_rfd,
                    held-set g p.fds rfd (some s.next_file) inside,
                    held-set g p1.fds rfd none inside1,
                  ))
                  c)
          | inr (p', wfd, at', inside', free', got) ↦
              let same : p1 ≡ p' =
                ground (arith, at', pid_eq, table_get-table_set p.pid pid p1 s.procs) in
              let p2 = record p { fds = set p1.fds wfd (some (s.next_file + 1)) } in
              let inside2 : wfd < length p1.fds = ground (arith, inside', same) in
              let free2 : get_or p1.fds wfd none ≡ none =
                ap (λ (u : Process I). get_or u.fds wfd none) same ∙ free' in
              moved (sym (pipe_made s pid addr p rfd at alloc wfd pid_eq got)) (
                report_pipe-Keeps pid addr rfd wfd _ (
                  put_proc-Counted {s = (enter_pipe s.next_file s.next_pipe s).1} (entered p at) p2
                    pid_eq
                    (length-set p1.fds wfd (some (s.next_file + 1))
                      ∙ length-set p.fds rfd (some s.next_file))
                    (λ g. ground (
                      arith,
                      free,
                      free2,
                      held-set g p.fds rfd (some s.next_file) inside,
                      held-set g p1.fds wfd (some (s.next_file + 1)) inside2,
                    ))
                    (enter_pipe-Counted s c)))
        ]
  ]
    where
      refused : (x : Trap) → alloc_fd pid 0 s ≡ (err x, s) → (open_pipe pid addr s).1 ≡ s
      refused x e = pipe_refused s pid addr x e

      entered :
          (p : Process I)
          → table_get pid s.procs ≡ some p
          → table_get pid (enter_pipe s.next_file s.next_pipe s).1.procs ≡ some p
      entered p at = enter_pipe_procs s pid ∙ at

-- ===== src/Kernel/Procs.antt =====
-- The life of a process in kernel.py: fork, exit, wait, and the choice of the next one to run.
use minixfs.Prelude.{
  ℕ, zero, suc, ◌+◌, ◌-◌, ◌%◌, ◌^◌, Bool, true, false, not, ◌&&◌, ◌||◌, Option, none, some, List,
  [], ◌∷◌, ◌++◌, ltb, leb, ◌==◌, if◌then◌else◌, set, ok, length,
}
use minixfs.Memory as Memory
use minixfs.Memory.{AddressSpace}
use minixfs.Pipe as Pipe
use minixfs.Overlay.Dict.{Table, table_get, table_set, table_del}
use minixfs.Kernel.State.{
  zombie, Channel, pipe_read, pipe_write, wait_child, pause, terminal_input, Process, new_process,
  default_stack, Kernel, K, ◌>>=◌, ◌>>◌, return, raise, trap, Done, proc, put_proc, echild, asleep,
}
use minixfs.Kernel.Fds.{write_word, acquire_fd, release_file, set_fd}
use minixfs.Kernel.Signals.{
  sigchld, is_running, is_sleeping, is_zombie, dequeue, wake, post_signal, pids_where,
}

abbrev pub waits_for_child : Option Channel → Bool
waits_for_child none = false
waits_for_child (some (pipe_read q)) = false
waits_for_child (some (pipe_write q)) = false
waits_for_child (some (wait_child n)) = true
waits_for_child (some (pause n)) = false
waits_for_child (some terminal_input) = false

abbrev pub some_bytes : List ℕ → Bool
some_bytes [] = false
some_bytes (b ∷ bs) = true

module _ {I : Type 0} where
  -- ---- fork ----

  unfoldable pub acquire_all : List (Option ℕ) → K I Done
  acquire_all [] = return tt
  acquire_all (none ∷ fds) = acquire_all fds
  acquire_all (some f ∷ fds) = do acquire_fd f; acquire_all fds

  -- The child of a process: what it inherits, with 0 in its first register.
  unfoldable pub child_of : ℕ → Process I → Process I
  child_of pid p = record (new_process pid (Memory.clone p.mem)) {
    ppid = p.pid;
    pgrp = p.pgrp;
    session = p.session;
    cwd = p.cwd;
    root = p.root;
    umask = p.umask;
    uid = p.uid;
    euid = p.euid;
    suid = p.suid;
    gid = p.gid;
    egid = p.egid;
    sgid = p.sgid;
    blocked = p.blocked;
    sigactions = p.sigactions;
    close_on_exec = p.close_on_exec;
    name = p.name;
    fds = p.fds;
    cpu = record p.cpu { regs = set p.cpu.regs 0 0 };
  }

  unfoldable pub next_number : K I ℕ
  next_number s = (ok s.next_pid, record s { next_pid = s.next_pid + 1 })

  -- The child enters the table, and the queue at its end.
  unfoldable pub enter : Process I → K I Done
  enter c s = (ok tt, record s { procs = table_set c.pid c s.procs; runq = s.runq ++ c.pid ∷ [] })

  unfoldable pub fork : ℕ → K I ℕ
  unfolding next_number enter acquire_all child_of
  fork pid = do p ← proc pid; n ← next_number; acquire_all p.fds; enter (child_of n p); return n

  -- ---- exit ----

  -- The loop over the slots; `i` is the number of the first.
  unfoldable pub release_all : ℕ → ℕ → List (Option ℕ) → K I Done
  release_all pid i [] = return tt
  release_all pid i (none ∷ fds) = release_all pid (i + 1) fds
  release_all pid i (some f ∷ fds) = do
    release_file f
    set_fd pid i none
    release_all pid (i + 1) fds

  -- The children of a process are passed on to init.
  unfoldable pub pass_on : ℕ → Table (Process I) → Table (Process I)
  pass_on pid [] = []
  pass_on pid ((k, q) ∷ ps) =
      (k, if q.ppid == pid then record q { ppid = 1 } else q) ∷ pass_on pid ps

  -- SIGCHLD, and an end to the wait of a parent that waits for its children.
  unfoldable pub signal_parent : ℕ → K I Done
  signal_parent ppid = do
    post_signal ppid sigchld
    parent ← proc ppid
    if is_sleeping parent.state && waits_for_child parent.wait_channel
        then wake ppid false
        else return tt

  unfoldable pub tell_parent : ℕ → K I Done
  unfolding signal_parent
  tell_parent ppid s = elim (table_get ppid s.procs) [
    | none ↦ (ok tt, s)
    | some _ ↦ signal_parent ppid s
  ]

  unfoldable pub hand_over : ℕ → K I Done
  unfolding pass_on
  hand_over pid s = (ok tt, record s { procs = pass_on pid s.procs })

  -- The exit of init is that of the machine.
  unfoldable pub note_status : ℕ → ℕ → K I Done
  note_status ppid code s =
      (ok tt, record s { exit_status = if ppid == 0 then code else s.exit_status })

  -- The rest of `_exit_process`, once the descriptors are released.
  unfoldable pub finish_exit : ℕ → ℕ → K I Done
  unfolding hand_over note_status tell_parent
  finish_exit pid code = do
    q ← proc pid
    put_proc (record q { mem = Memory.init default_stack })
    hand_over pid
    dequeue pid
    r ← proc pid
    tell_parent r.ppid
    note_status r.ppid code

  unfoldable pub exit_process : ℕ → ℕ → K I Done
  unfolding release_all finish_exit
  exit_process pid code = do
    p ← proc pid
    put_proc (record p { state = zombie; exit_code = code })
    release_all pid 0 p.fds
    finish_exit pid code

  -- ---- wait ----

  unfoldable pub wait_means : ℕ → ℕ → Process I → Bool
  wait_means pid pgrp q =
      if leb 0x80000000 pid
      then (if pid == 0xFFFFFFFF then true else q.pgrp == 2 ^ 32 - pid)
      else if pid == 0
      then q.pgrp == pgrp
      else q.pid == pid

  unfoldable pub first_zombie : Table (Process I) → List ℕ → Option ℕ
  first_zombie procs [] = none
  first_zombie procs (n ∷ ns) =
      let rest = first_zombie procs ns in
      elim (table_get n procs) [ none ↦ rest | some q ↦ if is_zombie q.state then some n else rest ]

  unfoldable pub reap : ℕ → K I Done
  reap n s = (ok tt, record s { procs = table_del n s.procs })

  -- The status of a child, where the caller asked for it, its times, and the end of its entry.
  unfoldable pub collect : ℕ → ℕ → ℕ → K I ℕ
  unfolding reap
  collect caller statp n = do
    q ← proc n
    if statp == 0 then return tt else write_word caller statp (q.exit_code % 2 ^ 32)
    p ← proc caller
    put_proc (record p { cutime = p.cutime + q.utime; cstime = p.cstime + q.stime })
    reap n
    return n

  unfoldable pub is_child : ℕ → Process I → Bool
  is_child pid q = q.ppid == pid

  unfoldable pub waitpid : ℕ → ℕ → ℕ → ℕ → K I ℕ
  unfolding wait_means first_zombie collect is_child
  waitpid caller pid statp options = do
    p ← proc caller
    procs ← (λ s. (ok s.procs, s))
    let cands = pids_where (λ q. is_child p.pid q && wait_means pid p.pgrp q) procs
    elim cands [
      | [] ↦ raise echild
      | n ∷ ns ↦ elim (first_zombie procs (n ∷ ns)) [
        | some z ↦ collect caller statp z
        | none ↦ if options % 2 == 1 then return 0 else trap (asleep (wait_child p.pid))
      ]
    ]

  -- ---- the scheduler ----

  -- `_pick`: at most one round of the queue, of which the first is looked at and put last.
  abbrev pub can_run : Process I → Bool
  can_run q = is_running q.state && not q.kernel_task

  unfoldable pub pick_from : Table (Process I) → ℕ → List ℕ → Option ℕ × List ℕ
  pick_from procs zero q = (none, q)
  pick_from procs (suc n) [] = (none, [])
  pick_from procs (suc n) (pid ∷ q) =
      let dropped = pick_from procs n q in
      let kept = pick_from procs n (q ++ pid ∷ []) in
      elim (table_get pid procs) [
        | none ↦ dropped
        | some p ↦
            if is_zombie p.state
            then dropped
            else if can_run p
            then (some pid, q ++ pid ∷ [])
            else kept
      ]

  unfoldable pub pick : K I (Option ℕ)
  unfolding pick_from
  pick s = let (r, q) = pick_from s.procs (length s.runq) s.runq in (ok r, record s { runq = q })

  -- `_wake_waiters`, over the numbers of the processes.
  unfoldable pub zombie_child : ℕ → Table (Process I) → Bool
  zombie_child pid [] = false
  zombie_child pid ((k, q) ∷ ps) = (q.ppid == pid && is_zombie q.state) || zombie_child pid ps

  unfoldable pub is_ready : Kernel I → Process I → Channel → Bool
  unfolding zombie_child
  is_ready s q (pipe_read n) = elim (table_get n s.pipes) [
    | none ↦ false
    | some e ↦ some_bytes e.buf || e.writers == 0
  ]
  is_ready s q (pipe_write n) = elim (table_get n s.pipes) [
    | none ↦ false
    | some e ↦ ltb 0 (Pipe.space e) || e.readers == 0
  ]
  is_ready s q (wait_child n) = zombie_child q.pid s.procs
  is_ready s q (pause n) = false
  is_ready s q terminal_input = elim s.tty [
    | none ↦ false
    | some t ↦ some_bytes t.ready || t.eof_pending
  ]

  unfoldable pub wake_waiters : List ℕ → K I Done
  unfolding is_ready
  wake_waiters [] s = (ok tt, s)
  wake_waiters (n ∷ ns) s =
      let rest = wake_waiters ns s in
      elim (table_get n s.procs) [
        | none ↦ rest
        | some q ↦ elim q.wait_channel [
          | none ↦ rest
          | some ch ↦
              if is_sleeping q.state && is_ready s q ch
              then (do wake n false; wake_waiters ns) s
              else rest
        ]
      ]

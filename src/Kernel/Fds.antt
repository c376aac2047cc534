-- ===== src/Kernel/Fds.antt =====
-- The descriptors of kernel.py: open files are shared by the descriptors that `dup` and `fork` make,
-- and a pipe counts the descriptors at each of its ends.
use minixfs.Prelude.{
  ℕ, ◌+◌, ◌-◌, ◌%◌, not, Option, none, some, List, [], ◌∷◌, ltb, leb, ◌==◌, if◌then◌else◌, get_or,
  set, ok, err,
}
use minixfs.Overlay.State as Overlay
use minixfs.Overlay.State.{VInode, size}
use minixfs.Overlay.Dict.{table_get, table_set}
use minixfs.Memory
use minixfs.Kernel.State.{
  vnode, pipe, readable, writable, nr_open, bit_at, set_bit, clear_bit, K, ◌>>=◌, ◌>>◌, return,
  raise, trap, in_fs, Done, proc, put_proc, file, put_file, the_pipe, put_pipe, ebadf, emfile,
  einval, fault,
}

-- `alloc_fd`: the first free slot from `start` on; `i` is the number of the slot at the head.
unfoldable pub first_free : List (Option ℕ) → ℕ → ℕ → Option ℕ
first_free [] i start = none
first_free (some f ∷ fds) i start = first_free fds (i + 1) start
first_free (none ∷ fds) i start =
    let rest = first_free fds (i + 1) start in if leb start i then some i else rest

-- A bit of the flags, as in the argument; bit 10 is O_APPEND, bit 11 is O_NONBLOCK.
abbrev pub with_bit : ℕ → ℕ → ℕ → ℕ
with_bit i old new = if bit_at new i then set_bit old i else clear_bit old i

-- An open inode is in the table of the overlay, where the last release looks for it.
unfoldable pub close_in_overlay : ℕ → Overlay.M Done
close_in_overlay ino fs = elim (table_get ino fs.vnodes) [
  | none ↦ (ok tt, fs)
  | some v ↦ Overlay.put (record v { open_refs = v.open_refs - 1 }) fs
]

module _ {I : Type 0} where
  unfoldable pub alloc_fd : ℕ → ℕ → K I ℕ
  unfolding first_free
  alloc_fd pid start = do
    p ← proc pid
    elim (first_free p.fds 0 start) [ none ↦ raise emfile | some fd ↦ return fd ]

  -- The number of the open file.
  unfoldable pub get_file : ℕ → ℕ → K I ℕ
  get_file pid fd = do
    p ← proc pid
    elim (get_or p.fds fd none) [ none ↦ raise ebadf | some f ↦ return f ]

  -- `p.fds[fd] = f`
  unfoldable pub set_fd : ℕ → ℕ → Option ℕ → K I Done
  set_fd pid fd f = do p ← proc pid; put_proc (record p { fds = set p.fds fd f })

  unfoldable pub acquire_fd : ℕ → K I Done
  acquire_fd f = do
    o ← file f
    put_file f (record o { refs = o.refs + 1 })
    elim o.obj [
      | pipe q ↦ do
        e ← the_pipe q
        put_pipe q (record e {
          readers = if readable o then e.readers + 1 else e.readers;
          writers = if writable o then e.writers + 1 else e.writers;
        })
      | _ ↦ return tt
    ]

  -- The inode whose last open file is released.
  unfoldable pub close_vnode : ℕ → K I Done
  unfolding close_in_overlay
  close_vnode ino = in_fs (close_in_overlay ino)

  unfoldable pub release_file : ℕ → K I Done
  unfolding close_vnode
  release_file f = do
    o ← file f
    put_file f (record o { refs = o.refs - 1 })
    elim o.obj [
      | pipe q ↦ do
        e ← the_pipe q
        put_pipe q (record e {
          readers = if readable o then e.readers - 1 else e.readers;
          writers = if writable o then e.writers - 1 else e.writers;
        })
      | vnode ino ↦ if o.refs - 1 == 0 then close_vnode ino else return tt
      | _ ↦ return tt
    ]

  -- `sys_close`
  unfoldable pub close : ℕ → ℕ → K I ℕ
  close pid fd = do f ← get_file pid fd; set_fd pid fd none; release_file f; return 0

  -- `sys_dup`, and F_DUPFD of `sys_fcntl`, which searches from a number on.
  unfoldable pub dup_from : ℕ → ℕ → ℕ → K I ℕ
  dup_from pid fd start = do
    f ← get_file pid fd
    new ← alloc_fd pid start
    acquire_fd f
    set_fd pid new (some f)
    return new

  unfoldable pub dup : ℕ → ℕ → K I ℕ
  unfolding dup_from
  dup pid fd = dup_from pid fd 0

  -- The slot that `dup2` takes is closed if it is in use.
  unfoldable pub close_if_open : ℕ → ℕ → K I Done
  close_if_open pid fd = do
    p ← proc pid
    elim (get_or p.fds fd none) [ none ↦ return tt | some f ↦ do _ ← close pid fd; return tt ]

  unfoldable pub dup2 : ℕ → ℕ → ℕ → K I ℕ
  dup2 pid oldfd newfd = do
    f ← get_file pid oldfd
    if not (ltb newfd nr_open) then raise ebadf else if oldfd == newfd then return newfd else do
      close_if_open pid newfd
      acquire_fd f
      set_fd pid newfd (some f)
      p ← proc pid
      put_proc (record p { close_on_exec = clear_bit p.close_on_exec newfd })
      return newfd

  -- The parts of `sys_fcntl`: F_SETFD and F_SETFL.
  unfoldable pub set_close_on_exec : ℕ → ℕ → ℕ → K I ℕ
  set_close_on_exec pid fd arg = do
    p ← proc pid
    put_proc (record p {
      close_on_exec =
          if arg % 2 == 1 then set_bit p.close_on_exec fd else clear_bit p.close_on_exec fd;
    })
    return 0

  unfoldable pub set_flags : ℕ → ℕ → K I ℕ
  set_flags f arg = do
    o ← file f
    put_file f (record o { flags = with_bit 11 (with_bit 10 o.flags arg) arg })
    return 0

  -- `sys_fcntl`, from the open file `f` of the descriptor on.
  unfoldable pub control : ℕ → ℕ → ℕ → ℕ → ℕ → K I ℕ
  unfolding set_close_on_exec set_flags
  control pid fd cmd arg f =
      if cmd == 0
      then dup_from pid fd arg
      else if cmd == 1
      then (do p ← proc pid; return (if bit_at p.close_on_exec fd then 1 else 0))
      else if cmd == 2
      then set_close_on_exec pid fd arg
      else if cmd == 3
      then (do o ← file f; return o.flags)
      else if cmd == 4
      then set_flags f arg
      else raise einval

  unfoldable pub fcntl : ℕ → ℕ → ℕ → ℕ → K I ℕ
  unfolding control
  fcntl pid fd cmd arg = do f ← get_file pid fd; control pid fd cmd arg f

  unfoldable pub write_word : ℕ → ℕ → ℕ → K I Done
  write_word pid addr v = do
    p ← proc pid
    let w = Memory.write_u32 p.mem addr v
    put_proc (record p { mem = w.0 })
    elim w.1 [ ok _ ↦ return tt | err e ↦ trap (fault e) ]

  -- The second slot of `sys_pipe`; where there is none the first is given back.
  unfoldable pub second_slot : ℕ → ℕ → K I ℕ
  second_slot pid rfd s =
      let (r, s') = alloc_fd pid 0 s in
      elim r [ ok wfd ↦ (ok wfd, s') | err e ↦ (do set_fd pid rfd none; trap e) s' ]

  -- The pipe and its two open files, which enter the tables together once both slots are found.
  unfoldable pub enter_pipe : ℕ → ℕ → K I Done
  enter_pipe rf q s = (
    ok tt,
    record s {
      pipes = table_set q (record { buf = []; readers = 1; writers = 1 }) s.pipes;
      files =
          table_set (rf + 1) (record { obj = pipe q; flags = 1; pos = 0; refs = 1 })
            (table_set rf (record { obj = pipe q; flags = 0; pos = 0; refs = 1 }) s.files);
      next_file = rf + 2;
      next_pipe = q + 1;
    },
  )

  -- The two numbers are written to the caller's memory.
  unfoldable pub report_pipe : ℕ → ℕ → ℕ → ℕ → K I ℕ
  unfolding write_word
  report_pipe pid addr rfd wfd = do write_word pid addr rfd; write_word pid (addr + 4) wfd; return 0

  -- `sys_pipe`
  unfoldable pub open_pipe : ℕ → ℕ → K I ℕ
  unfolding second_slot enter_pipe report_pipe
  open_pipe pid addr = do
    rfd ← alloc_fd pid 0
    rf ← (λ s. (ok s.next_file, s))
    q ← (λ s. (ok s.next_pipe, s))
    set_fd pid rfd (some rf)
    wfd ← second_slot pid rfd
    enter_pipe rf q
    set_fd pid wfd (some (rf + 1))
    report_pipe pid addr rfd wfd

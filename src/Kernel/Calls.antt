-- ===== src/Kernel/Calls.antt =====
-- Sequences of calls of kernel.py by any processes, and what the counts say of the ends of a pipe.
use minixfs.Prelude.{
  ℕ, ◌⊎◌, none, Bytes, ◌≡◌, refl, ◌↔◌, Bool, true, Bool-cases, inl, inr, some, List, [], ◌∷◌, ◌==◌,
  sym, ap, ◌∙◌, err, arith,
}
use minixfs.Pipe.{Pipe, read, write, epipe}
use minixfs.Overlay.Dict.{table_get, total, weight, total-table_del, total-eq-zero}
use minixfs.Kernel.State.{
  FileObj, pipe, vnode, terminal, null_device, OpenFile, readable, writable, Kernel,
}
use minixfs.Kernel.Io as Io
use minixfs.Kernel.Open.{open_file, creat}
use minixfs.Kernel.Paths.{chdir}
use minixfs.Kernel.Reading.{read-Keeps, lseek-Keeps}
use minixfs.Kernel.Writing.{write-Keeps}
use minixfs.Kernel.Opening.{open_file-Keeps, creat-Keeps, chdir-Keeps}
use minixfs.Kernel.Fds.{close, dup, dup2, fcntl, open_pipe}
use minixfs.Kernel.Signals.{post_signal}
use minixfs.Kernel.Procs.{fork, exit_process}
use minixfs.Kernel.Execve.{execve}
use minixfs.Kernel.Replaced.{execve-Counted}
use minixfs.Kernel.Counts.{Counted, descriptors, end_share}
use minixfs.Kernel.Sharing.{close-Counted, dup-Counted}
use minixfs.Kernel.Replacing.{dup2-Counted}
use minixfs.Kernel.Control.{fcntl-Keeps}
use minixfs.Kernel.Piping.{open_pipe-Keeps}
use minixfs.Kernel.Lifecycle.{fork-Counted}
use minixfs.Kernel.Ending.{post_signal-Keeps, exit_process-Keeps}

-- The calls that make, use, share and give back descriptors, and those that signal, with the number
-- of the process that makes them.
pub data Call : Type 0 where
  close_fd dup_fd : (pid fd : ℕ) → Call
  dup2_fd : (pid oldfd newfd : ℕ) → Call
  fcntl_fd : (pid fd cmd arg : ℕ) → Call
  make_pipe : (pid addr : ℕ) → Call
  open_name : (now pid path flags mode : ℕ) → Call
  creat_name : (now pid path mode : ℕ) → Call
  chdir_to : (pid path : ℕ) → Call
  read_fd : (pid fd buf count : ℕ) → (typed : Bytes) → (at_eof : Bool) → Call
  write_fd : (now pid fd buf count : ℕ) → Call
  lseek_fd : (pid fd offset whence : ℕ) → Call
  fork_off : (pid : ℕ) → Call
  exec_name : (pid path argvp envpp : ℕ) → Call
  exit_with : (pid code : ℕ) → Call
  signal_to : (pid sig : ℕ) → Call

module _ {I : Type 0} where
  unfoldable pub perform : Call → Kernel I → Kernel I
  perform (close_fd pid fd) s = (close pid fd s).1
  perform (dup_fd pid fd) s = (dup pid fd s).1
  perform (dup2_fd pid oldfd newfd) s = (dup2 pid oldfd newfd s).1
  perform (fcntl_fd pid fd cmd arg) s = (fcntl pid fd cmd arg s).1
  perform (make_pipe pid addr) s = (open_pipe pid addr s).1
  perform (open_name now pid path flags mode) s = (open_file now pid path flags mode s).1
  perform (creat_name now pid path mode) s = (creat now pid path mode s).1
  perform (chdir_to pid path) s = (chdir pid path s).1
  perform (read_fd pid fd buf count typed at_eof) s = (Io.read pid fd buf count typed at_eof s).1
  perform (write_fd now pid fd buf count) s = (Io.write now pid fd buf count s).1
  perform (lseek_fd pid fd offset whence) s = (Io.lseek pid fd offset whence s).1
  perform (fork_off pid) s = (fork pid s).1
  perform (exec_name pid path argvp envpp) s = (execve pid path argvp envpp s).1
  perform (exit_with pid code) s = (exit_process pid code s).1
  perform (signal_to pid sig) s = (post_signal pid sig s).1

  unfoldable pub perform_all : List Call → Kernel I → Kernel I
  unfolding perform
  perform_all [] s = s
  perform_all (c ∷ cs) s = perform_all cs (perform c s)

  perform-Counted : (call : Call) (s : Kernel I) → Counted [] s → Counted [] (perform call s)
  unfolding perform
  perform-Counted (close_fd pid fd) s c = close-Counted pid s fd c
  perform-Counted (dup_fd pid fd) s c = dup-Counted pid s fd c
  perform-Counted (dup2_fd pid oldfd newfd) s c = dup2-Counted pid s oldfd newfd c
  perform-Counted (fcntl_fd pid fd cmd arg) s c = fcntl-Keeps pid fd cmd arg s c
  perform-Counted (make_pipe pid addr) s c = open_pipe-Keeps pid addr s c
  perform-Counted (open_name now pid path flags mode) s c =
      open_file-Keeps now pid path flags mode s c
  perform-Counted (creat_name now pid path mode) s c = creat-Keeps now pid path mode s c
  perform-Counted (chdir_to pid path) s c = chdir-Keeps pid path s c
  perform-Counted (read_fd pid fd buf count typed at_eof) s c =
      read-Keeps pid fd buf count typed at_eof s c
  perform-Counted (write_fd now pid fd buf count) s c = write-Keeps now pid fd buf count s c
  perform-Counted (lseek_fd pid fd offset whence) s c = lseek-Keeps pid fd offset whence s c
  perform-Counted (fork_off pid) s c = fork-Counted s pid c
  perform-Counted (exec_name pid path argvp envpp) s c = execve-Counted pid path argvp envpp s c
  perform-Counted (exit_with pid code) s c = exit_process-Keeps pid code s c
  perform-Counted (signal_to pid sig) s c = post_signal-Keeps pid sig s c

  -- Whatever sequence of opening and creating files, changing the directory, reading, writing, seeking,
  -- closing, duplicating, opening pipes, forking, executing, exiting and signalling the processes go through,
  -- failed calls included: each open file keeps as many references as slots of
  -- processes stand for it, each pipe as many readers and writers as there are references at its ends,
  -- and no slot stands for an open file that is not there.
  pub perform_all-Counted :
      (calls : List Call) (s : Kernel I) → Counted [] s → Counted [] (perform_all calls s)
  unfolding perform_all
  perform_all-Counted [] s c = c
  perform_all-Counted (call ∷ calls) s c =
      perform_all-Counted calls (perform call s) (perform-Counted call s c)

  -- No slot of a process stands for an open file at that end of the pipe.
  abbrev pub NoneAt : (OpenFile → Bool) → ℕ → Kernel I → Type 0
  NoneAt open_for q s =
      (f : ℕ) (o : OpenFile)
      → table_get f s.files ≡ some o
      → o.obj ≡ pipe q
      → open_for o ≡ true
      → descriptors f s.procs ≡ 0

  -- A sum over the open files at an end is zero exactly where no slot stands for one of them.
  ends_iff :
      (open_for : OpenFile → Bool) (q : ℕ) (s : Kernel I)
      → Counted [] s
      → (total (end_share open_for q) s.files ≡ 0) ↔ NoneAt open_for q s
  ends_iff open_for q s c = (
    λ none_left f o at is at_end. ground (
      arith,
      none_left,
      at,
      is,
      at_end,
      c.refs f,
      total-table_del (end_share open_for q) f s.files,
    ),
    λ all.
        total-eq-zero (end_share open_for q) s.files c.distinct_files
          (λ f o at. share f o o.obj at refl (all f o at)),
  )
    where
      share :
          (f : ℕ) (o : OpenFile) (x : FileObj)
          → table_get f s.files ≡ some o
          → o.obj ≡ x
          → (o.obj ≡ pipe q → open_for o ≡ true → descriptors f s.procs ≡ 0)
          → end_share open_for q o ≡ 0
      share f o (vnode n) at is all = ground (arith, is)
      share f o terminal at is all = ground (arith, is)
      share f o null_device at is all = ground (arith, is)
      share f o (pipe p) at is all = elim (Bool-cases (p == q)) [
        | inr other ↦ ground (arith, is, other)
        | inl same ↦ elim (Bool-cases (open_for o)) [
          | inr shut ↦ ground (arith, is, same, shut)
          | inl open_end ↦
              let none_left : descriptors f s.procs ≡ 0 = all (ground (arith, is, same)) open_end in
              ground (arith, is, same, open_end, at, c.refs f, none_left)
        ]
      ]

  -- After any such sequence, a read of an empty pipe reports the end of the file exactly when no slot
  -- of any process stands for a write end, and waits otherwise; a write of some bytes reports EPIPE
  -- exactly when no slot of any process stands for a read end.
  pub ends_seen_iff :
      (calls : List Call) (s : Kernel I) (q n b : ℕ) (d : Bytes) (e : Pipe)
      → Counted [] s
      → table_get q (perform_all calls s).pipes ≡ some e
      → ((e.buf ≡ []) → ((read e n).1 ≡ some []) ↔ NoneAt writable q (perform_all calls s))
        × ((e.buf ≡ []) → ((read e n).1 ≡ none) ⊎ ((read e n).1 ≡ some []))
        × (((write e (b ∷ d)).1 ≡ err epipe) ↔ NoneAt readable q (perform_all calls s))
  unfolding read write
  ends_seen_iff calls s q n b d e c at =
      let s' = perform_all calls s in
      let c' = perform_all-Counted calls s c in
      let writers : e.writers ≡ total (end_share writable q) s'.files =
        sym (ap (weight (λ u. u.writers)) at) ∙ c'.writers q in
      let readers : e.readers ≡ total (end_share readable q) s'.files =
        sym (ap (weight (λ u. u.readers)) at) ∙ c'.readers q in
      let w = ends_iff writable q s' c' in
      let r = ends_iff readable q s' c' in
      (
        λ empty. (
          λ h. w.0 (ground (arith, h, empty, writers)),
          λ none_left. ground (arith, empty, writers, w.1 none_left),
        ),
        λ empty. ground (arith, empty),
        (
          λ h. r.0 (ground (arith, h, readers)),
          λ none_left. ground (arith, readers, r.1 none_left),
        ),
      )

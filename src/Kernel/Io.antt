-- ===== src/Kernel/Io.antt =====
-- Reading, writing and seeking in kernel.py.
use minixfs.Prelude.{
  ℕ, ◌+◌, ◌-◌, ◌^◌, Bool, Option, none, some, ltb, ◌==◌, if◌then◌else◌, Bytes, length, ok, err,
}
use minixfs.Memory as Memory
use minixfs.MinixFs.Dir.{Text}
use minixfs.Overlay.State as Overlay
use minixfs.Overlay.State.{VInode, size}
use minixfs.Overlay.Ops as Ops
use minixfs.Pipe as Pipes
use minixfs.Tty as Terminal
use minixfs.Kernel.State.{
  vnode, pipe, terminal, null_device, OpenFile, bit_at, pipe_read, pipe_write, terminal_input, K,
  ◌>>=◌, ◌>>◌, return, raise, trap, in_fs, Done, proc, put_proc, file, put_file, the_pipe, put_pipe,
  einval, espipe, fault, asleep, broken_pipe, dangling, bad_echo,
}
use minixfs.Kernel.Fds.{get_file}

-- O_APPEND is the bit 10 of the flags.
abbrev pub o_append : ℕ
o_append = 10

-- `start + offset`, where the offset is a word with a sign.
abbrev pub from_start : ℕ → ℕ → Option ℕ
from_start start offset =
    if ltb offset 0x80000000
    then some (start + offset)
    else if ltb start (2 ^ 32 - offset)
    then none
    else some (start - (2 ^ 32 - offset))

-- The number that SEEK_SET, SEEK_CUR or SEEK_END adds the offset to.
abbrev pub seek_start : OpenFile → VInode → ℕ → Option ℕ
seek_start o v whence =
    if whence == 0
    then some 0
    else if whence == 1
    then some o.pos
    else if whence == 2
    then some (size v)
    else none

module _ {I : Type 0} where
  -- `_cstr`, with the limit of `read_cstr`.
  unfoldable pub cstr : ℕ → ℕ → K I Text
  cstr pid addr = do
    p ← proc pid
    elim (Memory.read_cstr p.mem addr 4096) [ ok t ↦ return t | err e ↦ trap (fault e) ]

  -- A store to the caller's memory, which keeps what a fault has grown.
  unfoldable pub store : ℕ → ℕ → Bytes → K I Done
  store pid addr d = do
    p ← proc pid
    let w = Memory.write p.mem addr d
    put_proc (record p { mem = w.0 })
    elim w.1 [ ok _ ↦ return tt | err e ↦ trap (fault e) ]

  unfoldable pub load : ℕ → ℕ → ℕ → K I Bytes
  load pid addr n = do
    p ← proc pid
    elim (Memory.read p.mem addr n) [ ok d ↦ return d | err e ↦ trap (fault e) ]

  -- The object of the overlay, as the kernel looks at it.
  abbrev pub inode : ℕ → K I VInode
  inode n = in_fs (Overlay.the n)

  -- `f.pos = pos`
  unfoldable pub seek_to : ℕ → ℕ → K I Done
  seek_to f pos = do o ← file f; put_file f (record o { pos = pos })

  -- `sys_read`, by the kind of the object. What the host's terminal has to offer is an argument.
  unfoldable pub read_vnode : ℕ → ℕ → ℕ → ℕ → ℕ → K I ℕ
  unfolding store seek_to
  read_vnode pid f ino buf count = do
    o ← file f
    d ← in_fs (Ops.read ino o.pos count)
    seek_to f (o.pos + length d)
    store pid buf d
    return (length d)

  unfoldable pub read_pipe : ℕ → ℕ → ℕ → ℕ → K I ℕ
  unfolding store
  read_pipe pid q buf count = do
    e ← the_pipe q
    let r = Pipes.read e count
    put_pipe q r.0
    elim r.1 [ none ↦ trap (asleep (pipe_read q)) | some d ↦ do store pid buf d; return (length d) ]

  unfoldable pub put_terminal : Terminal.Tty → K I Done
  put_terminal t s = (ok tt, record s { tty = some t })

  unfoldable pub terminal_now : K I Terminal.Tty
  terminal_now s = elim s.tty [ none ↦ (err (dangling 0), s) | some t ↦ (ok t, s) ]

  unfoldable pub read_terminal : ℕ → ℕ → ℕ → Bytes → Bool → K I ℕ
  unfolding store put_terminal terminal_now
  read_terminal pid buf count typed at_eof = do
    t ← terminal_now
    let r = Terminal.read t typed at_eof count
    put_terminal r.0
    elim r.1 [
      | err e ↦ trap (bad_echo e)
      | ok none ↦ trap (asleep terminal_input)
      | ok (some d) ↦ do store pid buf d; return (length d)
    ]

  unfoldable pub read : ℕ → ℕ → ℕ → ℕ → Bytes → Bool → K I ℕ
  unfolding read_vnode read_pipe read_terminal
  read pid fd buf count typed at_eof = do
    f ← get_file pid fd
    o ← file f
    if count == 0 then return 0 else elim o.obj [
      | vnode ino ↦ read_vnode pid f ino buf count
      | pipe q ↦ read_pipe pid q buf count
      | null_device ↦ return 0
      | terminal ↦ read_terminal pid buf count typed at_eof
    ]

  -- `sys_write`, by the kind of the object; the time is an argument.
  unfoldable pub write_vnode : ℕ → ℕ → ℕ → Bytes → K I ℕ
  unfolding seek_to
  write_vnode now f ino d = do
    o ← file f
    v ← inode ino
    let pos = if bit_at o.flags o_append then size v else o.pos
    seek_to f pos
    n ← in_fs (Ops.write now ino pos d)
    seek_to f (pos + n)
    return n

  unfoldable pub write_pipe : ℕ → Bytes → K I ℕ
  write_pipe q d = do
    e ← the_pipe q
    let r = Pipes.write e d
    put_pipe q r.0
    elim r.1 [
      | err _ ↦ trap broken_pipe
      | ok none ↦ trap (asleep (pipe_write q))
      | ok (some n) ↦ return n
    ]

  unfoldable pub write_terminal : Bytes → K I ℕ
  unfolding put_terminal terminal_now
  write_terminal d = do t ← terminal_now; let r = Terminal.write t d; put_terminal r.0; return r.1

  unfoldable pub write : ℕ → ℕ → ℕ → ℕ → ℕ → K I ℕ
  unfolding load write_vnode write_pipe write_terminal
  write now pid fd buf count = do
    f ← get_file pid fd
    if count == 0 then return 0 else do
      d ← load pid buf count
      o ← file f
      elim o.obj [
        | vnode ino ↦ write_vnode now f ino d
        | pipe q ↦ write_pipe q d
        | null_device ↦ return count
        | terminal ↦ write_terminal d
      ]

  abbrev pub or_invalid : Option ℕ → K I ℕ
  or_invalid none = raise einval
  or_invalid (some n) = return n

  -- `sys_lseek`
  unfoldable pub lseek_vnode : ℕ → ℕ → ℕ → ℕ → K I ℕ
  unfolding seek_to
  lseek_vnode f ino offset whence = do
    o ← file f
    v ← inode ino
    start ← or_invalid (seek_start o v whence)
    pos ← or_invalid (from_start start offset)
    seek_to f pos
    return pos

  unfoldable pub lseek : ℕ → ℕ → ℕ → ℕ → K I ℕ
  unfolding lseek_vnode
  lseek pid fd offset whence = do
    f ← get_file pid fd
    o ← file f
    elim o.obj [
      | vnode ino ↦ lseek_vnode f ino offset whence
      | pipe q ↦ raise espipe
      | null_device ↦ raise espipe
      | terminal ↦ raise espipe
    ]

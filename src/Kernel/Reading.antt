-- ===== src/Kernel/Reading.antt =====
-- Reading and seeking keep the counts of kernel.py.
use minixfs.Prelude.{
  ℕ, ◌+◌, ◌≡◌, Bool, Option, none, some, ◌==◌, if◌then◌else◌, arith, Bytes, length, Result, ok, err,
}
use minixfs.Pipe as Pipes
use minixfs.Pipe.{Pipe}
use minixfs.Tty as Terminal
use minixfs.Tty.{Tty}
use minixfs.Overlay.State.{VInode}
use minixfs.Overlay.Ops as Ops
use minixfs.Kernel.State.{
  vnode, pipe, terminal, null_device, OpenFile, K, file, return, trap, raise, ◌>>=◌, ◌>>◌, asleep,
  pipe_read, terminal_input, bad_echo, in_fs, espipe,
}
use minixfs.Kernel.Fds.{get_file}
use minixfs.Kernel.Io.{
  inode, seek_to, read_vnode, read_pipe, put_terminal, terminal_now, read_terminal, read,
  lseek_vnode, lseek, from_start, seek_start, or_invalid,
}
use minixfs.Kernel.Keeps.{Keeps, bind-Keeps, then-Keeps, if-Keeps, in_fs-Keeps}
use minixfs.Kernel.Control.{get_file-Keeps, file-Keeps}
use minixfs.Kernel.Using.{
  return-Keeps, option-Keeps, object-Keeps, seek_to-Keeps, stored, stored-Keeps, inode-Keeps,
  put_pipe-Keeps, put_terminal-Keeps, terminal_now-Keeps,
}

read_ends :
    (e : Pipe) (n : ℕ)
    → ((Pipes.read e n).0.readers ≡ e.readers) × ((Pipes.read e n).0.writers ≡ e.writers)
unfolding Pipes.read
read_ends e n = (ground arith, ground arith)

module _ {I : Type 0} where
  read_vnode-Keeps : (pid f ino buf count : ℕ) → Keeps {I = I} (read_vnode pid f ino buf count)
  unfolding read_vnode
  read_vnode-Keeps pid f ino buf count =
      bind-Keeps (file f)
        (λ o.
          in_fs (Ops.read ino o.pos count)
          >>= (λ d. seek_to f (o.pos + length d) >> stored pid buf d))
        (file-Keeps f)
        (λ o.
          bind-Keeps (in_fs (Ops.read ino o.pos count))
            (λ d. seek_to f (o.pos + length d) >> stored pid buf d)
            (in_fs-Keeps (Ops.read ino o.pos count))
            (λ d.
              then-Keeps (seek_to f (o.pos + length d)) (stored pid buf d)
                (seek_to-Keeps f (o.pos + length d)) (stored-Keeps pid buf d)))

  read_pipe-Keeps : (pid q buf count : ℕ) → Keeps {I = I} (read_pipe pid q buf count)
  unfolding read_pipe
  read_pipe-Keeps pid q buf count =
      put_pipe-Keeps q (λ e. (Pipes.read e count).0)
        (λ e. elim ((Pipes.read e count).1) [
          | none ↦ trap (asleep (pipe_read q))
          | some d ↦ stored pid buf d
        ])
        (λ e. read_ends e count)
        (λ e.
          option-Keeps (Pipes.read e count).1 (stored pid buf) (asleep (pipe_read q))
            (stored-Keeps pid buf))

  read_terminal-Keeps :
      (pid buf count : ℕ) (typed : Bytes) (at_eof : Bool)
      → Keeps {I = I} (read_terminal pid buf count typed at_eof)
  unfolding read_terminal
  read_terminal-Keeps pid buf count typed at_eof =
      bind-Keeps terminal_now (λ t. put_terminal (Terminal.read t typed at_eof count).0 >> got t)
        terminal_now-Keeps
        (λ t.
          then-Keeps (put_terminal (Terminal.read t typed at_eof count).0) (got t)
            (put_terminal-Keeps (Terminal.read t typed at_eof count).0)
            (given-Keeps (Terminal.read t typed at_eof count).1))
    where
      given : Result Terminal.ValueError (Option Bytes) → K I ℕ
      given r = elim r [
        | err e ↦ trap (bad_echo e)
        | ok none ↦ trap (asleep terminal_input)
        | ok (some d) ↦ stored pid buf d
      ]

      got : Tty → K I ℕ
      got t = given (Terminal.read t typed at_eof count).1

      given-Keeps : (r : Result Terminal.ValueError (Option Bytes)) → Keeps (given r)
      given-Keeps (err e) = λ s c. c
      given-Keeps (ok none) = λ s c. c
      given-Keeps (ok (some d)) = stored-Keeps pid buf d

  pub read-Keeps :
      (pid fd buf count : ℕ) (typed : Bytes) (at_eof : Bool)
      → Keeps {I = I} (read pid fd buf count typed at_eof)
  unfolding read
  read-Keeps pid fd buf count typed at_eof =
      bind-Keeps (get_file pid fd) (λ f. file f >>= then_read f) (get_file-Keeps pid fd)
        (λ f. bind-Keeps (file f) (then_read f) (file-Keeps f) (λ o.
          if-Keeps (count == 0) (return 0) (by_object f o) (return-Keeps {A = ℕ} 0) (
            object-Keeps o.obj (λ ino. read_vnode pid f ino buf count)
              (λ q. read_pipe pid q buf count) (read_terminal pid buf count typed at_eof) (return 0)
              (λ ino. read_vnode-Keeps pid f ino buf count) (λ q _. read_pipe-Keeps pid q buf count)
              (read_terminal-Keeps pid buf count typed at_eof) (return-Keeps {A = ℕ} 0))))
    where
      by_object : ℕ → OpenFile → K I ℕ
      by_object f o = elim o.obj [
        | vnode ino ↦ read_vnode pid f ino buf count
        | pipe q ↦ read_pipe pid q buf count
        | null_device ↦ return 0
        | terminal ↦ read_terminal pid buf count typed at_eof
      ]

      then_read : ℕ → OpenFile → K I ℕ
      then_read f o = if count == 0 then return 0 else by_object f o

  or_invalid-Keeps : (r : Option ℕ) → Keeps {I = I} (or_invalid r)
  or_invalid-Keeps none = λ s c. c
  or_invalid-Keeps (some n) = λ s c. c

  lseek_vnode-Keeps : (f ino offset whence : ℕ) → Keeps {I = I} (lseek_vnode f ino offset whence)
  unfolding lseek_vnode
  lseek_vnode-Keeps f ino offset whence =
      bind-Keeps (file f) (λ o. inode ino >>= seek o) (file-Keeps f)
        (λ o. bind-Keeps (inode ino) (seek o) (inode-Keeps ino) (λ v.
          bind-Keeps (or_invalid (seek_start o v whence))
            (λ start. or_invalid (from_start start offset) >>= arrive)
            (or_invalid-Keeps (seek_start o v whence))
            (λ start.
              bind-Keeps (or_invalid (from_start start offset)) arrive
                (or_invalid-Keeps (from_start start offset))
                (λ pos.
                  then-Keeps (seek_to f pos) (return pos) (seek_to-Keeps f pos)
                    (return-Keeps pos)))))
    where
      arrive : ℕ → K I ℕ
      arrive pos = seek_to f pos >> return pos

      seek : OpenFile → VInode → K I ℕ
      seek o v =
          or_invalid (seek_start o v whence)
          >>= (λ start. or_invalid (from_start start offset) >>= arrive)

  pub lseek-Keeps : (pid fd offset whence : ℕ) → Keeps {I = I} (lseek pid fd offset whence)
  unfolding lseek
  lseek-Keeps pid fd offset whence =
      bind-Keeps (get_file pid fd) (λ f. file f >>= by_object f) (get_file-Keeps pid fd)
        (λ f. bind-Keeps (file f) (by_object f) (file-Keeps f) (λ o.
          object-Keeps o.obj (λ ino. lseek_vnode f ino offset whence) (λ q. raise espipe)
            (raise espipe) (raise espipe) (λ ino. lseek_vnode-Keeps f ino offset whence)
            (λ q _ s c. c) (λ s c. c) (λ s c. c)))
    where
      by_object : ℕ → OpenFile → K I ℕ
      by_object f o = elim o.obj [
        | vnode ino ↦ lseek_vnode f ino offset whence
        | pipe q ↦ raise espipe
        | null_device ↦ raise espipe
        | terminal ↦ raise espipe
      ]

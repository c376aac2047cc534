-- ===== src/Kernel/Writing.antt =====
-- Writing keeps the counts of kernel.py.
use minixfs.Prelude.{
  ℕ, ◌+◌, ◌≡◌, Option, none, some, ◌==◌, if◌then◌else◌, Result, ok, err, arith, Bytes,
}
use minixfs.Pipe as Pipes
use minixfs.Pipe.{Pipe}
use minixfs.Tty as Terminal
use minixfs.Tty.{Tty}
use minixfs.Overlay.State.{VInode, size}
use minixfs.Overlay.Ops as Ops
use minixfs.Kernel.State.{
  vnode, pipe, terminal, null_device, OpenFile, K, file, return, trap, bit_at, ◌>>=◌, ◌>>◌, asleep,
  broken_pipe, pipe_write, in_fs,
}
use minixfs.Kernel.Fds.{get_file}
use minixfs.Kernel.Io.{
  o_append, load, inode, seek_to, put_terminal, terminal_now, write_vnode, write_pipe,
  write_terminal, write,
}
use minixfs.Kernel.Keeps.{Keeps, bind-Keeps, then-Keeps, if-Keeps, in_fs-Keeps}
use minixfs.Kernel.Control.{get_file-Keeps, file-Keeps}
use minixfs.Kernel.Using.{
  return-Keeps, object-Keeps, seek_to-Keeps, load-Keeps, inode-Keeps, put_pipe-Keeps,
  put_terminal-Keeps, terminal_now-Keeps,
}

write_ends :
    (e : Pipe) (d : Bytes)
    → ((Pipes.write e d).0.readers ≡ e.readers) × ((Pipes.write e d).0.writers ≡ e.writers)
unfolding Pipes.write
write_ends e d = (ground arith, ground arith)

module _ {I : Type 0} where
  write_vnode-Keeps : (now f ino : ℕ) (d : Bytes) → Keeps {I = I} (write_vnode now f ino d)
  unfolding write_vnode
  write_vnode-Keeps now f ino d =
      bind-Keeps (file f) (λ o. inode ino >>= at_pos o) (file-Keeps f)
        (λ o. bind-Keeps (inode ino) (at_pos o) (inode-Keeps ino) (λ v.
          then-Keeps (seek_to f (start o v))
            (in_fs (Ops.write now ino (start o v) d) >>= advance (start o v))
            (seek_to-Keeps f (start o v))
            (bind-Keeps (in_fs (Ops.write now ino (start o v) d)) (advance (start o v))
              (in_fs-Keeps (Ops.write now ino (start o v) d))
              (λ n.
                then-Keeps (seek_to f (start o v + n)) (return n) (seek_to-Keeps f (start o v + n))
                  (return-Keeps n)))))
    where
      start : OpenFile → VInode → ℕ
      start o v = if bit_at o.flags o_append then size v else o.pos

      advance : ℕ → ℕ → K I ℕ
      advance pos n = seek_to f (pos + n) >> return n

      at_pos : OpenFile → VInode → K I ℕ
      at_pos o v =
          seek_to f (start o v) >> (in_fs (Ops.write now ino (start o v) d) >>= advance (start o v))

  write_pipe-Keeps : (q : ℕ) (d : Bytes) → Keeps {I = I} (write_pipe q d)
  unfolding write_pipe
  write_pipe-Keeps q d =
      put_pipe-Keeps q (λ e. (Pipes.write e d).0)
        (λ e. elim ((Pipes.write e d).1) [
          | err _ ↦ trap broken_pipe
          | ok none ↦ trap (asleep (pipe_write q))
          | ok (some n) ↦ return n
        ])
        (λ e. write_ends e d) (λ e. ended (Pipes.write e d).1)
    where
      ended :
          (r : Result Pipes.BrokenPipe (Option ℕ))
          → Keeps {A = ℕ} (elim r as (λ _. K I ℕ) [
            | err _ ↦ trap broken_pipe
            | ok none ↦ trap (asleep (pipe_write q))
            | ok (some n) ↦ return n
          ])
      ended (err e) s c = c
      ended (ok none) s c = c
      ended (ok (some n)) s c = c

  write_terminal-Keeps : (d : Bytes) → Keeps {I = I} (write_terminal d)
  unfolding write_terminal
  write_terminal-Keeps d =
      bind-Keeps terminal_now
        (λ t. put_terminal (Terminal.write t d).0 >> return (Terminal.write t d).1)
        terminal_now-Keeps
        (λ t.
          then-Keeps (put_terminal (Terminal.write t d).0) (return (Terminal.write t d).1)
            (put_terminal-Keeps (Terminal.write t d).0) (return-Keeps (Terminal.write t d).1))

  pub write-Keeps : (now pid fd buf count : ℕ) → Keeps {I = I} (write now pid fd buf count)
  unfolding write
  write-Keeps now pid fd buf count =
      bind-Keeps (get_file pid fd)
        (λ f. if count == 0 then return 0 else (load pid buf count >>= with_bytes f))
        (get_file-Keeps pid fd)
        (λ f.
          if-Keeps (count == 0) (return 0) (load pid buf count >>= with_bytes f)
            (return-Keeps {A = ℕ} 0)
            (bind-Keeps (load pid buf count) (with_bytes f) (load-Keeps pid buf count) (λ d.
              bind-Keeps (file f) (by_object f d) (file-Keeps f) (λ o.
                object-Keeps o.obj (λ ino. write_vnode now f ino d) (λ q. write_pipe q d)
                  (write_terminal d) (return count) (λ ino. write_vnode-Keeps now f ino d)
                  (λ q _. write_pipe-Keeps q d) (write_terminal-Keeps d) (return-Keeps count)))))
    where
      by_object : ℕ → Bytes → OpenFile → K I ℕ
      by_object f d o = elim o.obj [
        | vnode ino ↦ write_vnode now f ino d
        | pipe q ↦ write_pipe q d
        | null_device ↦ return count
        | terminal ↦ write_terminal d
      ]

      with_bytes : ℕ → Bytes → K I ℕ
      with_bytes f d = file f >>= by_object f d

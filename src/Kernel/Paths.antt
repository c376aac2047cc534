-- ===== src/Kernel/Paths.antt =====
-- The calls of kernel.py that take names of files.
use minixfs.Prelude.{ℕ, ◌+◌, not, ◌==◌, if◌then◌else◌, ok, err}
use minixfs.Memory as Memory
use minixfs.MinixFs.Format.{is_dir}
use minixfs.Overlay.Lookup.{walk}
use minixfs.Overlay.Ops as Ops
use minixfs.Kernel.State.{
  K, ◌>>=◌, ◌>>◌, return, raise, trap, in_fs, proc, put_proc, eperm, enotdir, fault,
}
use minixfs.Kernel.Io.{cstr, inode}
use minixfs.Kernel.Open.{masked, place_of}

module _ {I : Type 0} where
  -- `_walk` on a name in the caller's memory.
  unfoldable pub named : ℕ → ℕ → K I ℕ
  named pid path = do name ← cstr pid path; p ← proc pid; in_fs (walk name (place_of p))

  -- `sys_chdir` and `sys_chroot`
  unfoldable pub chdir : ℕ → ℕ → K I ℕ
  unfolding named
  chdir pid path = do
    ino ← named pid path
    v ← inode ino
    if not (is_dir v.mode)
        then raise enotdir
        else do p ← proc pid; put_proc (record p { cwd = ino }); return 0

  unfoldable pub chroot : ℕ → ℕ → K I ℕ
  unfolding named
  chroot pid path = do
    p ← proc pid
    if not (p.euid == 0) then raise eperm else do
      ino ← named pid path
      v ← inode ino
      if not (is_dir v.mode)
          then raise enotdir
          else do q ← proc pid; put_proc (record q { root = ino; cwd = ino }); return 0

  unfoldable access : ℕ → ℕ → K I ℕ
  unfolding named
  access pid path = do _ ← named pid path; return 0

  unfoldable chmod : ℕ → ℕ → ℕ → K I ℕ
  unfolding named
  chmod pid path mode = do ino ← named pid path; in_fs (Ops.chmod ino mode); return 0

  unfoldable chown : ℕ → ℕ → ℕ → ℕ → K I ℕ
  unfolding named
  chown pid path uid gid = do ino ← named pid path; in_fs (Ops.chown ino uid gid); return 0

  -- `sys_utime`; without times it is the time of the call.
  unfoldable utime : ℕ → ℕ → ℕ → ℕ → K I ℕ
  unfolding named
  utime now pid path times = do
    ino ← named pid path
    p ← proc pid
    mtime ←
        (if times == 0 then return now else elim (Memory.read_u32 p.mem (times + 4)) [
          | ok t ↦ return t
          | err e ↦ trap (fault e)
        ])
    in_fs (Ops.utime ino mtime)
    return 0

  unfoldable link : ℕ → ℕ → ℕ → ℕ → K I ℕ
  link now pid old new = do
    a ← cstr pid old
    b ← cstr pid new
    p ← proc pid
    in_fs (Ops.link now a b (place_of p))
    return 0

  unfoldable unlink : ℕ → ℕ → ℕ → K I ℕ
  unlink now pid path = do
    a ← cstr pid path
    p ← proc pid
    in_fs (Ops.unlink now a (place_of p))
    return 0

  unfoldable rename : ℕ → ℕ → ℕ → ℕ → K I ℕ
  rename now pid old new = do
    a ← cstr pid old
    b ← cstr pid new
    p ← proc pid
    in_fs (Ops.rename now a b (place_of p))
    return 0

  unfoldable mkdir : ℕ → ℕ → ℕ → ℕ → K I ℕ
  mkdir now pid path mode = do
    a ← cstr pid path
    p ← proc pid
    _ ← in_fs (Ops.mkdir now a (masked mode p.umask) (place_of p) p.euid p.egid)
    return 0

  unfoldable rmdir : ℕ → ℕ → ℕ → K I ℕ
  rmdir now pid path = do
    a ← cstr pid path
    p ← proc pid
    in_fs (Ops.rmdir now a (place_of p))
    return 0

  unfoldable mknod : ℕ → ℕ → ℕ → ℕ → ℕ → K I ℕ
  mknod now pid path mode dev = do
    p ← proc pid
    if not (p.euid == 0) then raise eperm else do
      a ← cstr pid path
      q ← proc pid
      _ ← in_fs (Ops.mknod now a mode dev (place_of q) q.euid q.egid)
      return 0

  unfoldable brk : ℕ → ℕ → K I ℕ
  brk pid addr = do
    p ← proc pid
    let r = Memory.set_brk p.mem addr
    put_proc (record p { mem = r.0 })
    return r.1

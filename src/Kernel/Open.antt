-- ===== src/Kernel/Open.antt =====
-- Opening and creating files in kernel.py.
use minixfs.Prelude.{
  ℕ, ◌+◌, ◌-◌, ◌/◌, ◌%◌, Bool, true, false, not, ◌&&◌, ◌||◌, none, some, ◌==◌, if◌then◌else◌, ok,
  err,
}
use Prim.Native.Nat.{bit_and}
use minixfs.MinixFs.Format.{is_dir, is_device, is_regular}
use minixfs.MinixFs.Dir.{Text}
use minixfs.Overlay.State as Overlay
use minixfs.Overlay.State.{VInode, size}
use minixfs.Overlay.Dict.{table_set}
use minixfs.Overlay.Lookup.{Place, walk}
use minixfs.Overlay.Ops as Ops
use minixfs.Kernel.State.{
  FileObj, vnode, pipe, terminal, null_device, OpenFile, Process, bit_at, K, ◌>>=◌, ◌>>◌, return,
  raise, in_fs, Done, proc, eperm, enxio, eexist, eisdir, from_fs, Trap,
}
use minixfs.Kernel.Fds.{alloc_fd, set_fd}
use minixfs.Kernel.Io.{cstr, inode, o_append}

-- O_CREAT, O_EXCL and O_TRUNC are the bits 6, 7 and 9 of the flags.
abbrev pub o_creat : ℕ
o_creat = 6

abbrev pub o_excl : ℕ
o_excl = 7

abbrev pub o_trunc : ℕ
o_trunc = 9

-- `O_CREAT | O_TRUNC | O_WRONLY`
abbrev pub creat_flags : ℕ
creat_flags = 577

-- `mode & ~umask`
abbrev pub masked : ℕ → ℕ → ℕ
masked mode umask = mode - bit_and mode umask

abbrev pub place_of : {I : Type 0} → Process I → Place
place_of p = record { cwd = p.cwd; root = p.root }

-- The error that `sys_open` goes on from.
abbrev pub is_missing : Trap → Bool
is_missing (from_fs (Overlay.errno Overlay.enoent)) = true
is_missing e = false

module _ {I : Type 0} where
  -- The inode that the name stands for, or a new one where there is none.
  unfoldable pub find_inode : ℕ → ℕ → Text → ℕ → ℕ → K I ℕ
  find_inode now pid name flags mode s =
      (do
        p ← proc pid
        (λ s1.
            let (r, s2) = in_fs (walk name (place_of p)) s1 in
            elim r [
              | ok ino ↦
                  if bit_at flags o_excl && bit_at flags o_creat
                  then raise eexist s2
                  else return ino s2
              | err e ↦
                  if is_missing e && bit_at flags o_creat
                  then in_fs (Ops.create now name (masked mode p.umask) (place_of p) p.euid p.egid)
                      s2
                  else (err e, s2)
            ]))
        s

  -- `_open_device`, by the major and the minor number. The null device is one object here.
  unfoldable pub open_device : ℕ → K I FileObj
  open_device ino = do
    v ← inode ino
    let major = v.rdev / 256
    if major == 4 || major == 5
        then (λ s. (ok (elim s.tty [ none ↦ vnode ino | some _ ↦ terminal ]), s))
        else if major == 1 && v.rdev % 256 == 3
        then return null_device
        else if major == 3
        then raise eperm
        else raise enxio

  -- What the new open file stands for; a regular file is cut to nothing on request.
  unfoldable pub open_inode : ℕ → ℕ → ℕ → K I FileObj
  unfolding open_device
  open_inode now ino flags = do
    v ← inode ino
    if is_dir v.mode && not (flags % 4 == 0)
        then raise eisdir
        else if is_device v.mode
        then open_device ino
        else if bit_at flags o_trunc && is_regular v.mode
        then (do in_fs (Ops.truncate now ino 0); return (vnode ino))
        else return (vnode ino)

  -- An inode counts its open files, and an open file that appends starts at the end.
  unfoldable pub start_pos : FileObj → ℕ → K I ℕ
  start_pos (vnode ino) flags = do
    v ← inode ino
    in_fs (Overlay.put (record v { open_refs = v.open_refs + 1 }))
    return (if bit_at flags o_append then size v else 0)
  start_pos (pipe q) flags = return 0
  start_pos terminal flags = return 0
  start_pos null_device flags = return 0

  -- The open file enters the table and the slot of the descriptor at once.
  unfoldable pub enter_file : ℕ → ℕ → OpenFile → K I Done
  enter_file pid fd o = do
    f ← (λ s. (
      ok s.next_file,
      record s { files = table_set s.next_file o s.files; next_file = s.next_file + 1 },
    ))
    set_fd pid fd (some f)

  -- `sys_open`
  unfoldable pub open_file : ℕ → ℕ → ℕ → ℕ → ℕ → K I ℕ
  unfolding find_inode open_inode start_pos enter_file
  open_file now pid path flags mode = do
    name ← cstr pid path
    ino ← find_inode now pid name flags mode
    obj ← open_inode now ino flags
    fd ← alloc_fd pid 0
    pos ← start_pos obj flags
    enter_file pid fd (record { obj = obj; flags = flags; pos = pos; refs = 1 })
    return fd

  unfoldable pub creat : ℕ → ℕ → ℕ → ℕ → K I ℕ
  unfolding open_file
  creat now pid path mode = open_file now pid path creat_flags mode
